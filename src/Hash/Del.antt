-- ===== src/Hash/Del.antt =====
-- `hash_table_del` on a well-formed table.
use my_little_tool.Prelude.{
  ◌+◌, ◌-◌, ◌≤◌, ◌<◌, ◌≡◌, ◌≢◌, refl, sym, ap, arith, List, [], Option, none, some, ==_iff,
  if◌then◌else◌, length, set, cell, cell-set, sum_of-cell, ok, fault, null_pointer, Returns,
}
use my_little_tool.Hash.{
  TableEntry, HashTypeFunction, HashTable, is_null, uint32, bucket, hash_slot, remove_found,
  hash_table_del,
}
use my_little_tool.Hash.Chain.{
  IsLawful, same_key, lookup_absent, value_of, missing, taken, unlink_cases,
}
use my_little_tool.Hash.Valid.{
  IsFilled, IsValid, fresh, filled, contents, hash_slot-lt, bucket-ok, set_bucket-ok, IsFilled-set,
  lookup_replaced,
}

module _ {ℓ} {K V : Type ℓ} (f : HashTypeFunction K V) (law : IsLawful f) where
  -- What `hash_table_del` leaves, and the entry it frees.
  pub record IsDeleted (t : HashTable K V) (k : K) (r : HashTable K V × Option (TableEntry K V))
      : Type ℓ where
    pub valid : IsValid f r.0
    pub same_size : r.0.size_ ≡ t.size_
    pub gone : contents f r.0 k ≡ none
    pub others : (x : K) → k ≢ x → contents f r.0 x ≡ contents f t x
    pub freed : value_of f r.1 ≡ contents f t k
    pub counted : r.0.use_ + (if is_null r.1 then 0 else 1) ≡ t.use_

  same_key_self : (x : K) → same_key f x x ≡ 1
  unfolding same_key
  same_key_self x = rw ((law.compares x x).1 refl) refl

  del_filled :
      (t : HashTable K V) (chains : List (List (TableEntry K V))) (k : K)
      → t.table_ ≡ some chains
      → IsFilled f t.size_ t.use_ chains
      → Returns (hash_table_del f t k) (IsDeleted t k)
  unfolding hash_table_del remove_found contents uint32
  del_filled t chains k e v =
      let i = hash_slot f t.size_ k in
      let low : i < t.size_ = hash_slot-lt f t.size_ k v.some_slots v.size_fits in
      let here : i < length chains = omega (arith, v.slots) in
      let c = cell [] chains i in
      rw (bucket-ok f t chains i e here) (elim (unlink_cases f law k c) [
        | missing gone none_left ↦ (
          (t, none),
          rw gone refl,
          record {
            valid = filled chains e v;
            same_size = refl;
            gone = rw e (lookup_absent f k c none_left);
            others = λ x ne. refl;
            freed = rw e (sym (lookup_absent f k c none_left));
            counted = omega arith;
          },
        )
        | taken en rest found u ↦
            let once = v.distinct i k in
            let some_left : length c ≤ t.use_ =
              omega (arith, sum_of-cell length [] chains i here, v.counted) in
            (
              (
                record { table_ = some (set chains i rest); size_ = t.size_; use_ = t.use_ - 1 },
                some en,
              ),
              rw (found, set_bucket-ok f t chains i rest e here)
                  (ap
                    (λ n. ok (
                      record { table_ = some (set chains i rest); size_ = t.size_; use_ = n },
                      some en,
                    ))
                    (omega (arith, v.use_fits, u.shorter))),
              record {
                valid = filled (set chains i rest) refl (
                    IsFilled-set f t.size_ t.use_ (t.use_ - 1) i chains rest low
                      (λ x n. v.placed i x (omega (arith, u.fewer x)))
                      (λ x. omega (arith, u.fewer x, v.distinct i x)) (omega (arith, u.shorter))
                      (omega (arith, v.use_fits)) v);
                same_size = refl;
                gone =
                    rw (cell-set [] chains i i rest here, (==_iff i i).1 refl)
                      (lookup_absent f k rest (omega (arith, u.fewer k, same_key_self k, once)));
                others = λ x ne. rw e (
                    lookup_replaced f chains i (hash_slot f t.size_ x) rest x here (u.others x ne));
                freed = rw e (sym u.value);
                counted = omega (arith, u.shorter);
              },
            )
      ])

  -- On a well-formed table that has chains, `hash_table_del` ends without a fault in a
  -- well-formed table where the key is gone and every other key keeps its value. It frees the
  -- entry with the key's value and lowers `use_` by one, or changes nothing if the key was absent.
  pub hash_table_del-IsDeleted :
      (t : HashTable K V) (k : K)
      → IsValid f t
      → 0 < t.size_
      → Returns (hash_table_del f t k) (IsDeleted t k)
  hash_table_del-IsDeleted t k (fresh e s u) h = absurd (omega arith)
  hash_table_del-IsDeleted t k (filled chains e v) h = del_filled t chains k e v

  -- On a well-formed table without chains, `hash_table_del` reads through a NULL pointer.
  pub hash_table_del-null :
      (t : HashTable K V) (k : K)
      → IsValid f t
      → t.size_ ≡ 0
      → hash_table_del f t k ≡ fault null_pointer
  unfolding hash_table_del bucket
  hash_table_del-null t k (fresh e s u) h = rw e refl
  hash_table_del-null t k (filled chains e v) h = absurd (omega (arith, v.some_slots))
