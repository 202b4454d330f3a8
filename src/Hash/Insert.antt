-- ===== src/Hash/Insert.antt =====
-- `hash_table_insert` on a well-formed table.
use my_little_tool.Prelude.{
  ◌⊎◌, ℕ, ◌+◌, ◌*◌, ◌^◌, ◌≤◌, ◌<◌, ◌≡◌, ◌≢◌, inl, inr, refl, sym, ap, ◌∙◌, arith, Bool, true, false,
  Option-cases, List, [], ◌∷◌, Option, none, some, ==_iff, if◌then◌else◌, length, set, cell,
  cell-set, ok, fault, null_pointer, ◌>>=◌, Returns, bind_rule, weaken,
}
use my_little_tool.Hash.{
  TableEntry, HashTypeFunction, HashTable, dumped, is_null, uint32, bucket, set_bucket, hash_slot,
  find_entry, set_value, link_entry, hash_table_insert,
}
use my_little_tool.Hash.Chain.{
  IsLawful, same_key, times, lookup, find_entry-lookup, lookup-none, value_of, key_cases, same,
  apart, times-set_value, length-set_value, lookup-set_value, lookup-set_value_other,
}
use my_little_tool.Hash.Valid.{
  IsFilled, IsValid, fresh, filled, contents, hash_slot-lt, bucket-ok, set_bucket-ok, IsFilled-set,
  lookup_replaced, find-filled, find-fresh, hash_table_find-contents,
}
use my_little_tool.Hash.Growth.{IsGrown, hash_table_growup-IsGrown, growup_refused}

module _ {ℓ} {K V : Type ℓ} (f : HashTypeFunction K V) (law : IsLawful f) where
  -- What an insertion that gets its memory leaves.
  pub record IsInserted (t : HashTable K V) (k : K) (v : V) (r : HashTable K V) : Type ℓ where
    pub valid : IsValid f r
    pub stored : contents f r k ≡ some (dumped f.value_dump_ v)
    pub others : (x : K) → k ≢ x → contents f r x ≡ contents f t x
    pub counted : r.use_ ≡ (if is_null (contents f t k) then t.use_ + 1 else t.use_)

  -- The value at a present key is replaced in its chain.
  overwrite_lem :
      (t : HashTable K V) (chains : List (List (TableEntry K V))) (k : K) (v : V)
      (en : TableEntry K V)
      → t.table_ ≡ some chains
      → IsFilled f t.size_ t.use_ chains
      → find_entry f k (cell [] chains (hash_slot f t.size_ k)) ≡ some en
      → contents f t k ≡ some en.val_
      → Returns
          (bucket t (hash_slot f t.size_ k) >>= λ chain.
            set_bucket t (hash_slot f t.size_ k) (set_value f k v chain))
          (IsInserted t k v)
  unfolding contents
  overwrite_lem t chains k v en e w found there =
      let i = hash_slot f t.size_ k in
      let low : i < t.size_ = hash_slot-lt f t.size_ k w.some_slots w.size_fits in
      let here : i < length chains = omega (arith, w.slots) in
      let c = cell [] chains i in
      let c' = set_value f k v c in
      (
        record t { table_ = some (set chains i c') },
        rw (bucket-ok f t chains i e here) (set_bucket-ok f t chains i c' e here),
        record {
          valid = filled (set chains i c') refl (
              IsFilled-set f t.size_ t.use_ t.use_ i chains c' low
                (λ x n. w.placed i x (omega (arith, times-set_value f law k x v c)))
                (λ x. omega (arith, times-set_value f law k x v c, w.distinct i x))
                (omega (arith, length-set_value f law k v c)) w.use_fits w);
          stored =
              rw (cell-set [] chains i i c' here, (==_iff i i).1 refl)
                (lookup-set_value f law k v en c found);
          others = λ x ne. rw e (
              lookup_replaced f chains i (hash_slot f t.size_ x) c' x here
                (lookup-set_value_other f law k x v c ne));
          counted = rw there refl;
        },
      )

  contents-filled :
      (t : HashTable K V) (chains : List (List (TableEntry K V))) (k : K)
      → t.table_ ≡ some chains
      → contents f t k ≡ lookup f k (cell [] chains (hash_slot f t.size_ k))
  unfolding contents
  contents-filled t chains k e = rw e refl

  contents-fresh : (t : HashTable K V) (k : K) → t.table_ ≡ none → contents f t k ≡ none
  unfolding contents
  contents-fresh t k e = rw e refl

  value_of-none : (o : Option (TableEntry K V)) → value_of f o ≡ none → o ≡ none
  value_of-none none h = refl
  value_of-none (some e) h = absurd (ground arith)

  -- A new head with the key `k`.
  module _ (e : TableEntry K V) (c : List (TableEntry K V)) (k : K) (eq : e.key_ ≡ k) where
    lookup_head : lookup f k (e ∷ c) ≡ some e.val_
    unfolding lookup
    lookup_head = rw ((law.compares k e.key_).1 (sym eq)) refl

    lookup_head_other : (x : K) → k ≢ x → lookup f x (e ∷ c) ≡ lookup f x c
    unfolding lookup
    lookup_head_other x ne = elim (key_cases f law x e.key_) [
      | same u z eq' ↦ absurd (ne (sym (eq' ∙ eq)))
      | apart u z ne' ↦ rw u refl
    ]

    head_placed :
        (i size : ℕ)
        → hash_slot f size k ≡ i
        → ((x : K) → 0 < times f x c → hash_slot f size x ≡ i)
        → (x : K) → 0 < times f x (e ∷ c)
        → hash_slot f size x ≡ i
    unfolding times same_key
    head_placed i size h own x n = elim (key_cases f law x e.key_) [
      | same u z eq' ↦ ap (hash_slot f size) (eq' ∙ eq) ∙ h
      | apart u z ne ↦ own x (ground arith)
    ]

    head_distinct : times f k c ≡ 0 → ((x : K) → times f x c ≤ 1) → (x : K) → times f x (e ∷ c) ≤ 1
    unfolding times same_key
    head_distinct absent once x = elim (key_cases f law x e.key_) [
      | same u z eq' ↦
          let here : times f x c ≡ 0 = ap (λ y. times f y c) (eq' ∙ eq) ∙ absent in ground arith
      | apart u z ne ↦ ground (arith, once x)
    ]

  -- A key that is absent gets an entry of its own.
  link_lem :
      (t : HashTable K V) (chains : List (List (TableEntry K V))) (k : K) (v : V)
      → t.table_ ≡ some chains
      → IsFilled f t.size_ t.use_ chains
      → t.use_ + 1 < 2 ^ 32
      → contents f t k ≡ none
      → Returns (link_entry f t k v) (IsInserted t k v)
  unfolding link_entry contents uint32
  link_lem t chains k v e w room gone =
      let i = hash_slot f t.size_ k in
      let low : i < t.size_ = hash_slot-lt f t.size_ k w.some_slots w.size_fits in
      let here : i < length chains = omega (arith, w.slots) in
      let entry : TableEntry K V = record {
        key_ = dumped f.key_dump_ k;
        val_ = dumped f.value_dump_ v;
      } in
      let c = cell [] chains i in
      let copy : entry.key_ ≡ k = law.copies k in
      let absent : times f k c ≡ 0 =
        lookup-none f k c (sym (contents-filled t chains k e) ∙ gone) in
      (
        record { table_ = some (set chains i (entry ∷ c)); size_ = t.size_; use_ = t.use_ + 1 },
        rw (bucket-ok f t chains i e here, set_bucket-ok f t chains i (entry ∷ c) e here)
            (ap
              (λ n.
                ok (record { table_ = some (set chains i (entry ∷ c)); size_ = t.size_; use_ = n }))
              (omega arith)),
        record {
          valid = filled (set chains i (entry ∷ c)) refl (
              IsFilled-set f t.size_ t.use_ (t.use_ + 1) i chains (entry ∷ c) low
                (head_placed entry c k copy i t.size_ refl (w.placed i))
                (head_distinct entry c k copy absent (w.distinct i)) (omega arith) room w);
          stored =
              rw (cell-set [] chains i i (entry ∷ c) here, (==_iff i i).1 refl)
                (lookup_head entry c k copy);
          others = λ x ne. rw e (
              lookup_replaced f chains i (hash_slot f t.size_ x) (entry ∷ c) x here
                (lookup_head_other entry c k copy x ne));
          counted = rw gone refl;
        },
      )

  -- Inserting an absent key into a table that has grown for it.
  grown_lem :
      (t r : HashTable K V) (k : K) (v : V)
      → IsGrown f law t r
      → t.use_ < 3 * 2 ^ 29
      → contents f t k ≡ none
      → Returns (link_entry f r k v) (IsInserted t k v)
  grown_lem t r k v g room gone = elim g.valid [
    | fresh e s u ↦ absurd (omega (arith, g.some_slots))
    | filled chains e w ↦
        let absent : contents f r k ≡ none = g.same_map k ∙ gone in
        weaken _ (link_lem r chains k v e w (omega (arith, g.same_use)) absent) λ q i. record {
          valid = i.valid;
          stored = i.stored;
          others = λ x ne. i.others x ne ∙ g.same_map x;
          counted = i.counted ∙ rw (absent, gone) (omega (arith, g.same_use));
        }
  ]

  -- `hash_table_insert` on a well-formed table of fewer than 3 * 2^29 entries, when its memory is
  -- granted, ends without a fault in a well-formed table where the key has the (dumped) value and
  -- every other key keeps its value; `use_` grows by one if the key was absent, else it stays.
  pub hash_table_insert-IsInserted :
      (t : HashTable K V) (k : K) (v : V)
      → IsValid f t
      → t.use_ < 3 * 2 ^ 29
      → Returns (hash_table_insert f true true t k v) (IsInserted t k v)
  unfolding hash_table_insert
  hash_table_insert-IsInserted t k v (fresh e s u) room =
      let gone = contents-fresh t k e in
      rw (find-fresh f t k e) (
        bind_rule _ _ (hash_table_growup-IsGrown f law t (fresh e s u) room)
          λ r g. grown_lem t r k v g room gone)
  hash_table_insert-IsInserted t k v (filled chains e w) room =
      let c = cell [] chains (hash_slot f t.size_ k) in
      let there = contents-filled t chains k e ∙ sym (find_entry-lookup f k c) in
      rw (find-filled f t chains k e w) (elim (Option-cases (find_entry f k c)) [
        | inl gone ↦ rw gone (
            bind_rule _ _ (hash_table_growup-IsGrown f law t (filled chains e w) room)
              λ r g. grown_lem t r k v g room (there ∙ ap (value_of f) gone))
        | inr (en, found) ↦
            rw found (overwrite_lem t chains k v en e w found (there ∙ ap (value_of f) found))
      ])

  -- When the memory for more chains is refused but the table has chains, an entry goes into them.
  pub hash_table_insert_kept :
      (t : HashTable K V) (k : K) (v : V)
      → IsValid f t
      → 0 < t.size_
      → t.use_ < 3 * 2 ^ 29
      → Returns (hash_table_insert f false true t k v) (IsInserted t k v)
  unfolding hash_table_insert
  hash_table_insert_kept t k v (fresh e s u) some_slots room = absurd (omega arith)
  hash_table_insert_kept t k v (filled chains e w) some_slots room =
      let c = cell [] chains (hash_slot f t.size_ k) in
      let there = contents-filled t chains k e ∙ sym (find_entry-lookup f k c) in
      rw (find-filled f t chains k e w) (elim (Option-cases (find_entry f k c)) [
        | inl gone ↦
            rw (gone, growup_refused f law t)
              (link_lem t chains k v e w (omega arith) (there ∙ ap (value_of f) gone))
        | inr (en, found) ↦
            rw found (overwrite_lem t chains k v en e w found (there ∙ ap (value_of f) found))
      ])

  -- A present key needs no memory.
  pub hash_table_insert_present :
      (got_table got_entry : Bool) (t : HashTable K V) (k : K) (v : V)
      → IsValid f t
      → is_null (contents f t k) ≡ false
      → Returns (hash_table_insert f got_table got_entry t k v) (IsInserted t k v)
  unfolding hash_table_insert
  hash_table_insert_present got_table got_entry t k v (fresh e s u) there =
      let gone = contents-fresh t k e in absurd (ground (arith, gone, there))
  hash_table_insert_present got_table got_entry t k v (filled chains e w) there =
      let c = cell [] chains (hash_slot f t.size_ k) in
      let value = contents-filled t chains k e ∙ sym (find_entry-lookup f k c) in
      rw (find-filled f t chains k e w) (elim (Option-cases (find_entry f k c)) [
        | inl gone ↦
            let absent = value ∙ ap (value_of f) gone in absurd (ground (arith, absent, there))
        | inr (en, found) ↦
            rw found (overwrite_lem t chains k v en e w found (value ∙ ap (value_of f) found))
      ])

  -- When the memory for a new entry is refused, `hash_table_insert` of an absent key ends without
  -- a fault in a well-formed table that stands for the same map.
  pub hash_table_insert_refused :
      (got_table : Bool) (t : HashTable K V) (k : K) (v : V)
      → IsValid f t
      → t.use_ < 3 * 2 ^ 29
      → (got_table ≡ true) ⊎ (0 < t.size_)
      → contents f t k ≡ none
      → Returns (hash_table_insert f got_table false t k v) λ r.
        IsValid f r
        × ((x : K) → contents f r x ≡ contents f t x)
        × (r.use_ ≡ t.use_)
        × (0 < r.size_)
  unfolding hash_table_insert
  hash_table_insert_refused true t k v valid room slots gone =
      let (o, found, p) = hash_table_find-contents f t k valid in
      rw (found, value_of-none o (p ∙ gone))
        (bind_rule _ _ (hash_table_growup-IsGrown f law t valid room)
          λ r g. (r, refl, (g.valid, g.same_map, g.same_use, g.some_slots)))
  hash_table_insert_refused false t k v valid room slots gone =
      let (o, found, p) = hash_table_find-contents f t k valid in
      let some_slots : 0 < t.size_ = ground (arith, slots) in
      rw (found, value_of-none o (p ∙ gone))
        (t, rw (growup_refused f law t) refl, (valid, (λ x. refl), refl, some_slots))

  -- On a well-formed table without chains, when the memory for the first chains is refused but that
  -- for the entry is granted, `hash_table_insert` goes through the NULL pointer `table_`.
  pub hash_table_insert-null :
      (t : HashTable K V) (k : K) (v : V)
      → IsValid f t
      → t.size_ ≡ 0
      → hash_table_insert f false true t k v ≡ fault null_pointer
  unfolding hash_table_insert link_entry bucket
  hash_table_insert-null t k v (fresh e s u) h =
      rw (find-fresh f t k e, growup_refused f law t) (rw e refl)
  hash_table_insert-null t k v (filled chains e w) h = absurd (omega (arith, w.some_slots))
