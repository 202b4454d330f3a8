-- ===== src/Hash/Clear.antt =====
-- `hash_table_clear` frees every entry once, and its `assert` holds.
use my_little_tool.Prelude.{
  ℕ, ◌+◌, ◌≤◌, ◌<◌, ◌≡◌, refl, sym, ap, ◌∙◌, arith, Bool-cases, List, [], ◌∷◌, ◌++◌, Option-cases,
  inl, inr, some, ◌==◌, ==_iff, if◌then◌else◌, length, length-append, cell, sum_of, sum_first,
  sum_first-next, sum_first-all, sum_of-single, ok, ◌>>=◌, Returns, bind_rule, for_up, for_up_rule,
}
use my_little_tool.Hash.{
  TableEntry, HashTypeFunction, HashTable, is_null, bucket, hash_slot, hash_table_clear,
}
use my_little_tool.Hash.Chain.{times, lookup, lookup_absent, lookup-none}
use my_little_tool.Hash.Valid.{IsFilled, IsValid, fresh, filled, contents, hash_slot-lt, bucket-ok}

module _ {ℓ} {K V : Type ℓ} (f : HashTypeFunction K V) where
  pub times-append :
      (x : K) (es ds : List (TableEntry K V)) → times f x (es ++ ds) ≡ times f x es + times f x ds
  unfolding times
  times-append x [] ds = omega arith
  times-append x (e ∷ es) ds = omega (arith, times-append x es ds)

  times_once :
      (x : K) (es : List (TableEntry K V))
      → times f x es ≤ 1
      → times f x es ≡ (if is_null (lookup f x es) then 0 else 1)
  times_once x es once = elim (Option-cases (lookup f x es)) [
    | inl n ↦ rw n (lookup-none f x es n)
    | inr (v, s) ↦ rw s (elim (Bool-cases (times f x es == 0)) [
      | inl z ↦ absurd (ground (arith, s, lookup_absent f x es ((==_iff _ _).0 z)))
      | inr z ↦ ground (arith, once)
    ])
  ]

  -- What is freed: as many entries as `use_` says, one for each key that has a value.
  pub record IsFreed (t : HashTable K V) (freed : List (TableEntry K V)) : Type ℓ where
    pub all : length freed ≡ t.use_
    pub once : (x : K) → times f x freed ≡ (if is_null (contents f t x) then 0 else 1)

  -- Over all chains, a key occurs once if it has a value, else not at all.
  pub times_filled :
      (t : HashTable K V) (chains : List (List (TableEntry K V)))
      → t.table_ ≡ some chains
      → IsFilled f t.size_ t.use_ chains
      → (x : K) → sum_of (times f x) chains ≡ (if is_null (contents f t x) then 0 else 1)
  unfolding contents times
  times_filled t chains e v x =
      let s = hash_slot f t.size_ x in
      let low = hash_slot-lt f t.size_ x v.some_slots v.size_fits in
      sum_of-single (times f x) [] chains s (omega (arith, v.slots)) (λ i l n. v.placed i x n)
      ∙ (times_once x (cell [] chains s) (v.distinct s x) ∙ rw e refl)

  record Freed (chains : List (List (TableEntry K V))) (idx : ℕ) (freed : List (TableEntry K V))
      : Type ℓ where
    number : length freed ≡ sum_first length idx chains
    keys : (x : K) → times f x freed ≡ sum_first (times f x) idx chains

  free_one :
      (t : HashTable K V) (chains : List (List (TableEntry K V))) (idx : ℕ)
      (freed : List (TableEntry K V))
      → t.table_ ≡ some chains
      → idx < length chains
      → Freed chains idx freed
      → Returns (bucket t idx >>= λ chain. ok (freed ++ chain)) (Freed chains (idx + 1))
  free_one t chains idx freed e l p =
      let c = cell [] chains idx in
      (
        freed ++ c,
        rw (bucket-ok f t chains idx e l) refl,
        record {
          number =
              omega (arith, length-append freed c, p.number, sum_first-next length [] idx chains l);
          keys = λ x.
              omega (
                arith,
                times-append x freed c,
                p.keys x,
                sum_first-next (times f x) [] idx chains l,
              );
        },
      )

  -- `hash_table_clear` on a well-formed table ends without a fault, so its `assert` holds: it
  -- frees `use_` entries, exactly one for each key that has a value and none for another key.
  pub hash_table_clear-IsFreed :
      (t : HashTable K V) → IsValid f t → Returns (hash_table_clear t) (IsFreed t)
  unfolding hash_table_clear contents times for_up sum_first
  hash_table_clear-IsFreed t (fresh e s u) =
      ([], rw (s, u) refl, record { all = sym u; once = λ x. rw e refl })
  hash_table_clear-IsFreed t (filled chains e v) =
      bind_rule _ _
        (for_up_rule (Freed chains) _ t.size_ 0 t.size_ [] (omega arith)
          (λ idx freed m l p. free_one t chains idx freed e (omega (arith, v.slots)) p)
          (record { number = refl; keys = λ x. refl }))
        λ freed p.
          let whole : (w : List (TableEntry K V) → ℕ)
              → sum_first w t.size_ chains ≡ sum_of w chains =
            λ w. ap (λ n. sum_first w n chains) (sym v.slots) ∙ sum_first-all w chains in
          let number : length freed ≡ t.use_ = p.number ∙ (whole length ∙ v.counted) in
          (
            freed,
            rw ((==_iff _ _).1 number) refl,
            record {
              all = number;
              once = λ x. p.keys x ∙ (whole (times f x) ∙ times_filled t chains e v x);
            },
          )
