-- ===== src/Hash/Growth.antt =====
-- `hash_table_growup` keeps a table well formed, and the map it stands for.
pub mod Moving
use my_little_tool.Prelude.{
  suc, ◌-◌, ◌*◌, ◌^◌, ◌%◌, ◌≤◌, ◌<◌, ◌≡◌, inl, inr, refl, sym, ap, ◌∙◌, arith, true, false,
  Bool-cases, Option-cases, List, [], none, some, ◌==◌, leb, leb→le, leb→gt, lt→ltb, length,
  replicate, cell-replicate, sum_of, sum_first, sum_first-all, ok, Returns, bind_rule, for_up,
}
use native.Mathlib.Nat.{pow-suc}
use my_little_tool.Hash.{
  TableEntry, HashTypeFunction, HashTable, uint32, hash_slot, new_capcity, grow_to,
  hash_table_growup,
}
use my_little_tool.Hash.Chain.{IsLawful, times, lookup}
use my_little_tool.Hash.Valid.{IsFilled, IsValid, fresh, filled, contents, hash_slot-lt}
use my_little_tool.Hash.Growth.Moving.{move_all}

module _ {ℓ} {K V : Type ℓ} (f : HashTypeFunction K V) (law : IsLawful f) where
  -- When the table grows, and to what size: 32 slots first, then twice as many whenever it is
  -- three quarters full.
  pub data IsResized (t r : HashTable K V) : Type ℓ where
    first : t.size_ ≡ 0 → r.size_ ≡ 32 → IsResized t r
    kept : 4 * t.use_ < 3 * t.size_ → r.size_ ≡ t.size_ → IsResized t r
    doubled : 0 < t.size_ → 3 * t.size_ ≤ 4 * t.use_ → r.size_ ≡ 2 * t.size_ → IsResized t r

  -- What growing leaves: the same map and count, in a well-formed table with chains.
  pub record IsGrown (t r : HashTable K V) : Type ℓ where
    pub valid : IsValid f r
    pub same_map : (x : K) → contents f r x ≡ contents f t x
    pub same_use : r.use_ ≡ t.use_
    pub some_slots : 0 < r.size_
    pub resized : IsResized t r

  grow_fresh :
      (t : HashTable K V)
      → t.table_ ≡ none
      → t.size_ ≡ 0
      → t.use_ ≡ 0
      → Returns (hash_table_growup f true t) (IsGrown t)
  unfolding hash_table_growup grow_to new_capcity uint32 for_up contents times lookup sum_of
  grow_fresh t e s u = (
    record { table_ = some (replicate 32 []); size_ = 32; use_ = t.use_ },
    rw s refl,
    record {
      valid = filled (replicate 32 []) refl (record {
        some_slots = omega arith;
        size_fits = omega arith;
        power = (0, refl);
        slots = refl;
        placed = λ i x.
            rw (cell-replicate {A = List (TableEntry K V)} [] 32 i) (λ n. absurd (omega arith));
        distinct = λ i x. rw (cell-replicate {A = List (TableEntry K V)} [] 32 i) (omega arith);
        counted = sym u;
        use_fits = omega arith;
      });
      same_map =
          λ x. rw (e, cell-replicate {A = List (TableEntry K V)} [] 32 (hash_slot f 32 x)) refl;
      same_use = refl;
      some_slots = omega arith;
      resized = first s refl;
    },
  )

  grow_filled :
      (t : HashTable K V) (chains : List (List (TableEntry K V)))
      → t.table_ ≡ some chains
      → IsFilled f t.size_ t.use_ chains
      → t.use_ < 3 * 2 ^ 29
      → Returns (hash_table_growup f true t) (IsGrown t)
  unfolding hash_table_growup grow_to new_capcity uint32 contents
  grow_filled t chains e v room =
      let some_slots : (t.size_ == 0) ≡ false = ground (arith, v.some_slots) in
      elim (Bool-cases (leb (3 * t.size_) (4 * t.use_))) [
        | inr low ↦ (
          t,
          rw (some_slots, low) refl,
          record {
            valid = filled chains e v;
            same_map = λ x. refl;
            same_use = refl;
            some_slots = v.some_slots;
            resized = kept (leb→gt _ _ low) refl;
          },
        )
        | inl full ↦
            let (k, power) = v.power in
            let load = leb→le _ _ full in
            let wide : t.size_ * 2 % 2 ^ 32 ≡ 2 * t.size_ = omega arith in
            let same_width : 2 * t.size_ % 2 ^ 32 ≡ 2 * t.size_ = omega arith in
            rw (some_slots, full, wide)
              (bind_rule _ _
                (move_all f law t chains (2 * t.size_) e v (omega (arith, v.some_slots))
                  (omega arith))
                λ new p. (
                  record { table_ = some new; size_ = 2 * t.size_; use_ = t.use_ },
                  ap (λ n. ok (record { table_ = some new; size_ = n; use_ = t.use_ })) same_width,
                  record {
                    valid = filled new refl (record {
                      some_slots = omega (arith, v.some_slots);
                      size_fits = omega arith;
                      power = (suc k, omega (arith, pow-suc 2 k));
                      slots = p.slots;
                      placed = p.placed;
                      distinct = λ i x. ground (arith, p.bounded i x);
                      counted =
                          p.counted
                          ∙ (ap (λ n. sum_first length n chains) (sym v.slots)
                              ∙ (sum_first-all length chains ∙ v.counted));
                      use_fits = v.use_fits;
                    });
                    same_map = λ x.
                        let low_slot =
                          lt→ltb _ _ (hash_slot-lt f t.size_ x v.some_slots v.size_fits) in
                        p.looks x ∙ rw low_slot refl;
                    same_use = refl;
                    some_slots = omega (arith, v.some_slots);
                    resized = doubled v.some_slots load refl;
                  },
                ))
      ]

  -- `hash_table_growup` on a well-formed table of fewer than 3 * 2^29 entries, when its memory is
  -- granted, ends without a fault in a well-formed table with chains that stands for the same map
  -- with the same count; it has 32 slots first, twice as many if three quarters full, else as
  -- many as before.
  pub hash_table_growup-IsGrown :
      (t : HashTable K V)
      → IsValid f t
      → t.use_ < 3 * 2 ^ 29
      → Returns (hash_table_growup f true t) (IsGrown t)
  hash_table_growup-IsGrown t (fresh e s u) room = grow_fresh t e s u
  hash_table_growup-IsGrown t (filled chains e v) room = grow_filled t chains e v room

  pub growup_refused : (t : HashTable K V) → hash_table_growup f false t ≡ ok t
  unfolding hash_table_growup grow_to
  growup_refused t = elim (Option-cases (new_capcity t)) [
    | inl n ↦ rw n refl
    | inr (c, s) ↦ rw s refl
  ]
