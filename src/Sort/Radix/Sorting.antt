-- ===== src/Sort/Radix/Sorting.antt =====
-- The radix sorts of arrays with negative entries: the least entry is subtracted and added back.
use my_little_tool.Prelude.{
  ◌>>=◌, ℕ, ◌^◌, ◌<◌, ◌≡◌, inl, inr, refl, ◌∙◌, sym, subst, arith, true, false, Bool-cases, leb,
  ltb_ℤ, lt_or_ge, if◌then◌else◌, ℤ, pos, pos_part, ◌≤ℤ◌, IsInt, Run, ok, Returns, bind_rule,
  weaken, length,
}
use my_little_tool.Sort.Array.{Array, at, AllOn, Sorts}
use my_little_tool.Sort.Counting.{minus_ℤ, plus_ℤ, to_int, extremes, subtract_all, add_all}
use my_little_tool.Sort.Counting.Signed.{
  minus_ℤ-parts, plus_ℤ-minus_ℤ, to_int-ok, Extremes, extremes-Extremes, subtract_all-Mapped,
  add_all-Mapped,
}
use my_little_tool.Sort.Counting.Restore.{shift-Sorts, one-Sorts}
use my_little_tool.Sort.Radix.{lsd_digits, radix_sort_lsd}
use my_little_tool.Sort.Radix.Digits.{IsNonneg, lsd_digits-Sorts}

-- `core` sorts arrays of entries from 0 up to `max`.
abbrev SortsNonneg : (Array → ℤ → Run Array) → ℕ → Type 0
SortsNonneg core n =
    (b : Array) (max : ℤ)
    → length b ≡ n
    → pos_part max < 2 ^ 31
    → AllOn IsNonneg 0 (length b) b
    → AllOn (λ x. x ≤ℤ max) 0 (length b) b
    → Returns (core b max) (Sorts b)

module _ (core : Array → ℤ → Run Array) (a : Array) (works : SortsNonneg core (length a))
    (ints : (i : ℕ) → i < length a → IsInt (at a i))
    (differ : (i j : ℕ) → i < length a → j < length a → IsInt (minus_ℤ (at a i) (at a j))) where
  shifted-Sorts :
      (s : ℤ × ℤ)
      → Extremes a (length a) s
      → Returns
          (do
            max' ← to_int (minus_ℤ s.0 s.1)
            b ← subtract_all s.1 a
            c ← core b max'
            add_all s.1 c)
          (Sorts a)
  shifted-Sorts s x =
      let int : IsInt (minus_ℤ s.0 s.1) =
        rw (x.is_max, x.is_min) (differ x.max_at x.min_at x.max_in x.min_in) in
      rw (to_int-ok (minus_ℤ s.0 s.1) int) (
        bind_rule _ _
          (subtract_all-Mapped s.1 a (λ i l. rw x.is_min (differ i x.min_at l x.min_in)))
          λ b down.
            let at_b : (i : ℕ) → i < length b → at b i ≡ minus_ℤ (at a i) s.1 =
              λ i l. down.changed i (omega (arith, down.as_long)) in
            bind_rule _ _
              (works b (minus_ℤ s.0 s.1) down.as_long (int.0)
                (λ i l m. rw (at_b i m) (
                  ground (
                    arith,
                    minus_ℤ-parts (at a i) s.1,
                    x.above_min i (omega (arith, down.as_long)),
                  )))
                (λ i l m. rw (at_b i m) (
                  ground (
                    arith,
                    minus_ℤ-parts (at a i) s.1,
                    minus_ℤ-parts s.0 s.1,
                    x.below_max i (omega (arith, down.as_long)),
                  ))))
              λ c h.
                weaken _
                  (add_all-Mapped s.1 c (λ i l.
                    let (j, u, v, e) =
                      h.rearranged.source i (omega arith)
                        (omega (arith, h.rearranged.same_length)) in
                    subst (λ y. IsInt (plus_ℤ y s.1)) (sym e)
                      (rw (at_b j v, plus_ℤ-minus_ℤ (at a j) s.1)
                        (ints j (omega (arith, down.as_long))))))
                  λ r up. shift-Sorts s.1 a b r down (c, h, up))

  -- The least entry is subtracted only if it is negative.
  pub radix-Sorts :
      Returns
        (if leb (length a) 1 then ok a else do
          (max, min) ← extremes a
          let shifted : Run Array = do
            max' ← to_int (minus_ℤ max min)
            b ← subtract_all min a
            c ← core b max'
            add_all min c
          if ltb_ℤ min (pos 0) then shifted else core a max)
        (Sorts a)
  radix-Sorts = elim (lt_or_ge (length a) 2) [
    | inl short ↦
        let e : leb (length a) 1 ≡ true = ground arith in rw e (a, refl, one-Sorts a (omega arith))
    | inr two ↦
        let e : leb (length a) 1 ≡ false = ground arith in
        rw e (
          bind_rule _ _ (extremes-Extremes a (omega arith)) λ s x.
            elim (Bool-cases (ltb_ℤ s.1 (pos 0))) [
              | inl negative ↦ rw negative (shifted-Sorts s x)
              | inr plain ↦ rw plain (
                  works a s.0 refl (rw x.is_max ((ints x.max_at x.max_in).0))
                    (λ i l m. ground (arith, x.above_min i m)) (λ i l m. x.below_max i m))
            ])
  ]

module _ (a : Array) (ints : (i : ℕ) → i < length a → IsInt (at a i))
    (differ : (i j : ℕ) → i < length a → j < length a → IsInt (minus_ℤ (at a i) (at a j))) where
  -- On an array of ints of which no two differ by more than an int can hold, `radix_sort_lsd` ends
  -- without a fault, whatever the memory that it allocates holds, and its result ascends and is a
  -- rearrangement of the array.
  pub radix_sort_lsd-Sorts :
      (result : Array) → length result ≡ length a → Returns (radix_sort_lsd result a) (Sorts a)
  unfolding radix_sort_lsd
  radix_sort_lsd-Sorts result len =
      radix-Sorts (lsd_digits result) a
        (λ b max same small plain high.
          lsd_digits-Sorts b plain result max (len ∙ sym same) small high)
        ints differ
