-- ===== src/Sort/Counting/Sorting.antt =====
-- `count_sort` sorts an array whose values lie close together, and leaves others unsorted.
use my_little_tool.Prelude.{
  ◌>>=◌, ℕ, ◌≤◌, ◌<◌, ◌≡◌, ◌≢◌, inl, inr, refl, ap, ◌∙◌, sym, subst, arith, true, false, Bool-cases,
  leb, ltb_ℤ, lt_or_ge, if◌then◌else◌, ℤ, pos, ◌≤ℤ◌, ◌<ℤ◌, IsInt, Run, Returns, bind_rule, weaken,
  length,
}
use my_little_tool.Prelude.Int.{eq_of_parts}
use my_little_tool.Sort.Array.{Array, at, Sorts}
use my_little_tool.Sort.Counting.{minus_ℤ, to_int, subtract_all, count_values, count_sort}
use my_little_tool.Sort.Counting.Signed.{
  minus_ℤ-parts, plus_ℤ-minus_ℤ, to_int-ok, Mapped, Extremes, extremes-Extremes,
  subtract_all-Mapped,
}
use my_little_tool.Sort.Counting.Restore.{
  count_values-Restored, count_values-far, shift-Sorts, zero-Sorts, plus_ℤ-zero, one-Sorts,
}

module _ (result a : Array) (len : length result ≡ length a)
    (ints : (i : ℕ) → i < length a → IsInt (at a i)) where
  -- What `count_sort` does with the extremes of the array.
  after_extremes : ℤ × ℤ → Run Array
  after_extremes s =
      if ltb_ℤ s.1 (pos 0)
      then (do
        max' ← to_int (minus_ℤ s.0 s.1)
        b ← subtract_all s.1 a
        count_values result b max' (pos 0) s.1)
      else count_values result a s.0 s.1 (pos 0)

  count_sort-extremes :
      (Post : Array → Type 0)
      → 2 ≤ length a
      → ((s : ℤ × ℤ) → Extremes a (length a) s → Returns (after_extremes s) Post)
      → Returns (count_sort result a) Post
  unfolding count_sort after_extremes
  count_sort-extremes Post two next =
      let long : leb (length a) 1 ≡ false = ground arith in
      rw long (bind_rule _ _ (extremes-Extremes a (omega arith)) λ s e. next s e)

  module _ (s : ℤ × ℤ) (x : Extremes a (length a) s) (int : IsInt (minus_ℤ s.0 s.1)) where
    difference :
        (i : ℕ)
        → i < length a
        → (pos 0 ≤ℤ minus_ℤ (at a i) s.1)
          × (minus_ℤ (at a i) s.1 ≤ℤ minus_ℤ s.0 s.1)
          × IsInt (minus_ℤ (at a i) s.1)
    difference i l = (
      ground (arith, minus_ℤ-parts (at a i) s.1, x.above_min i l),
      ground (arith, minus_ℤ-parts (at a i) s.1, minus_ℤ-parts s.0 s.1, x.below_max i l),
      ground (
        arith,
        minus_ℤ-parts (at a i) s.1,
        minus_ℤ-parts s.0 s.1,
        x.above_min i l,
        x.below_max i l,
      ),
    )

    same_spread : minus_ℤ (minus_ℤ s.0 s.1) (pos 0) ≡ minus_ℤ s.0 s.1
    same_spread =
        eq_of_parts (minus_ℤ (minus_ℤ s.0 s.1) (pos 0)) (minus_ℤ s.0 s.1)
          (omega (arith, minus_ℤ-parts (minus_ℤ s.0 s.1) (pos 0)))

    after_extremes-Sorts : minus_ℤ s.0 s.1 ≤ℤ pos 10000 → Returns (after_extremes s) (Sorts a)
    unfolding after_extremes
    after_extremes-Sorts close = elim (Bool-cases (ltb_ℤ s.1 (pos 0))) [
      | inr plain ↦ rw plain (
          weaken _
            (count_values-Restored result a s.0 s.1 (pos 0) len x.above_min x.below_max int close
              (λ i l. rw (plus_ℤ-zero (at a i)) (ints i l)))
            λ r h. zero-Sorts a r h)
      | inl negative ↦
          rw (negative, to_int-ok (minus_ℤ s.0 s.1) int)
            (bind_rule _ _ (subtract_all-Mapped s.1 a (λ i l. (difference i l).2)) λ b down.
              weaken _
                (count_values-Restored result b (minus_ℤ s.0 s.1) (pos 0) s.1
                  (len ∙ sym down.as_long)
                  (λ i l.
                    rw (down.changed i (omega (arith, down.as_long)))
                      ((difference i (omega (arith, down.as_long))).0))
                  (λ i l.
                    rw (down.changed i (omega (arith, down.as_long)))
                      ((difference i (omega (arith, down.as_long))).1))
                  (rw same_spread int) (rw same_spread close)
                  (λ i l.
                    rw (down.changed i (omega (arith, down.as_long)), plus_ℤ-minus_ℤ (at a i) s.1)
                      (ints i (omega (arith, down.as_long)))))
                λ r h. shift-Sorts s.1 a b r down h)
    ]

    -- What is left where the values lie too far apart.
    Shifted : Array → Type 0
    Shifted b = Mapped (λ y. minus_ℤ y (if ltb_ℤ s.1 (pos 0) then s.1 else pos 0)) a b

    after_extremes-Shifted : pos 10000 <ℤ minus_ℤ s.0 s.1 → Returns (after_extremes s) Shifted
    unfolding after_extremes Shifted
    after_extremes-Shifted far = elim (Bool-cases (ltb_ℤ s.1 (pos 0))) [
      | inr plain ↦ rw plain (
        a,
        count_values-far result a s.0 s.1 (pos 0) len x.above_min x.below_max int far,
        record {
          as_long = refl;
          changed = λ i l. sym (
              eq_of_parts (minus_ℤ (at a i) (pos 0)) (at a i)
                (omega (arith, minus_ℤ-parts (at a i) (pos 0))));
        },
      )
      | inl negative ↦
          rw (negative, to_int-ok (minus_ℤ s.0 s.1) int)
            (bind_rule _ _ (subtract_all-Mapped s.1 a (λ i l. (difference i l).2)) λ b down. (
              b,
              count_values-far result b (minus_ℤ s.0 s.1) (pos 0) s.1 (len ∙ sym down.as_long)
                  (λ i l.
                    rw (down.changed i (omega (arith, down.as_long)))
                      ((difference i (omega (arith, down.as_long))).0))
                  (λ i l.
                    rw (down.changed i (omega (arith, down.as_long)))
                      ((difference i (omega (arith, down.as_long))).1))
                  (rw same_spread int) (rw same_spread far),
              down,
            ))
    ]

  -- On an array of ints of which no two are more than 10000 apart, `count_sort` ends without a
  -- fault, whatever the memory that it allocates holds, and its result ascends and is a
  -- rearrangement of the array.
  pub count_sort-Sorts :
      ((i j : ℕ) → i < length a → j < length a → minus_ℤ (at a i) (at a j) ≤ℤ pos 10000)
      → Returns (count_sort result a) (Sorts a)
  unfolding count_sort
  count_sort-Sorts close = elim (lt_or_ge (length a) 2) [
    | inl short ↦
        let e : leb (length a) 1 ≡ true = ground arith in rw e (a, refl, one-Sorts a (omega arith))
    | inr two ↦ count_sort-extremes (Sorts a) two λ s x.
        let c : minus_ℤ s.0 s.1 ≤ℤ pos 10000 =
          rw (x.is_max, x.is_min) (close x.max_at x.min_at x.max_in x.min_in) in
        let le : s.1 ≤ℤ s.0 = rw x.is_max (x.above_min x.max_at x.max_in) in
        after_extremes-Sorts s x (ground (arith, minus_ℤ-parts s.0 s.1)) c
  ]

  -- On an array of ints of which some two are more than 10000 apart, and no two as far as an
  -- int can hold, `count_sort` ends without sorting: if an entry is negative, the array is left
  -- with its least entry subtracted from every entry, and else as it was.
  pub count_sort_far :
      (i j : ℕ)
      → i < length a
      → j < length a
      → pos 10000 <ℤ minus_ℤ (at a i) (at a j)
      → ((i j : ℕ) → i < length a → j < length a → IsInt (minus_ℤ (at a i) (at a j)))
      → Returns (count_sort result a) (λ b.
        (k : ℕ) × (k < length a)
        × Mapped (λ y. minus_ℤ y (if ltb_ℤ (at a k) (pos 0) then at a k else pos 0)) a b
        × ((i : ℕ) → i < length a → at a k ≤ℤ at a i))
  unfolding Shifted
  count_sort_far i j l m far int =
      let apart : i ≢ j =
        λ e. absurd (ground (arith, far, minus_ℤ-parts (at a i) (at a j), ap (at a) e)) in
      count_sort-extremes _ (omega arith) λ s x.
        let wide : pos 10000 <ℤ minus_ℤ s.0 s.1 = ground (
          arith,
          far,
          minus_ℤ-parts (at a i) (at a j),
          minus_ℤ-parts s.0 s.1,
          x.below_max i l,
          x.above_min j m,
        ) in
        weaken _
          (after_extremes-Shifted s x
            (rw (x.is_max, x.is_min) (int x.max_at x.min_at x.max_in x.min_in)) wide)
          λ b h. (
            x.min_at,
            x.min_in,
            subst (λ y. Mapped (λ z. minus_ℤ z (if ltb_ℤ y (pos 0) then y else pos 0)) a b) x.is_min
                h,
            λ i l. rw⁻¹ x.is_min (x.above_min i l),
          )
