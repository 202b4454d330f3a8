-- ===== src/Sort/Radix/First.antt =====
-- `radix_sort_msd` sorts: the ranges of the digits stand in order, and each is sorted in turn.
use my_little_tool.Prelude.{
  ◌>>=◌, ℕ, zero, suc, ◌+◌, ◌-◌, ◌*◌, ◌/◌, ◌%◌, ◌^◌, ◌≤◌, ◌<◌, ◌≡◌, inl, inr, refl, ap, ◌∙◌, sym,
  subst, arith, true, false, Bool-cases, leb, ltb, ◌==◌, lt_or_ge, List, ℤ, pos_part, ◌≤ℤ◌, IsInt,
  ok, Returns, bind_rule, weaken, length, cell, fetch-ok, for_up, for_up_rule,
}
use native.Mathlib.Nat as Nat
use my_little_tool.Sort.Array.{Array, at, AllOn, Rearranges, Sorts}
use my_little_tool.Sort.Array.Rearrange.{Rearranges-refl, Rearranges-trans, Rearranges-AllOn}
use my_little_tool.Sort.Radix.{
  radix_size, radix_digit, copy_back, digit_end, msd_digit, msd_range, top_digit, msd_digits,
  radix_sort_msd,
}
use my_little_tool.Sort.Radix.Digits.{IsNonneg, radix_digit-ok, bounded, div_mono, ten}
use my_little_tool.Sort.Radix.Ranges.{copy_back-Copied, pass-Rearranges_range}
use my_little_tool.Sort.Radix.Sorting.{radix-Sorts}
use my_little_tool.Sort.Counting.{minus_ℤ, counting_pass}
use my_little_tool.Sort.Counting.Pass.{counting_pass-Passed}
use my_little_tool.Sort.Counting.Tally.{less}
use my_little_tool.Sort.Radix.Buckets.{
  SortedRange, SameHigh, same_digits, begin_of, Digits, begin_mono, begin_last, Digits-next,
  Digits-ascending, pass-Digits, power, exp_of, power-pos, all_same-ascending, short-SortedRange,
  two-SortedRange,
}

module _ (malloc : ℕ → ℕ → ℕ → Array)
    (gives : (exp start n : ℕ) → length (malloc exp start n) ≡ n) where
  -- The call for one digit of a pass.
  msd_digit-Digits :
      (k fuel : ℕ)
      → ((h lo hi : ℕ) (a : Array)
          → lo ≤ hi
          → hi ≤ length a
          → AllOn IsNonneg lo hi a
          → AllOn (SameHigh (power k) h) lo hi a
          → Returns (msd_range malloc fuel (exp_of k) lo hi a) (SortedRange lo hi a))
      → (dg : ℕ → ℕ) (lo n h : ℕ) (c : Array) (small : (i : ℕ) → i < n → dg i < radix_size)
      → lo + n ≤ length c
      → AllOn IsNonneg lo (lo + n) c
      → AllOn (SameHigh (power k * 10) h) lo (lo + n) c
      → (counts : List ℕ) → length counts ≡ radix_size
      → ((d : ℕ) → d < radix_size → cell 0 counts d ≡ less dg n d)
      → (i : ℕ) (p : Array) → i < radix_size
      → Digits dg lo n (power k) h c small i p
      → Returns
          (msd_digit (msd_range malloc fuel (exp_of k)) lo (lo + n) counts i p)
          (Digits dg lo n (power k) h c small (i + 1))
  unfolding msd_digit digit_end
  msd_digit-Digits k fuel recursive dg lo n h c small fits plain high counts ten_counts is_start i p
        l s =
      let there : i < length counts = omega arith in
      let first : cell 0 counts i ≡ less dg n i = is_start i l in
      let last : digit_end lo (lo + n) counts i ≡ ok (begin_of dg lo n (i + 1)) =
        elim (lt_or_ge (i + 1) radix_size) [
          | inl more ↦
              let go : ltb (i + 1) radix_size ≡ true = ground arith in
              rw (go, fetch-ok 0 counts (i + 1) (omega arith), is_start (i + 1) more) refl
          | inr rest ↦
              let stop : ltb (i + 1) radix_size ≡ false = ground arith in
              let e : i + 1 ≡ radix_size = omega arith in
              rw stop (
                ap ok
                  (sym (begin_last dg lo n (power k) h c small) ∙ ap (begin_of dg lo n) (sym e)))
        ] in
      let to = begin_of dg lo n (i + 1) in
      let from = begin_of dg lo n i in
      let le : from ≤ to = begin_mono dg lo n (power k) h c small i (i + 1) (omega arith) in
      let top : to ≤ lo + n = omega (
        arith,
        begin_mono dg lo n (power k) h c small (i + 1) radix_size (omega arith),
        begin_last dg lo n (power k) h c small,
      ) in
      let next : (q : Array)
          → SortedRange from to p q
          → Digits dg lo n (power k) h c small (i + 1) q =
        λ q r. Digits-next dg lo n (power k) h c small i p q l s r in
      rw (fetch-ok 0 counts i there, last, first)
        (elim (lt_or_ge (from + 1) to) [
          | inl long ↦
              let go : ltb (from + 1) to ≡ true = ground arith in
              rw go (
                weaken _
                  (recursive (h * 10 + i) from to p le (omega (arith, s.moved.same_length))
                    (λ j x y. Rearranges-AllOn IsNonneg s.moved plain j (omega arith) (omega arith))
                    (λ j x y.
                      same_digits (power k) h i (pos_part (at p j))
                        (Rearranges-AllOn (SameHigh (power k * 10) h) s.moved high j (omega arith)
                          (omega arith))
                        (s.digits i l j x y)))
                  next)
          | inr short ↦
              let stop : ltb (from + 1) to ≡ false = ground arith in
              rw stop (p, refl, next p (short-SortedRange from to p short))
        ])

  next_exp : (j : ℕ) → power j / radix_size ≡ exp_of j
  unfolding power exp_of
  next_exp zero = refl
  next_exp (suc i) = omega arith

  abbrev SortsRanges : ℕ → ℕ → Type 0
  SortsRanges k fuel =
      (h lo hi : ℕ) (a : Array)
      → lo ≤ hi
      → hi ≤ length a
      → AllOn IsNonneg lo hi a
      → AllOn (SameHigh (power k) h) lo hi a
      → Returns (msd_range malloc fuel (exp_of k) lo hi a) (SortedRange lo hi a)

  -- A range of three entries or more: one pass, and a call for every digit.
  many-SortedRange :
      (j fuel : ℕ)
      → SortsRanges j fuel
      → (h lo n : ℕ) (a : Array) → lo + n ≤ length a
      → AllOn IsNonneg lo (lo + n) a
      → AllOn (SameHigh (power j * 10) h) lo (lo + n) a
      → Returns
          (do
            (counts, bucket) ←
                counting_pass (radix_digit (power j)) radix_size lo n a (malloc (power j) lo n)
            p ← copy_back lo n bucket a
            for_up radix_size 0 (msd_digit (msd_range malloc fuel (exp_of j)) lo (lo + n) counts) p)
          (SortedRange lo (lo + n) a)
  many-SortedRange j fuel recursive h lo n a fits plain high =
      let dg : ℕ → ℕ = λ i. (pos_part (at a (lo + i)) / power j) % radix_size in
      let small : (i : ℕ) → i < n → dg i < radix_size = λ i l. omega arith in
      bind_rule _ _
        (counting_pass-Passed (radix_digit (power j)) dg radix_size lo n a fits
          (λ i l.
            radix_digit-ok (power j) (at a (lo + i)) (plain (lo + i) (omega arith) (omega arith)))
          small (malloc (power j) lo n) (omega (arith, gives (power j) lo n)) (omega arith))
        λ s passed.
          bind_rule _ _ (copy_back-Copied lo n s.1 a (omega (arith, gives n, passed.as_long)) fits)
            λ c copied.
              let moved : Rearranges lo (lo + n) a c =
                pass-Rearranges_range dg radix_size lo n a s.1 c fits small passed.placed copied in
              let plain' : AllOn IsNonneg lo (lo + n) c = Rearranges-AllOn IsNonneg moved plain in
              let high' : AllOn (SameHigh (power j * 10) h) lo (lo + n) c =
                Rearranges-AllOn (SameHigh (power j * 10) h) moved high in
              weaken _
                (for_up_rule (Digits dg lo n (power j) h c small) _ radix_size 0 radix_size c
                  (omega arith)
                  (λ i p low l d.
                    msd_digit-Digits j fuel recursive dg lo n h c small
                      (omega (arith, moved.same_length)) plain' high' s.0 passed.counts_long
                      passed.starts i p l d)
                  (pass-Digits dg lo n (power j) h c small a s.1 copied passed.placed
                    (λ i l. refl)))
                λ p d. record {
                  ascending =
                      Digits-ascending dg lo n (power j) h c small p (power-pos j)
                        (Rearranges-AllOn IsNonneg d.moved plain')
                        (Rearranges-AllOn (SameHigh (power j * 10) h) d.moved high') d;
                  moved = Rearranges-trans moved d.moved;
                }

  range_step :
      (j fuel : ℕ)
      → SortsRanges j fuel
      → (h lo n : ℕ) (a : Array) → lo + n ≤ length a
      → AllOn IsNonneg lo (lo + n) a
      → AllOn (SameHigh (power (suc j)) h) lo (lo + n) a
      → Returns
          (msd_range malloc (suc fuel) (exp_of (suc j)) lo (lo + n) a)
          (SortedRange lo (lo + n) a)
  unfolding msd_range exp_of power
  range_step j fuel recursive h lo n a fits plain high =
      let some_exp : (power j == 0) ≡ false = ground (arith, power-pos j) in
      let width : lo + n - lo ≡ n = omega arith in
      rw (some_exp, width, next_exp j)
        (elim (lt_or_ge n 2) [
          | inl short ↦
              let e : leb n 1 ≡ true = ground arith in
              rw e (a, refl, short-SortedRange lo (lo + n) a (omega arith))
          | inr long ↦
              let e : leb n 1 ≡ false = ground arith in
              rw e (elim (Bool-cases (n == 2)) [
                | inl two ↦
                    let n_is : 2 ≡ n = ground arith in
                    rw two (
                      weaken _ (two-SortedRange lo a (omega arith))
                        (λ p. subst (λ n. SortedRange lo (lo + n) a p) n_is))
                | inr more ↦ rw more (many-SortedRange j fuel recursive h lo n a fits plain high)
              ])
        ])

  msd_range-SortedRange : (k fuel : ℕ) → k < fuel → SortsRanges k fuel
  msd_range-SortedRange k zero l h lo hi a le fits plain high = absurd (omega arith)
  msd_range-SortedRange zero (suc fuel) l h lo hi a le fits plain high =
      unfold msd_range exp_of power in
      (
        a,
        refl,
        record {
          ascending = all_same-ascending lo hi h a plain high;
          moved = Rearranges-refl lo hi a;
        },
      )
  msd_range-SortedRange (suc j) (suc fuel) l h lo hi a le fits plain high =
      let e : lo + (hi - lo) ≡ hi = omega arith in
      let fits' : lo + (hi - lo) ≤ length a = omega arith in
      subst
        (λ hi. Returns (msd_range malloc (suc fuel) (exp_of (suc j)) lo hi a) (SortedRange lo hi a))
        e
        (range_step j fuel (msd_range-SortedRange j fuel (omega arith)) h lo (hi - lo) a fits'
          (λ i x y. plain i x (omega arith)) (λ i x y. high i x (omega arith)))

  -- `n` is the power of ten of the first digit of `max`.
  abbrev TopDigit : ℕ → ℕ → ℕ → Type 0
  TopDigit max most n = (i : ℕ) × (n ≡ power i) × (i ≤ most) × (max / power (suc i) ≡ 0)

  top_digit-power :
      (fuel j : ℕ) (max m : ℕ)
      → m ≡ max / power j
      → m < ten fuel
      → Returns (top_digit (suc fuel) m (power j)) (TopDigit max (j + fuel))
  unfolding top_digit power ten
  top_digit-power zero j max m e few =
      let stop : (m / 10 == 0) ≡ true = ground arith in
      rw stop (
        power j,
        refl,
        (j, refl, omega arith, omega (arith, Nat.div-div-eq-div-mul max (power j) 10)),
      )
  top_digit-power (suc fuel) j max m e few = elim (lt_or_ge (m / 10) 1) [
    | inl last ↦
        let stop : (m / 10 == 0) ≡ true = ground arith in
        rw stop (
          power j,
          refl,
          (j, refl, omega arith, omega (arith, Nat.div-div-eq-div-mul max (power j) 10)),
        )
    | inr more ↦
        let go : (m / 10 == 0) ≡ false = ground arith in
        rw go (
          weaken _
            (top_digit-power fuel (suc j) max (m / 10)
              (ap (λ x. x / 10) e ∙ Nat.div-div-eq-div-mul max (power j) 10) (omega arith))
            λ n (i, f, l, d). (i, f, omega arith, d))
  ]

  msd_digits-Sorts :
      (b : Array) (max : ℤ)
      → pos_part max < 2 ^ 31
      → AllOn IsNonneg 0 (length b) b
      → AllOn (λ x. x ≤ℤ max) 0 (length b) b
      → Returns (msd_digits malloc b max) (Sorts b)
  unfolding msd_digits power exp_of
  msd_digits-Sorts b max fits plain below =
      let few : pos_part max < ten 10 = unfold ten in omega arith in
      let one : pos_part max ≡ pos_part max / power 0 =
        unfold power in sym (Nat.div-one (pos_part max)) in
      let start : power 0 ≡ 1 = unfold power in refl in
      bind_rule _ _
        (subst (λ n. Returns (top_digit 11 (pos_part max) n) (TopDigit (pos_part max) (0 + 10)))
          start (top_digit-power 10 0 (pos_part max) (pos_part max) one few))
        λ n (i, e, l, d).
          subst (λ n. Returns (msd_range malloc 12 n 0 (length b) b) (Sorts b)) (sym e)
            (weaken _
              (msd_range-SortedRange (suc i) 12 (omega arith) 0 0 (length b) b (omega arith)
                (omega arith) plain
                (λ j x y. omega (
                  arith,
                  div_mono (pos_part (at b j)) (pos_part max) (power (suc i)) (power-pos (suc i))
                      (bounded max (at b j) (below j x y)),
                  d,
                )))
              λ p s. record {
                ascending = λ i j x y z. s.ascending i j x y (omega (arith, s.moved.same_length));
                rearranged = s.moved;
              })

  -- On an array of ints of which no two differ by more than an int can hold, `radix_sort_msd` ends
  -- without a fault, whatever the memory that it allocates holds, and its result ascends and is a
  -- rearrangement of the array.
  pub radix_sort_msd-Sorts :
      (a : Array)
      → ((i : ℕ) → i < length a → IsInt (at a i))
      → ((i j : ℕ) → i < length a → j < length a → IsInt (minus_ℤ (at a i) (at a j)))
      → Returns (radix_sort_msd malloc a) (Sorts a)
  unfolding radix_sort_msd
  radix_sort_msd-Sorts a ints differ =
      radix-Sorts (msd_digits malloc) a
        (λ b max same small plain high. msd_digits-Sorts b max small plain high) ints differ
