-- ===== src/Sort/Radix/Digits.antt =====
-- The loop of `radix_sort_lsd`: after each round the entries with equal higher digits ascend.
use my_little_tool.Prelude.{
  ℕ, zero, suc, ◌+◌, ◌*◌, ◌/◌, ◌%◌, ◌^◌, ◌≤◌, ◌<◌, ◌≡◌, inl, inr, refl, ap, ◌∙◌, sym, subst, arith,
  Bool, true, false, Bool-cases, ltb, not, lt_or_ge, ℤ, pos, negsuc, pos_part, neg_part, ◌≤ℤ◌, ok,
  Returns, bind_rule, weaken, length,
}
use native.Mathlib.Nat as Nat
use my_little_tool.Sort.Array.{Array, at, AllOn, Rearranges, Sorts}
use my_little_tool.Sort.Array.Rearrange.{Rearranges-refl, Rearranges-trans, Rearranges-AllOn}
use my_little_tool.Sort.Merge.Sorting.{memcpy_whole}
use my_little_tool.Sort.Radix.{radix_size, radix_digit, lsd_loop, lsd_digits}
use my_little_tool.Sort.Counting.{counting_pass}
use my_little_tool.Sort.Counting.Pass.{counting_pass-Passed}
use my_little_tool.Sort.Counting.Moved.{placed-Ordered, pass-Rearranges}
use my_little_tool.Sort.Counting.Tally.{Order, by_digit, by_index}

abbrev pub IsNonneg : ℤ → Type 0
IsNonneg x = neg_part x ≡ 0

pub div_mono : (x y n : ℕ) → 0 < n → x ≤ y → x / n ≤ y / n
div_mono x y n some_n h = (Nat.le-div_iff_mul-le some_n).1 (omega (arith, Nat.div-mul-le_self x n))

-- 10 to the power of `k`
unfoldable pub ten : ℕ → ℕ
ten zero = 1
ten (suc k) = 10 * ten k

pub radix_digit-ok :
    (n : ℕ) (x : ℤ) → IsNonneg x → radix_digit n x ≡ ok ((pos_part x / n) % radix_size)
unfolding radix_digit
radix_digit-ok n (pos x) h = refl
radix_digit-ok n (negsuc x) h = absurd (omega arith)

-- Entries that have the same digits from `n` on ascend.
abbrev Low : ℕ → Array → Type 0
Low n a =
    (i j : ℕ)
    → i ≤ j
    → j < length a
    → pos_part (at a i) / n ≡ pos_part (at a j) / n
    → pos_part (at a i) ≤ pos_part (at a j)

pub bounded : (max x : ℤ) → x ≤ℤ max → pos_part x ≤ pos_part max
bounded max x h = ground arith

pub nonneg_le : (x y : ℤ) → IsNonneg x → IsNonneg y → pos_part x ≤ pos_part y → x ≤ℤ y
nonneg_le x y h k l = omega arith

-- One more digit decides.
pub digit_step :
    (n x y : ℕ) → 0 < n → x / (n * 10) ≡ y / (n * 10) → (x / n) % 10 < (y / n) % 10 → x ≤ y
digit_step n x y some_n h less = elim (lt_or_ge y x) [
  | inr le ↦ le
  | inl over ↦ absurd (
      omega (
        arith,
        div_mono y x n some_n (omega arith),
        Nat.div-div-eq-div-mul x n 10,
        Nat.div-div-eq-div-mul y n 10,
      ))
]

pub same_step :
    (n x y : ℕ) → x / (n * 10) ≡ y / (n * 10) → (x / n) % 10 ≡ (y / n) % 10 → x / n ≡ y / n
same_step n x y h e = omega (arith, Nat.div-div-eq-div-mul x n 10, Nat.div-div-eq-div-mul y n 10)

ordered :
    (n : ℕ) (a : Array)
    → Low n a
    → 0 < n
    → (i j : ℕ) (u v : ℤ) → j < length a
    → u ≡ at a i
    → v ≡ at a j
    → Order (λ i. (pos_part (at a i) / n) % radix_size) (length a) i j
    → pos_part u / (n * 10) ≡ pos_part v / (n * 10)
    → pos_part u ≤ pos_part v
ordered n a low some_n i j u v l e f (by_digit h) same =
    digit_step n (pos_part u) (pos_part v) some_n same (rw (e, f) h)
ordered n a low some_n i j u v l e f (by_index d h) same =
    let same' : pos_part (at a i) / n ≡ pos_part (at a j) / n =
      same_step n (pos_part (at a i)) (pos_part (at a j)) (rw⁻¹ (e, f) same) d in
    rw (e, f) (low i j (omega arith) l same')

module _ (b : Array) (nonneg : AllOn IsNonneg 0 (length b) b) where
  record Rounds (n : ℕ) (s : Array × Array × Bool) : Type 0 where
    moved : Rearranges 0 (length b) b s.0
    low : Low n s.0
    memory : length s.1 ≡ length b

  round-Low :
      (n : ℕ) (a r : Array)
      → 0 < n
      → Rearranges 0 (length b) b a
      → Low n a
      → length r ≡ length b
      → Returns
          (counting_pass (radix_digit n) radix_size 0 (length a) a r)
          (λ s. Rearranges 0 (length b) b s.1 × Low (n * 10) s.1)
  round-Low n a r some_n moved low memory =
      let dg : ℕ → ℕ = λ i. (pos_part (at a i) / n) % radix_size in
      let small : (i : ℕ) → i < length a → dg i < radix_size = λ i l. omega arith in
      let zero_plus : (i : ℕ) → at a (0 + i) ≡ at a i =
        λ i. let e : 0 + i ≡ i = omega arith in ap (at a) e in
      let len = moved.same_length in
      let plain : AllOn IsNonneg 0 (length b) a = Rearranges-AllOn IsNonneg moved nonneg in
      weaken _
        (counting_pass-Passed (radix_digit n) dg radix_size 0 (length a) a (omega arith)
          (λ i l.
            ap (radix_digit n) (zero_plus i)
            ∙ radix_digit-ok n (at a i) (plain i (omega arith) (omega arith)))
          small r (omega arith) (omega arith))
        λ s h.
          let moved' =
            pass-Rearranges dg radix_size a s.1 small h.placed (h.as_long ∙ (memory ∙ sym len)) in
          (
            Rearranges-trans moved (subst (λ k. Rearranges 0 k a s.1) len moved'),
            λ p q x y e. elim (lt_or_ge p q) [
              | inr same ↦
                  let eq : p ≡ q = omega arith in
                  subst (λ k. pos_part (at s.1 p) ≤ pos_part (at s.1 k)) eq (omega arith)
              | inl less ↦
                  let o =
                    placed-Ordered dg radix_size 0 (length a) a s.1 small h.placed p q less
                      (omega (arith, moved'.same_length)) in
                  let from_i = o.from_i ∙ zero_plus o.i in
                  let from_j = o.from_j ∙ zero_plus o.j in
                  ordered n a low some_n o.i o.j (at s.1 p) (at s.1 q) o.j_in from_i from_j o.order
                    e
            ],
          )

  lsd_loop-Rounds :
      (fuel n : ℕ) (max : ℤ) (a r : Array) (away : Bool)
      → 0 < n
      → Rounds n (a, r, away)
      → pos_part max / n < ten fuel
      → Returns
          (lsd_loop (suc fuel) max n (a, r, away))
          (λ s. (m : ℕ) × (0 < m) × Rounds m s × (pos_part max / m ≡ 0))
  unfolding lsd_loop ten
  lsd_loop-Rounds zero n max a r away some_n h few =
      let stop : ltb 0 (pos_part max / n) ≡ false = ground arith in
      rw stop ((a, r, away), refl, (n, some_n, h, omega arith))
  lsd_loop-Rounds (suc fuel) n max a r away some_n h few = elim (lt_or_ge 0 (pos_part max / n)) [
    | inr done ↦
        let stop : ltb 0 (pos_part max / n) ≡ false = ground arith in
        rw stop ((a, r, away), refl, (n, some_n, h, omega arith))
    | inl more ↦
        let go : ltb 0 (pos_part max / n) ≡ true = ground arith in
        rw go (
          bind_rule _ _ (round-Low n a r some_n h.moved h.low h.memory) λ s (moved, low).
            lsd_loop-Rounds fuel (n * radix_size) max s.1 a (not away) (omega arith)
              (record { moved = moved; low = low; memory = h.moved.same_length })
              (omega (arith, Nat.div-div-eq-div-mul (pos_part max) n 10)))
  ]

  -- Sorting the digits of an array without negative entries sorts the array.
  pub lsd_digits-Sorts :
      (result : Array) (max : ℤ)
      → length result ≡ length b
      → pos_part max < 2 ^ 31
      → AllOn (λ x. x ≤ℤ max) 0 (length b) b
      → Returns (lsd_digits result b max) (Sorts b)
  unfolding lsd_digits
  lsd_digits-Sorts result max len fits below =
      let start : Rounds 1 (b, result, false) = record {
        moved = Rearranges-refl 0 (length b) b;
        low = λ i j x y e.
            omega (arith, Nat.div-one (pos_part (at b i)), Nat.div-one (pos_part (at b j)), e);
        memory = len;
      } in
      let few : pos_part max / 1 < ten 10 =
        unfold ten in omega (arith, Nat.div-one (pos_part max)) in
      bind_rule _ _ (lsd_loop-Rounds 10 1 max b result false (omega arith) start few)
        λ (a, r, away) (m, some_m, h, done).
          let high : AllOn (λ x. x ≤ℤ max) 0 (length b) a =
            Rearranges-AllOn (λ x. x ≤ℤ max) h.moved below in
          let plain : AllOn IsNonneg 0 (length b) a = Rearranges-AllOn IsNonneg h.moved nonneg in
          let none : (i : ℕ) → i < length b → pos_part (at a i) / m ≡ 0 = λ i l. omega (
            arith,
            div_mono (pos_part (at a i)) (pos_part max) m some_m
                (bounded max (at a i) (high i (omega arith) l)),
            done,
          ) in
          let sorted : Sorts b a = record {
            ascending = λ i j x y z.
                nonneg_le (at a i) (at a j)
                  (plain i (omega arith) (omega (arith, h.moved.same_length)))
                  (plain j (omega arith) (omega (arith, h.moved.same_length)))
                  (h.low i j y z (
                    none i (omega (arith, h.moved.same_length))
                    ∙ sym (none j (omega (arith, h.moved.same_length)))));
            rearranged = h.moved;
          } in
          elim (Bool-cases away) [
            | inr here ↦ rw here (a, refl, sorted)
            | inl other ↦ rw other (
                weaken _ (memcpy_whole (length b) a r h.moved.same_length h.memory)
                  λ c e. subst (Sorts b) (sym e) sorted)
          ]
