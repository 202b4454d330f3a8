-- ===== src/Sort/Insertion/Shell.antt =====
-- The three functions of Sort/insert_sort.c sort: no access outside the array, loops that end,
-- and the result ascends and has the same entries.
use my_little_tool.Prelude.{
  ℕ, zero, suc, ◌+◌, ◌-◌, ◌*◌, ◌/◌, ◌^◌, ◌≤◌, ◌<◌, ◌≡◌, sym, subst, arith, ltb, ltb→lt, ltb→ge,
  ◌==◌, Bool-cases, inl, inr, false, length, Returns, bind_rule, weaken, for_up_rule,
}
use native.Mathlib.Nat.{pow-suc}
use my_little_tool.Sort.Array.{Array, Rearranges, Sorts}
use my_little_tool.Sort.Array.Rearrange.{Rearranges-refl}
use my_little_tool.Sort.Insertion.{
  insert_sort, insert_step, gap_pass, gap_loop, prime_index, shell_insert_sort,
  shell_insert_sort_partitionbyprime,
}
use my_little_tool.Sort.Insertion.Slot.{Prefix, insert_step_lem}
use my_little_tool.Sort.Insertion.Gap.{gap_pass_lem, gap_pass_one_lem}

Prefix-Sorts : (a b : Array) → Prefix a (length a) b → Sorts a b
Prefix-Sorts a b p = record {
  ascending = λ i j l m n. p.ascends i j l m (omega (arith, p.moved.same_length));
  rearranged = p.moved;
}

not_empty : (a : Array) → 0 < length a → (length a == 0) ≡ false
not_empty a h = ground arith

-- On an array that is not empty, `insert_sort` ends without a fault (no access outside the
-- array, no failed `assert`, no loop out of fuel), and its result ascends and is a rearrangement
-- of the array.
pub insert_sort-Sorts : (a : Array) → 0 < length a → Returns (insert_sort a) (Sorts a)
unfolding insert_sort
insert_sort-Sorts a h = rw (not_empty a h) (
    weaken _
      (for_up_rule (Prefix a) insert_step (length a - 1) 1 (length a) a (omega arith)
        (λ i b l u p. insert_step_lem a i b l u p)
        (record { ascends = λ i j l m n. ground arith; moved = Rearranges-refl _ _ a }))
      (Prefix-Sorts a))

-- A gap sequence that reaches 0 only from 1, on the gaps that satisfy `Valid`.
record IsGapSequence (Valid : ℕ → Type 0) (next : ℕ → ℕ) : Type 0 where
  stays : (g : ℕ) → Valid g → 0 < g → Valid (next g)
  falls : (g : ℕ) → Valid g → 0 < g → next g < g
  last : (g : ℕ) → Valid g → 0 < g → next g ≡ 0 → g ≡ 1

gap_loop_lem :
    (Valid : ℕ → Type 0) (next : ℕ → ℕ)
    → IsGapSequence Valid next
    → (fuel gap : ℕ) (a b : Array) → Valid gap
    → gap < fuel
    → gap ≤ length a
    → Rearranges 0 (length a) a b
    → (gap ≡ 0 → Prefix a (length a) b)
    → Returns (gap_loop fuel next gap b) (Prefix a (length a))
unfolding gap_loop
gap_loop_lem Valid next seq zero gap a b v f l r done = elim f [ ]
gap_loop_lem Valid next seq (suc fuel) gap a b v f l r done = elim (Bool-cases (gap == 0)) [
  | inl e ↦ (b, rw e, done (ground arith))
  | inr e ↦
      let g : 0 < gap = ground arith in
      let fall = seq.falls gap v g in
      rw e (elim (Bool-cases (gap == 1)) [
        | inl one ↦
            let one' : gap ≡ 1 = ground arith in
            bind_rule (gap_pass gap b) _
              (subst (λ g. Returns (gap_pass g b) (Prefix a (length a))) (sym one')
                (gap_pass_one_lem a b (omega arith) r))
              λ c p.
                gap_loop_lem Valid next seq fuel (next gap) a c (seq.stays gap v g) (omega arith)
                  (omega arith) p.moved (λ _. p)
        | inr more ↦ bind_rule (gap_pass gap b) _ (gap_pass_lem gap a b g l r) λ c p.
            gap_loop_lem Valid next seq fuel (next gap) a c (seq.stays gap v g) (omega arith)
              (omega arith) p (λ z. absurd (ground (arith, seq.last gap v g z)))
      ])
]

halving : IsGapSequence (λ g. Unit {0}) (λ g. g / 2)
halving = record {
  stays = λ g v h. tt;
  falls = λ g v h. omega arith;
  last = λ g v h e. omega arith;
}

short_Prefix : (a : Array) → length a ≤ 1 → Prefix a (length a) a
short_Prefix a h = record { ascends = λ i j l m n. ground arith; moved = Rearranges-refl _ _ a }

-- On an array that is not empty, `shell_insert_sort` ends without a fault (no access outside the
-- array, no failed `assert`, no loop out of fuel), and its result ascends and is a rearrangement
-- of the array.
pub shell_insert_sort-Sorts : (a : Array) → 0 < length a → Returns (shell_insert_sort a) (Sorts a)
unfolding shell_insert_sort
shell_insert_sort-Sorts a h = rw (not_empty a h) (
    weaken _
      (gap_loop_lem (λ g. Unit {0}) (λ g. g / 2) halving (length a) (length a / 2) a a tt
        (omega arith) (omega arith) (Rearranges-refl _ _ a) (λ e. short_Prefix a (omega arith)))
      (Prefix-Sorts a))

lt-pow : (k : ℕ) → k < 2 ^ k
lt-pow zero = omega arith
lt-pow (suc k) = omega (arith, lt-pow k, pow-suc 2 k)

pow_pred : (k : ℕ) → 1 ≤ k → 2 ^ k ≡ 2 * 2 ^ (k - 1)
pow_pred zero h = absurd (omega arith)
pow_pred (suc k) h = let e : suc k - 1 ≡ k = omega arith in rw e (omega (arith, pow-suc 2 k))

-- The gaps 2^k - 1.
abbrev IsPrimeGap : ℕ → Type 0
IsPrimeGap g = (k : ℕ) × (g + 1 ≡ 2 ^ k)

prime_stays : (g : ℕ) → IsPrimeGap g → 0 < g → IsPrimeGap ((g - 1) / 2)
prime_stays g (zero, e) h = absurd (omega arith)
prime_stays g (suc k, e) h = (k, omega (arith, pow-suc 2 k, lt-pow k))

prime_last : (g : ℕ) → IsPrimeGap g → 0 < g → (g - 1) / 2 ≡ 0 → g ≡ 1
prime_last g (zero, e) h z = absurd (omega arith)
prime_last g (suc k, e) h z = omega (arith, pow-suc 2 k)

prime_gaps : IsGapSequence IsPrimeGap (λ g. (g - 1) / 2)
prime_gaps = record { stays = prime_stays; falls = λ g v h. omega arith; last = prime_last }

-- The search for the first gap ends, at the last 2^k - 1 that is below the length.
prime_index_lem :
    (fuel len idx : ℕ)
    → 1 ≤ idx
    → 2 ^ (idx - 1) - 1 < len
    → len + 2 ≤ idx + fuel
    → Returns (prime_index fuel len idx) λ k. (1 ≤ k) × (2 ^ (k - 1) - 1 < len) × (len ≤ 2 ^ k - 1)
unfolding prime_index
prime_index_lem zero len idx p l f = absurd (omega (arith, lt-pow (idx - 1)))
prime_index_lem (suc fuel) len idx p l f = elim (Bool-cases (ltb (2 ^ idx - 1) len)) [
  | inr e ↦ (idx, rw e, (p, l, ltb→ge _ _ e))
  | inl e ↦
      let back : idx + 1 - 1 ≡ idx = omega arith in
      rw e (prime_index_lem fuel len (idx + 1) (omega arith) (rw back (ltb→lt _ _ e)) (omega arith))
]

-- On an array that is not empty, `shell_insert_sort_partitionbyprime` ends without a fault (no
-- access outside the array, no failed `assert`, no loop out of fuel), and its result ascends and
-- is a rearrangement of the array.
pub shell_insert_sort_partitionbyprime-Sorts :
    (a : Array) → 0 < length a → Returns (shell_insert_sort_partitionbyprime a) (Sorts a)
unfolding shell_insert_sort_partitionbyprime
shell_insert_sort_partitionbyprime-Sorts a h = rw (not_empty a h) (
    bind_rule (prime_index (length a + 1) (length a) 1) _
      (prime_index_lem (length a + 1) (length a) 1 (omega arith) (omega arith) (omega arith))
      λ k found.
        let gap = 2 ^ (k - 1) - 1 in
        let small : gap < length a = found.1 in
        let big : length a ≤ 2 ^ k - 1 = found.2 in
        let pow : 2 ^ k ≡ 2 * 2 ^ (k - 1) = pow_pred k found.0 in
        weaken _
          (gap_loop_lem IsPrimeGap (λ g. (g - 1) / 2) prime_gaps (length a + 1) gap a a
            (k - 1, omega (arith, lt-pow (k - 1))) (omega arith) (omega arith)
            (Rearranges-refl _ _ a) (λ e. short_Prefix a (omega arith)))
          (Prefix-Sorts a))
