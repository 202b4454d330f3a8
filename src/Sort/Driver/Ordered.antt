-- ===== src/Sort/Driver/Ordered.antt =====
-- The ordered numbers that `main` can sort.
use my_little_tool.Prelude.{
  ℕ, ◌+◌, ◌<◌, ◌≡◌, refl, arith, pos, ◌==◌, Bool-cases, inl, inr, set, length, length-set, ap, ◌∙◌,
  for_up, for_up_rule, Returns,
}
use my_little_tool.Sort.Array.{Array, at, store}
use my_little_tool.Sort.Array.Access.{store-ok, at-set}
use my_little_tool.Sort.Driver.{get_orderred_number}

-- The first `i` entries are the numbers from 1 up.
record IsFilled (i : ℕ) (a : Array) : Type 0 where
  size : length a ≡ 100000
  filled : (j : ℕ) → j < i → at a j ≡ pos (1 + j)

fill_step :
    (i : ℕ) (a : Array)
    → i < 100000
    → IsFilled i a
    → Returns (store a i (pos (1 + i))) (IsFilled (i + 1))
fill_step i a l f = (
  set a i (pos (1 + i)),
  store-ok a i (pos (1 + i)) (omega (arith, f.size)),
  record {
    size = length-set a i (pos (1 + i)) ∙ f.size;
    filled = λ j m.
        let e = at-set a i j (pos (1 + i)) (omega (arith, f.size)) in
        elim (Bool-cases (i == j)) [
          | inl same ↦ let s : i ≡ j = ground arith in e ∙ (rw same (ap (λ k. pos (1 + k)) s))
          | inr other ↦ e ∙ (rw other (f.filled j (ground arith)))
        ];
  },
)

-- Whatever `random()` gives and the allocated memory holds, the array that `GetOrderredNumber`
-- makes holds 1 to 100000 in order: no entry is replaced by a random one.
pub at-get_orderred_number :
    (random : ℕ → ℕ) (memory : Array)
    → length memory ≡ 100000
    → Returns
        (get_orderred_number random memory)
        (λ a. (length a ≡ 100000) × ((i : ℕ) → i < 100000 → at a i ≡ pos (1 + i)))
unfolding get_orderred_number for_up
at-get_orderred_number random memory size =
    let (a, e, f) =
      for_up_rule IsFilled (λ i a. store a i (pos (1 + i))) 100000 0 100000 memory refl
        (λ i a l m g. fill_step i a m g)
        (record { size = size; filled = λ j l. absurd (omega arith) }) in
    rw e (a, refl, (f.size, f.filled))
