-- ===== src/Sort/Exchange/Select.antt =====
-- `select_sort` sorts.
use my_little_tool.Prelude.{
  ℕ, ◌+◌, ◌-◌, ◌≤◌, ◌<◌, arith, ◌≤ℤ◌, ltb_ℤ, ◌==◌, Bool-cases, inl, inr, length, Returns, bind_rule,
  weaken, for_up_rule, IsInt,
}
use my_little_tool.Sort.Array.{Array, at, Rearranges, AllOn, IsSortedOn, Sorts}
use my_little_tool.Sort.Array.Access.{load-ok, swap, at-swap}
use my_little_tool.Sort.Array.Rearrange.{
  Rearranges-refl, Rearranges-trans, Rearranges-AllOn, swap-Rearranges,
}
use my_little_tool.Sort.Exchange.{select_step, select_round, select_sort}
use my_little_tool.Sort.Exchange.Swap.{xor_swap-swap}

-- The first `i` entries ascend, and are not larger than the others.
record Selected (a : Array) (i : ℕ) (b : Array) : Type 0 where
  sorted : IsSortedOn 0 i b
  apart : (x y : ℕ) → x < i → i ≤ y → y < length a → at b x ≤ℤ at b y
  moved : Rearranges 0 (length a) a b

-- The place of a smallest entry of `[i, j)`.
record IsSmallest (i j : ℕ) (b : Array) (s : ℕ) : Type 0 where
  lower : i ≤ s
  upper : s < j
  smallest : (x : ℕ) → i ≤ x → x < j → at b s ≤ℤ at b x

select_step_lem :
    (i j : ℕ) (b : Array) (s : ℕ)
    → i < j
    → j < length b
    → IsSmallest i j b s
    → Returns (select_step b j s) (IsSmallest i (j + 1) b)
unfolding select_step
select_step_lem i j b s l u h = elim (Bool-cases (ltb_ℤ (at b j) (at b s))) [
  | inl e ↦ (
    j,
    rw (load-ok b j u, load-ok b s (omega (arith, h.upper)), e),
    record {
      lower = omega arith;
      upper = omega arith;
      smallest = λ x m n. ground (arith, h.smallest x);
    },
  )
  | inr e ↦ (
    s,
    rw (load-ok b j u, load-ok b s (omega (arith, h.upper)), e),
    record {
      lower = h.lower;
      upper = omega (arith, h.upper);
      smallest = λ x m n. ground (arith, h.smallest x);
    },
  )
]

module _ (a : Array) (fits : AllOn IsInt 0 (length a) a) where
  select_round_lem :
      (i : ℕ) (b : Array)
      → i < length a
      → Selected a i b
      → Returns (select_round i b) (Selected a (i + 1))
  unfolding select_round
  select_round_lem i b u h =
      let len = h.moved.same_length in
      bind_rule _ _
        (for_up_rule (λ j s. IsSmallest i j b s) (select_step b) (length b - (i + 1)) (i + 1)
          (length b) i (omega arith) (λ j s l w x. select_step_lem i j b s (omega arith) w x)
          (record { lower = omega arith; upper = omega arith; smallest = λ x l w. ground arith }))
        λ s m. elim (Bool-cases (i == s)) [
          | inl e ↦ (
            b,
            rw e,
            record {
              sorted = λ x y l w z. ground (arith, h.sorted x y, h.apart x y);
              apart = λ x y l w z. ground (arith, h.apart x y, m.smallest y);
              moved = h.moved;
            },
          )
          | inr e ↦
              let ints = Rearranges-AllOn IsInt h.moved fits in
              let pi : i < length b = omega arith in
              let ps : s < length b = m.upper in
              let r =
                swap-Rearranges 0 (length a) b i s (omega arith) u (omega arith) (omega arith)
                  (omega arith) in
              (
                swap b i s,
                rw e (
                    xor_swap-swap b i s pi ps (ground arith) (ints i (omega arith) u)
                      (ints s (omega arith) (omega arith))),
                record {
                  sorted = λ x y l w z.
                      rw (at-swap b i s x pi ps, at-swap b i s y pi ps)
                        (ground (arith, h.sorted x y, h.apart x s, m.lower));
                  apart = λ x y l w z.
                      rw (at-swap b i s x pi ps, at-swap b i s y pi ps)
                        (ground
                          (arith, h.apart x y, h.apart x i, m.smallest y, m.smallest i, m.lower));
                  moved = Rearranges-trans h.moved r;
                },
              )
        ]

  -- On an array whose entries are 32-bit `int`s, `select_sort`, which exchanges by exclusive
  -- ors, ends without a fault, and its result ascends and is a rearrangement of the array.
  pub select_sort-Sorts : Returns (select_sort a) (Sorts a)
  unfolding select_sort
  select_sort-Sorts =
      weaken _
        (for_up_rule (λ i b. Selected a i b) select_round (length a - 1) 0 (length a - 1) a
          (omega arith) (λ i b l u s. select_round_lem i b (omega arith) s)
          (record {
            sorted = λ i j l m n. absurd (omega arith);
            apart = λ i j l m n. absurd (omega arith);
            moved = Rearranges-refl _ _ a;
          }))
        λ b s. record {
          ascending = λ i j l m n. ground (arith, s.sorted i j, s.apart i j, s.moved.same_length);
          rearranged = s.moved;
        }
