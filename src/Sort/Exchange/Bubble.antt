-- ===== src/Sort/Exchange/Bubble.antt =====
-- `bubble_sort` sorts.
use my_little_tool.Prelude.{
  ℕ, ◌+◌, ◌-◌, ◌≤◌, ◌<◌, arith, ◌≤ℤ◌, ltb_ℤ, Bool-cases, inl, inr, length, Returns, weaken,
  for_up_rule, IsInt,
}
use my_little_tool.Sort.Array.{Array, at, Rearranges, AllOn, IsSortedOn, Sorts}
use my_little_tool.Sort.Array.Access.{load-ok, swap, at-swap}
use my_little_tool.Sort.Array.Rearrange.{
  Rearranges-refl, Rearranges-trans, Rearranges-AllOn, swap-Rearranges,
}
use my_little_tool.Sort.Exchange.{bubble_step, bubble_pass, bubble_sort}
use my_little_tool.Sort.Exchange.Swap.{xor_swap-swap}

-- The entries from `m` on ascend, and are not smaller than those before.
pub record Settled (a : Array) (m : ℕ) (b : Array) : Type 0 where
  pub sorted : IsSortedOn m (length a) b
  pub apart : (i j : ℕ) → i < m → m ≤ j → j < length a → at b i ≤ℤ at b j
  pub moved : Rearranges 0 (length a) a b

-- In a pass over the first `m` entries: the entry at `k` is the largest up to there.
record Bubbling (a : Array) (m k : ℕ) (b : Array) : Type 0 where
  settled : Settled a m b
  largest : (i : ℕ) → i ≤ k → at b i ≤ℤ at b k

module _ (a : Array) (fits : AllOn IsInt 0 (length a) a) where
  bubble_step_lem :
      (m k : ℕ) (b : Array)
      → k + 1 < m
      → m ≤ length a
      → Bubbling a m k b
      → Returns (bubble_step k b) (Bubbling a m (k + 1))
  unfolding bubble_step
  bubble_step_lem m k b u len h =
      let s = h.settled in
      let pk : k < length b = omega (arith, s.moved.same_length) in
      let pn : k + 1 < length b = omega (arith, s.moved.same_length) in
      elim (Bool-cases (ltb_ℤ (at b (k + 1)) (at b k))) [
        | inr e ↦ (
          b,
          rw (load-ok b k pk, load-ok b (k + 1) pn, e),
          record { settled = s; largest = λ i l. ground (arith, h.largest i) },
        )
        | inl e ↦
            let ints = Rearranges-AllOn IsInt s.moved fits in
            let c = swap b k (k + 1) in
            let r =
              swap-Rearranges 0 (length a) b k (k + 1) (omega arith) (omega arith) (omega arith)
                (omega arith) (omega (arith, s.moved.same_length)) in
            (
              c,
              rw (load-ok b k pk, load-ok b (k + 1) pn, e)
                  (xor_swap-swap b k (k + 1) pk pn (omega arith)
                    (ints k (omega arith) (omega arith))
                    (ints (k + 1) (omega arith) (omega arith))),
              record {
                settled = record {
                  sorted = λ i j l w x.
                      rw (at-swap b k (k + 1) i pk pn, at-swap b k (k + 1) j pk pn)
                        (ground (arith, s.sorted i j));
                  apart = λ i j l w x.
                      rw (at-swap b k (k + 1) i pk pn, at-swap b k (k + 1) j pk pn)
                        (ground (arith, s.apart i j, s.apart k j, s.apart (k + 1) j));
                  moved = Rearranges-trans s.moved r;
                };
                largest = λ i l.
                    rw (at-swap b k (k + 1) i pk pn, at-swap b k (k + 1) (k + 1) pk pn)
                      (ground (arith, h.largest i));
              },
            )
      ]

  -- A pass settles one more entry.
  bubble_pass_lem :
      (i : ℕ) (b : Array)
      → i + 1 < length a
      → Settled a (length a - i) b
      → Returns (bubble_pass i b) (Settled a (length a - (i + 1)))
  unfolding bubble_pass
  bubble_pass_lem i b u s =
      let m = length a - i in
      weaken _
        (for_up_rule (λ k c. Bubbling a m k c) bubble_step (length b - i - 1) 0 (m - 1) b
          (omega (arith, s.moved.same_length))
          (λ k c l w h. bubble_step_lem m k c (omega arith) (omega arith) h)
          (record { settled = s; largest = λ j l. ground arith }))
        λ c h.
          let t = h.settled in
          record {
            sorted = λ j k l w x. ground (arith, t.sorted j k, t.apart j k, h.largest j);
            apart = λ j k l w x. ground (arith, t.apart j k, h.largest j);
            moved = t.moved;
          }

  -- On an array whose entries are 32-bit `int`s, `bubble_sort`, which exchanges by exclusive
  -- ors, ends without a fault, and its result ascends and is a rearrangement of the array.
  pub bubble_sort-Sorts : Returns (bubble_sort a) (Sorts a)
  unfolding bubble_sort
  bubble_sort-Sorts =
      weaken _
        (for_up_rule (λ i b. Settled a (length a - i) b) bubble_pass (length a - 1) 0 (length a - 1)
          a (omega arith) (λ i b l u s. bubble_pass_lem i b (omega arith) s)
          (record {
            sorted = λ i j l m n. absurd (omega arith);
            apart = λ i j l m n. absurd (omega arith);
            moved = Rearranges-refl _ _ a;
          }))
        λ b s. record {
          ascending = λ i j l m n. ground (arith, s.sorted i j, s.apart i j, s.moved.same_length);
          rearranged = s.moved;
        }
