-- ===== src/Sort/Heap/Sift.antt =====
-- `heap_shift_down` restores the heap order below a node.
use my_little_tool.Prelude.{
  int_result-ok, ℕ, zero, suc, ◌+◌, ◌*◌, ◌^◌, ◌≤◌, ◌<◌, arith, ◌≤ℤ◌, ltb, ltb→lt, ltb→ge, ltb_ℤ,
  Bool-cases, inl, inr, length, Returns, bind_rule, weaken,
}
use my_little_tool.Sort.Array.{Array, at, Rearranges}
use my_little_tool.Sort.Array.Access.{load-ok, swap_elems-ok, swap}
use my_little_tool.Sort.Array.Rearrange.{Rearranges-refl, Rearranges-trans, swap-Rearranges}
use my_little_tool.Sort.Heap.{larger_son, shift_down_loop, heap_shift_down}
use my_little_tool.Sort.Heap.Order.{IsSon, IsHeapFrom, IsHeapBut, IsHeapBut-done, IsHeapBut-swap}

-- The son that `larger_son` picks is one, and no son is larger.
record IsLargerSon (n p : ℕ) (a : Array) (s : ℕ) : Type 0 where
  son : IsSon p s
  inside : s < n
  largest : (c : ℕ) → IsSon p c → c < n → at a c ≤ℤ at a s

larger_son_lem :
    (n p : ℕ) (a : Array)
    → 2 * p + 1 < n
    → n ≤ length a
    → Returns (larger_son a n (2 * p + 1)) (IsLargerSon n p a)
unfolding larger_son
larger_son_lem n p a h len =
    let l = 2 * p + 1 in
    elim (Bool-cases (ltb (l + 1) n)) [
      | inr one ↦ (
        l,
        rw one,
        record {
          son = (omega arith, omega arith);
          inside = h;
          largest = λ c s u. ground (arith, ltb→ge _ _ one);
        },
      )
      | inl two ↦
          let r : l + 1 < n = ltb→lt _ _ two in
          rw (two, load-ok a (l + 1) (omega arith), load-ok a l (omega arith))
            (elim (Bool-cases (ltb_ℤ (at a l) (at a (l + 1)))) [
              | inl right ↦ (
                l + 1,
                rw right,
                record {
                  son = (omega arith, omega arith);
                  inside = r;
                  largest = λ c s u. ground arith;
                },
              )
              | inr left ↦ (
                l,
                rw left,
                record {
                  son = (omega arith, omega arith);
                  inside = h;
                  largest = λ c s u. ground arith;
                },
              )
            ])
    ]

-- What a sift leaves, in a heap of `n` entries from node `k` on.
pub record Sifted (k n : ℕ) (a b : Array) : Type 0 where
  pub heap : IsHeapFrom k n b
  pub moved : Rearranges 0 n a b

shift_down_loop_lem :
    (k n : ℕ) (fuel p : ℕ) (a : Array)
    → n ≤ 2 ^ 30
    → n ≤ length a
    → k ≤ p
    → p < n
    → n < fuel + p
    → IsHeapBut k n p a
    → Returns (shift_down_loop fuel a n p) (Sifted k n a)
unfolding shift_down_loop
shift_down_loop_lem k n zero p a big len l u f h = absurd (omega arith)
shift_down_loop_lem k n (suc fuel) p a big len l u f h =
    rw (int_result-ok (2 * p + 1) (omega arith)) (elim (Bool-cases (ltb (2 * p + 1) n)) [
      | inr leaf ↦ (
        a,
        rw leaf,
        record {
          heap = IsHeapBut-done k n p a h λ c s w. absurd (omega (arith, ltb→ge _ _ leaf, s.0));
          moved = Rearranges-refl 0 n a;
        },
      )
      | inl node ↦ rw node (
          bind_rule (larger_son a n (2 * p + 1)) _ (larger_son_lem n p a (ltb→lt _ _ node) len)
            λ s sons.
              let pp : p < length a = omega arith in
              let ps : s < length a = omega (arith, sons.inside) in
              rw (load-ok a p pp, load-ok a s ps)
                (elim (Bool-cases (ltb_ℤ (at a s) (at a p))) [
                  | inl stop ↦ (
                    a,
                    rw stop,
                    record {
                      heap = IsHeapBut-done k n p a h λ c x w. ground (arith, sons.largest c x w);
                      moved = Rearranges-refl 0 n a;
                    },
                  )
                  | inr go ↦
                      let r =
                        swap-Rearranges 0 n a p s (omega arith) u (omega arith) sons.inside len in
                      rw (go, swap_elems-ok a p s pp ps)
                        (weaken _
                          (shift_down_loop_lem k n fuel s (swap a p s) big
                            (omega (arith, r.same_length)) (omega (arith, sons.son.0)) sons.inside
                            (omega (arith, sons.son.0))
                            (IsHeapBut-swap k n p s a len l sons.son sons.inside (ground arith)
                              sons.largest h))
                          λ b t. record { heap = t.heap; moved = Rearranges-trans r t.moved })
                ]))
    ])

-- For a node `p` of the first `n` (at most 2^30) entries, where every node from `k` on except
-- `p` is at least its sons, and the parent of `p`, if from `k` on, is at least the sons of `p`:
-- `heap_shift_down` ends without a fault and only rearranges the first `n` entries, and
-- afterwards every node from `k` on, `p` included, is at least its sons.
pub heap_shift_down-Sifted :
    (k n p : ℕ) (a : Array)
    → n ≤ 2 ^ 30
    → n ≤ length a
    → k ≤ p
    → p < n
    → IsHeapBut k n p a
    → Returns (heap_shift_down a n p) (Sifted k n a)
unfolding heap_shift_down
heap_shift_down-Sifted k n p a big len l u h =
    shift_down_loop_lem k n (n + 1) p a big len l u (omega arith) h
