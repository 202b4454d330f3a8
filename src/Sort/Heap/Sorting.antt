-- ===== src/Sort/Heap/Sorting.antt =====
-- `heap_sort` sorts: the first loop builds a heap, the second takes the largest entry off it.
use my_little_tool.Prelude.{
  ℕ, suc, ◌-◌, ◌/◌, ◌^◌, ◌≤◌, ◌<◌, ◌≡◌, ◌∙◌, arith, ◌≤ℤ◌, ◌==◌, Bool-cases, inl, inr, length,
  Returns, bind_rule, weaken, for_down, for_down_rule,
}
use my_little_tool.Sort.Array.{Array, at, Rearranges, IsSortedOn, Sorts}
use my_little_tool.Sort.Array.Access.{swap_elems-ok, swap, at-swap}
use my_little_tool.Sort.Array.Rearrange.{
  Rearranges-refl, Rearranges-trans, Rearranges-widen, Rearranges-AllOn, swap-Rearranges,
}
use my_little_tool.Sort.Heap.{heap_shift_down, extract, heap_sort}
use my_little_tool.Sort.Heap.Order.{IsHeapFrom, IsHeapBut, IsHeapFrom-root}
use my_little_tool.Sort.Heap.Sift.{Sifted, heap_shift_down-Sifted}

-- The first `n` entries are a heap, the others ascend and are not smaller.
pub record Extracting (a : Array) (n : ℕ) (b : Array) : Type 0 where
  pub heap : IsHeapFrom 0 n b
  pub sorted : IsSortedOn n (length a) b
  pub apart : (i j : ℕ) → i < n → n ≤ j → j < length a → at b i ≤ℤ at b j
  pub moved : Rearranges 0 (length a) a b

-- After the exchange the entries of the shorter heap are still below the others.
extract_apart :
    (b : Array) (m len i j : ℕ)
    → suc m < length b
    → i < suc m
    → suc m ≤ j
    → j < len
    → at b i ≤ℤ at b 0
    → at b (suc m) ≤ℤ at b 0
    → (i < suc (suc m) → suc (suc m) ≤ j → j < len → at b i ≤ℤ at b j)
    → (suc m < suc (suc m) → suc (suc m) ≤ j → j < len → at b (suc m) ≤ℤ at b j)
    → at (swap b (suc m) 0) i ≤ℤ at (swap b (suc m) 0) j
extract_apart b m len i j lb l h k ri rn ai an =
    rw (at-swap b (suc m) 0 i lb (omega arith), at-swap b (suc m) 0 j lb (omega arith))
      (ground arith)

-- A round puts the root behind the heap, which loses one entry.
extract_lem :
    (a b : Array) (m : ℕ)
    → length a ≤ 2 ^ 30
    → suc m < length a
    → Extracting a (suc (suc m)) b
    → Returns (extract (suc m) b) (Extracting a (suc m))
unfolding extract
extract_lem a b m big u x =
    let n = suc m in
    let root =
      λ (i : ℕ) (h : i < suc n). IsHeapFrom-root (suc n) b x.heap (suc i) i (omega arith) h in
    let lb : n < length b = omega (arith, x.moved.same_length) in
    let c = swap b n 0 in
    let r =
      swap-Rearranges 0 (length a) b n 0 (omega arith) u (omega arith) (omega arith)
        (omega (arith, x.moved.same_length)) in
    let but : IsHeapBut 0 n 0 c = record {
      but = λ i k l ne s w.
          rw (at-swap b n 0 i lb (omega arith), at-swap b n 0 k lb (omega arith))
            (ground (arith, x.heap i k));
      above = λ i k l s t w. absurd (omega arith);
    } in
    rw (swap_elems-ok b n 0 lb (omega arith)) (
      weaken _
        (heap_shift_down-Sifted 0 n 0 c (omega arith) (omega (arith, r.same_length)) (omega arith)
          (omega arith) but)
        λ d s.
          let up = λ (j : ℕ) (h : n ≤ j). s.moved.above j h ∙ at-swap b n 0 j lb (omega arith) in
          let low = λ (j : ℕ) (h : n ≤ j) (k : j < length a). λ (i : ℕ) (l : 0 ≤ i) (w : i < n).
            extract_apart b m (length a) i j lb w h k (root i (omega arith)) (root n (omega arith))
              (x.apart i j) (x.apart n j) in
          record {
            heap = s.heap;
            sorted = λ i j l w k.
                rw (up i l, up j (omega arith)) (ground (arith, x.sorted i j, x.apart 0 j));
            apart = λ i j l w k.
                rw (s.moved.above j w)
                  (Rearranges-AllOn (λ v. v ≤ℤ at c j) s.moved (low j w k) i (omega arith) l);
            moved = Rearranges-trans x.moved (
                Rearranges-trans r
                  (Rearranges-widen 0 (length a) (omega arith) (omega arith) s.moved));
          })

-- The first loop makes the whole array a heap.
build_heap :
    (a : Array)
    → length a ≤ 2 ^ 30
    → Returns
        (for_down (length a / 2) (λ i c. heap_shift_down c (length a) i) a)
        (Sifted 0 (length a) a)
build_heap a big =
    let n = length a in
    for_down_rule (λ k c. Sifted k n a c) (λ i c. heap_shift_down c n i) (n / 2) a
      (λ k c l s.
        weaken _
          (heap_shift_down-Sifted k n k c big (omega (arith, s.moved.same_length)) (omega arith)
            (omega arith)
            (record {
              but = λ i d m ne x w. s.heap i d (omega arith) x w;
              above = λ i d m x y w. absurd (omega arith);
            }))
          λ d t. record { heap = t.heap; moved = Rearranges-trans s.moved t.moved })
      (record { heap = λ i c l s w. absurd (omega (arith, s.0)); moved = Rearranges-refl 0 n a })

-- On an array of at most 2^30 entries, `heap_sort` ends without a fault (no access outside the
-- array, no overflow of the index arithmetic, no loop out of fuel), and its result ascends and
-- is a rearrangement of the array.
pub heap_sort-Sorts : (a : Array) → length a ≤ 2 ^ 30 → Returns (heap_sort a) (Sorts a)
unfolding heap_sort
heap_sort-Sorts a big = elim (Bool-cases (length a == 0)) [
  | inl empty ↦ (
    a,
    rw empty,
    record { ascending = λ i j l m n. ground arith; rearranged = Rearranges-refl _ _ a },
  )
  | inr filled ↦
      let pos : 0 < length a = ground arith in
      rw filled (
        bind_rule _ _ (build_heap a big) λ b s.
          weaken _
            (for_down_rule (λ n c. Extracting a (suc n) c) (λ n c. extract (suc n) c) (length a - 1)
              b (λ n c l x. extract_lem a c n big (omega arith) x)
              (let whole : suc (length a - 1) ≡ length a = omega arith in
                rw whole (record {
                  heap = s.heap;
                  sorted = λ i j l m n. absurd (omega arith);
                  apart = λ i j l m n. absurd (omega arith);
                  moved = s.moved;
                })))
            λ c x. record {
              ascending =
                  λ i j l m n. ground (arith, x.sorted i j, x.apart i j, x.moved.same_length);
              rearranged = x.moved;
            })
]
