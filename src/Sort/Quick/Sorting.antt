-- ===== src/Sort/Quick/Sorting.antt =====
-- The quicksorts that split at one position, and so recur on both sides of it.
use my_little_tool.Prelude.{
  ℕ, zero, suc, ◌+◌, ◌-◌, ◌<◌, ◌≡◌, arith, leb, leb→le, leb→gt, ◌==◌, false, Bool-cases, inl, inr,
  length, Returns, bind_rule, weaken,
}
use my_little_tool.Sort.Array.{Array, store, at, Sorts}
use my_little_tool.Sort.Array.Access.{load-ok}
use my_little_tool.Sort.Array.Rearrange.{Rearranges-refl}
use my_little_tool.Sort.Quick.{
  hole_left_loop, hole_right_loop, partition, quick_sort_range, quick_sort, quick_sort2_range,
  quick_sort2, better_quick_sort_range, better_quick_sort,
}
use my_little_tool.Sort.Quick.Hole.{hole_left_loop_lem, hole_right_loop_lem}
use my_little_tool.Sort.Quick.Split.{SortsOn, Met-IsSplit, sort_two_lem}
use my_little_tool.Sort.Quick.Sides.{SortsBelow, sort_sides, start_left, start_right}
use my_little_tool.Sort.Quick.Median.{partition_lem}

quick_sort_range_lem : (fuel : ℕ) → SortsBelow fuel (quick_sort_range fuel)
unfolding quick_sort_range
quick_sort_range_lem zero a lo hi l f h = absurd (omega arith)
quick_sort_range_lem (suc fuel) a lo hi l f h = elim (Bool-cases (leb hi (lo + 2))) [
  | inl short ↦ rw short (sort_two_lem a lo hi (leb→le _ _ short) h)
  | inr long ↦
      let big : lo + 2 < hi = leb→gt _ _ long in
      rw (long, load-ok a lo (omega arith))
        (bind_rule (hole_left_loop (hi - lo) a (at a lo) lo (hi - 1)) _
          (hole_left_loop_lem lo hi (at a lo) a (hi - lo) a lo (hi - 1) (omega arith)
            (start_left lo hi a (omega arith) h))
          λ s met.
            bind_rule (store s.0 s.1 (at a lo)) _ (Met-IsSplit lo hi (at a lo) a s met) λ c v.
              sort_sides fuel (quick_sort_range fuel) (quick_sort_range_lem fuel) lo s.1 (s.1 + 1)
                hi (at a lo) a c (omega arith) (omega arith) v)
]

quick_sort2_range_lem : (fuel : ℕ) → SortsBelow fuel (quick_sort2_range fuel)
unfolding quick_sort2_range
quick_sort2_range_lem zero a lo hi l f h = absurd (omega arith)
quick_sort2_range_lem (suc fuel) a lo hi l f h = elim (Bool-cases (leb hi (lo + 2))) [
  | inl short ↦ rw short (sort_two_lem a lo hi (leb→le _ _ short) h)
  | inr long ↦
      let big : lo + 2 < hi = leb→gt _ _ long in
      let p = at a (hi - 1) in
      rw (long, load-ok a (hi - 1) (omega arith))
        (bind_rule (hole_right_loop (hi - lo) a p lo (hi - 1)) _
          (hole_right_loop_lem lo hi p a (hi - lo) a lo (hi - 1) (omega arith)
            (start_right lo hi a a (omega arith) h (Rearranges-refl lo hi a)))
          λ s met. bind_rule (store s.0 s.1 p) _ (Met-IsSplit lo hi p a s met) λ c v.
            sort_sides fuel (quick_sort2_range fuel) (quick_sort2_range_lem fuel) lo s.1 (s.1 + 1)
              hi p a c (omega arith) (omega arith) v)
]

better_quick_sort_range_lem : (fuel : ℕ) → SortsBelow fuel (better_quick_sort_range fuel)
unfolding better_quick_sort_range
better_quick_sort_range_lem zero a lo hi l f h = absurd (omega arith)
better_quick_sort_range_lem (suc fuel) a lo hi l f h = elim (Bool-cases (leb hi (lo + 2))) [
  | inl short ↦ rw short (sort_two_lem a lo hi (leb→le _ _ short) h)
  | inr long ↦ rw long (
      bind_rule (partition a lo hi) _ (partition_lem a lo hi (leb→gt _ _ long) h) λ s part.
        let (p, v) = part in
        sort_sides fuel (better_quick_sort_range fuel) (better_quick_sort_range_lem fuel) lo s.1
          (s.1 + 1) hi p a s.0 (omega arith) (omega arith) v)
]

pub SortsOn-Sorts : (a b : Array) → SortsOn 0 (length a) a b → Sorts a b
SortsOn-Sorts a b s = record {
  ascending = λ i j l m n. s.ascending i j l m (omega (arith, s.moved.same_length));
  rearranged = s.moved;
}

-- On an array that is not empty, `quick_sort` ends without a fault (no access outside the array,
-- no failed `assert`, no loop out of fuel), and its result ascends and is a rearrangement of the
-- array.
pub quick_sort-Sorts : (a : Array) → 0 < length a → Returns (quick_sort a) (Sorts a)
unfolding quick_sort
quick_sort-Sorts a h =
    let filled : (length a == 0) ≡ false = ground arith in
    rw filled (
      weaken _
        (quick_sort_range_lem (length a + 1) a 0 (length a) (omega arith) (omega arith)
          (omega arith))
        (SortsOn-Sorts a))

-- On an array that is not empty, `quick_sort2` ends without a fault (no access outside the
-- array, no failed `assert`, no loop out of fuel), and its result ascends and is a rearrangement
-- of the array.
pub quick_sort2-Sorts : (a : Array) → 0 < length a → Returns (quick_sort2 a) (Sorts a)
unfolding quick_sort2
quick_sort2-Sorts a h =
    let filled : (length a == 0) ≡ false = ground arith in
    rw filled (
      weaken _
        (quick_sort2_range_lem (length a + 1) a 0 (length a) (omega arith) (omega arith)
          (omega arith))
        (SortsOn-Sorts a))

-- On an array that is not empty, `better_quick_sort` ends without a fault (no access outside the
-- array, no failed `assert`, no loop out of fuel), and its result ascends and is a rearrangement
-- of the array.
pub better_quick_sort-Sorts : (a : Array) → 0 < length a → Returns (better_quick_sort a) (Sorts a)
unfolding better_quick_sort
better_quick_sort-Sorts a h =
    let filled : (length a == 0) ≡ false = ground arith in
    rw filled (
      weaken _
        (better_quick_sort_range_lem (length a + 1) a 0 (length a) (omega arith) (omega arith)
          (omega arith))
        (SortsOn-Sorts a))
