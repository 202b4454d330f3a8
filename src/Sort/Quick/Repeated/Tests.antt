-- ===== src/Sort/Quick/Repeated/Tests.antt =====
-- Runs of the two versions that gather repeated pivots, and their theorems at an array.
use my_little_tool.Prelude.{eq_ℤ, ◌≡◌, refl, arith, pos, [], ◌∷◌, ok, Returns, for_up, for_down}
use my_little_tool.Sort.Array.{load, store, swap_elems, Sorts, Array, at}
use my_little_tool.Sort.Array.Rearrange.{Rearranges-refl}
use my_little_tool.Sort.Samples.{numbers, in_order}
use my_little_tool.Sort.Quick.{
  sort_two, scan_down, scan_up, fill_left, fill_right, hole_left_loop, hole_right_loop,
  swap_if_less, choose_right, partition,
}
use my_little_tool.Sort.Quick.Split.{IsSplit}
use my_little_tool.Sort.Quick.Repeated.{
  repeat_left, repeat_right, deal_repeat, better_quick_sort2_range, better_quick_sort2,
  better_quick_sort3_range, better_quick_sort3,
}
use my_little_tool.Sort.Quick.Repeated.Sorting.{better_quick_sort2-Sorts}

better_quick_sort2_runs : better_quick_sort2 numbers ≡ ok in_order
unfolding eq_ℤ load store swap_elems sort_two scan_down scan_up fill_left fill_right hole_left_loop
    hole_right_loop swap_if_less choose_right partition for_up for_down repeat_left repeat_right
    deal_repeat better_quick_sort2_range better_quick_sort2
better_quick_sort2_runs = refl

better_quick_sort3_runs : better_quick_sort3 numbers ≡ ok in_order
unfolding eq_ℤ load store swap_elems sort_two scan_down scan_up fill_left fill_right hole_left_loop
    hole_right_loop swap_if_less choose_right partition for_up for_down repeat_left repeat_right
    deal_repeat better_quick_sort3_range better_quick_sort3
better_quick_sort3_runs = refl

better_quick_sort2-Sorts_example : Returns (better_quick_sort2 numbers) (Sorts numbers)
better_quick_sort2-Sorts_example = better_quick_sort2-Sorts numbers (omega arith)

-- Entries equal to the pivot at both ends.
abbrev around : Array
around = pos 4 ∷ pos 1 ∷ pos 4 ∷ pos 7 ∷ pos 4 ∷ []

around-IsSplit : IsSplit 0 2 3 5 (pos 4) around around
unfolding at
around-IsSplit = record {
  left = omega arith;
  middle = omega arith;
  right = omega arith;
  fits = omega arith;
  moved = Rearranges-refl 0 5 around;
  small = λ i m n. ground arith;
  same = λ i m n. ground arith;
  large = λ i m n. ground arith;
}
