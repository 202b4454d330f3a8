-- ===== src/Sort/Quick/Tests.antt =====
-- Runs of the functions of Sort/quick_sort.c, and their theorems at an array.
use my_little_tool.Prelude.{◌≡◌, refl, arith, ok, Returns}
use my_little_tool.Sort.Array.{load, store, swap_elems, Sorts}
use my_little_tool.Sort.Samples.{numbers, in_order}
use my_little_tool.Sort.Quick.{
  sort_two, scan_down, scan_up, fill_left, fill_right, hole_left_loop, hole_right_loop,
  swap_if_less, choose_right, partition, quick_sort_range, quick_sort, quick_sort2_range,
  quick_sort2, better_quick_sort_range, better_quick_sort,
}
use my_little_tool.Sort.Quick.Sorting.{quick_sort-Sorts}

quick_sort_runs : quick_sort numbers ≡ ok in_order
unfolding load store swap_elems sort_two scan_down scan_up fill_left fill_right hole_left_loop
    hole_right_loop swap_if_less choose_right partition quick_sort_range quick_sort
quick_sort_runs = refl

quick_sort2_runs : quick_sort2 numbers ≡ ok in_order
unfolding load store swap_elems sort_two scan_down scan_up fill_left fill_right hole_left_loop
    hole_right_loop swap_if_less choose_right partition quick_sort2_range quick_sort2
quick_sort2_runs = refl

better_quick_sort_runs : better_quick_sort numbers ≡ ok in_order
unfolding load store swap_elems sort_two scan_down scan_up fill_left fill_right hole_left_loop
    hole_right_loop swap_if_less choose_right partition better_quick_sort_range better_quick_sort
better_quick_sort_runs = refl

quick_sort-Sorts_example : Returns (quick_sort numbers) (Sorts numbers)
quick_sort-Sorts_example = quick_sort-Sorts numbers (omega arith)
