-- ===== src/Sort/Quick/Inward/Tests.antt =====
-- A run of `quick_sort3`, and its theorem at an array.
use my_little_tool.Prelude.{◌≡◌, refl, ok, Returns}
use my_little_tool.Sort.Array.{load, store, swap_elems, Sorts}
use my_little_tool.Sort.Samples.{numbers, in_order}
use my_little_tool.Sort.Quick.{sort_two, swap_if_less}
use my_little_tool.Sort.Quick.Inward.{
  inward_down, inward_up, inward_loop, median_left, quick_sort3_range, quick_sort3,
}
use my_little_tool.Sort.Quick.Inward.Sorting.{quick_sort3-Sorts}

quick_sort3_runs : quick_sort3 numbers ≡ ok in_order
unfolding load store swap_elems sort_two swap_if_less inward_down inward_up inward_loop median_left
    quick_sort3_range quick_sort3
quick_sort3_runs = refl

quick_sort3-Sorts_example : Returns (quick_sort3 numbers) (Sorts numbers)
quick_sort3-Sorts_example = quick_sort3-Sorts numbers
