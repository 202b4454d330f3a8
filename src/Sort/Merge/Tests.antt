-- ===== src/Sort/Merge/Tests.antt =====
-- A run of the recursive merge sort, and its theorems at an array.
use my_little_tool.Prelude.{◌≡◌, refl, arith, pos, [], ◌∷◌, ok, Returns}
use my_little_tool.Sort.Array.{Array, load, store, Sorts}
use my_little_tool.Sort.Samples.{numbers, in_order}
use my_little_tool.Sort.Merge.{
  merge_loop, copy_rest, merge_ranges, memcpy, recursive_merge_range, recursive_merge_sort,
}
use my_little_tool.Sort.Merge.Sorting.{recursive_merge_sort-Sorts, recursive_merge_sort_one}

recursive_merge_sort_runs : recursive_merge_sort in_order numbers ≡ ok in_order
unfolding load store merge_loop copy_rest merge_ranges memcpy recursive_merge_range
    recursive_merge_sort
recursive_merge_sort_runs = refl

recursive_merge_sort-Sorts_example : Returns (recursive_merge_sort in_order numbers) (Sorts numbers)
recursive_merge_sort-Sorts_example = recursive_merge_sort-Sorts in_order numbers refl (omega arith)

recursive_merge_sort_one_example :
    recursive_merge_sort (pos 99 ∷ []) (pos 5 ∷ []) ≡ ok (pos 99 ∷ [])
recursive_merge_sort_one_example = recursive_merge_sort_one (pos 99) (pos 5)

abbrev halves : Array
halves = pos 2 ∷ pos 7 ∷ pos 1 ∷ pos 9 ∷ []
