-- ===== src/Sort/Merge/Rounds/Tests.antt =====
-- A run of `merge_sort`, and its theorem at an array.
use my_little_tool.Prelude.{int_result, ◌≡◌, refl, arith, ok, Returns}
use my_little_tool.Sort.Array.{load, store, Sorts}
use my_little_tool.Sort.Samples.{numbers, in_order}
use my_little_tool.Sort.Merge.{merge_loop, copy_rest, merge_ranges, memcpy}
use my_little_tool.Sort.Merge.Rounds.{min_of, merge_blocks, merge_rounds, merge_sort}
use my_little_tool.Sort.Merge.Rounds.Blocks.{merge_sort-Sorts}

merge_sort_runs : merge_sort in_order numbers ≡ ok in_order
unfolding load store merge_loop copy_rest merge_ranges memcpy int_result min_of merge_blocks
    merge_rounds merge_sort
merge_sort_runs = refl

merge_sort-Sorts_example : Returns (merge_sort in_order numbers) (Sorts numbers)
merge_sort-Sorts_example = merge_sort-Sorts in_order numbers refl (omega arith)
