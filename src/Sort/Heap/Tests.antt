-- ===== src/Sort/Heap/Tests.antt =====
-- A run of `heap_sort`, and its theorems at an array.
use my_little_tool.Prelude.{int_result, ◌≡◌, refl, arith, ok, Returns, for_down}
use my_little_tool.Sort.Array.{load, store, swap_elems, Sorts}
use my_little_tool.Sort.Samples.{numbers, in_order}
use my_little_tool.Sort.Heap.{larger_son, shift_down_loop, heap_shift_down, extract, heap_sort}
use my_little_tool.Sort.Heap.Sorting.{heap_sort-Sorts}

heap_sort_runs : heap_sort numbers ≡ ok in_order
unfolding load store swap_elems for_down int_result larger_son shift_down_loop heap_shift_down
    extract heap_sort
heap_sort_runs = refl

heap_sort-Sorts_example : Returns (heap_sort numbers) (Sorts numbers)
heap_sort-Sorts_example = heap_sort-Sorts numbers (omega arith)
