-- ===== src/Sort/Agreement/Everywhere.antt =====
-- The sorting functions of Sort/, compared with each other.
use my_little_tool.Prelude.{arith, ◌≤◌, ◌<◌, ◌^◌, ◌≡◌, length, IsInt}
use my_little_tool.Sort.Array.{Array, AllOn}
use my_little_tool.Sort.Agreement.{same_result}
use my_little_tool.Sort.Insertion.{
  insert_sort, shell_insert_sort, shell_insert_sort_partitionbyprime,
}
use my_little_tool.Sort.Insertion.Shell.{
  insert_sort-Sorts, shell_insert_sort-Sorts, shell_insert_sort_partitionbyprime-Sorts,
}
use my_little_tool.Sort.Exchange.{bubble_sort, select_sort}
use my_little_tool.Sort.Exchange.Bubble.{bubble_sort-Sorts}
use my_little_tool.Sort.Exchange.Select.{select_sort-Sorts}
use my_little_tool.Sort.Merge.{recursive_merge_sort}
use my_little_tool.Sort.Merge.Rounds.{merge_sort}
use my_little_tool.Sort.Merge.Sorting.{recursive_merge_sort-Sorts}
use my_little_tool.Sort.Merge.Rounds.Blocks.{merge_sort-Sorts}
use my_little_tool.Sort.Heap.{heap_sort}
use my_little_tool.Sort.Heap.Sorting.{heap_sort-Sorts}
use my_little_tool.Sort.Quick.{quick_sort, quick_sort2, better_quick_sort}
use my_little_tool.Sort.Quick.Sorting.{quick_sort-Sorts, quick_sort2-Sorts, better_quick_sort-Sorts}
use my_little_tool.Sort.Quick.Repeated.{better_quick_sort2, better_quick_sort3}
use my_little_tool.Sort.Quick.Repeated.Sorting.{better_quick_sort2-Sorts, better_quick_sort3-Sorts}
use my_little_tool.Sort.Quick.Inward.{quick_sort3}
use my_little_tool.Sort.Quick.Inward.Sorting.{quick_sort3-Sorts}

-- On an array of `int`s that is not empty and has at most 2^30 entries, the three insertion
-- sorts, bubble sort, selection sort, heap sort and the six quicksorts end in the same array.
pub sorts_agree :
    (a : Array)
    → 0 < length a
    → length a ≤ 2 ^ 30
    → AllOn IsInt 0 (length a) a
    → (shell_insert_sort a ≡ insert_sort a)
      × (shell_insert_sort_partitionbyprime a ≡ insert_sort a)
      × (bubble_sort a ≡ insert_sort a)
      × (select_sort a ≡ insert_sort a)
      × (heap_sort a ≡ insert_sort a)
      × (quick_sort a ≡ insert_sort a)
      × (quick_sort2 a ≡ insert_sort a)
      × (quick_sort3 a ≡ insert_sort a)
      × (better_quick_sort a ≡ insert_sort a)
      × (better_quick_sort2 a ≡ insert_sort a)
      × (better_quick_sort3 a ≡ insert_sort a)
sorts_agree a h big fits =
    let sorted = insert_sort-Sorts a h in
    (
      same_result a _ _ (shell_insert_sort-Sorts a h) sorted,
      same_result a _ _ (shell_insert_sort_partitionbyprime-Sorts a h) sorted,
      same_result a _ _ (bubble_sort-Sorts a fits) sorted,
      same_result a _ _ (select_sort-Sorts a fits) sorted,
      same_result a _ _ (heap_sort-Sorts a big) sorted,
      same_result a _ _ (quick_sort-Sorts a h) sorted,
      same_result a _ _ (quick_sort2-Sorts a h) sorted,
      same_result a _ _ (quick_sort3-Sorts a) sorted,
      same_result a _ _ (better_quick_sort-Sorts a h) sorted,
      same_result a _ _ (better_quick_sort2-Sorts a h) sorted,
      same_result a _ _ (better_quick_sort3-Sorts a h) sorted,
    )

-- On an array of two to 2^29 entries, and whatever the memory that they allocate holds, the two
-- merge sorts end in the same array as `insert_sort`.
pub merge_sorts_agree :
    (memory a : Array)
    → length memory ≡ length a
    → 2 ≤ length a
    → length a ≤ 2 ^ 29
    → (merge_sort memory a ≡ insert_sort a) × (recursive_merge_sort memory a ≡ insert_sort a)
merge_sorts_agree memory a len two big =
    let sorted = insert_sort-Sorts a (omega arith) in
    (
      same_result a _ _ (merge_sort-Sorts memory a len big) sorted,
      same_result a _ _ (recursive_merge_sort-Sorts memory a len two) sorted,
    )
