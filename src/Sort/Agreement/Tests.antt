-- ===== src/Sort/Agreement/Tests.antt =====
-- The comparison of the sorting functions at one array.
use my_little_tool.Prelude.{◌≡◌, pos, negsuc, [], ◌∷◌, arith, IsInt, length}
use my_little_tool.Sort.Array.{Array, AllOn}
use my_little_tool.Sort.Array.Access.{AllOn-nil, AllOn-cons}
use my_little_tool.Sort.Insertion.{
  insert_sort, shell_insert_sort, shell_insert_sort_partitionbyprime,
}
use my_little_tool.Sort.Exchange.{bubble_sort, select_sort}
use my_little_tool.Sort.Heap.{heap_sort}
use my_little_tool.Sort.Quick.{quick_sort, quick_sort2, better_quick_sort}
use my_little_tool.Sort.Quick.Repeated.{better_quick_sort2, better_quick_sort3}
use my_little_tool.Sort.Quick.Inward.{quick_sort3}
use my_little_tool.Sort.Agreement.Everywhere.{sorts_agree}

abbrev three : Array
three = pos 7 ∷ negsuc 4 ∷ pos 7 ∷ []

three-IsInt : AllOn IsInt 0 (length three) three
three-IsInt =
    AllOn-cons IsInt _ _ (omega arith, omega arith)
      (AllOn-cons IsInt _ _ (omega arith, omega arith)
        (AllOn-cons IsInt _ _ (omega arith, omega arith) (AllOn-nil IsInt)))

sorts_agree_example :
    (shell_insert_sort three ≡ insert_sort three)
    × (shell_insert_sort_partitionbyprime three ≡ insert_sort three)
    × (bubble_sort three ≡ insert_sort three)
    × (select_sort three ≡ insert_sort three)
    × (heap_sort three ≡ insert_sort three)
    × (quick_sort three ≡ insert_sort three)
    × (quick_sort2 three ≡ insert_sort three)
    × (quick_sort3 three ≡ insert_sort three)
    × (better_quick_sort three ≡ insert_sort three)
    × (better_quick_sort2 three ≡ insert_sort three)
    × (better_quick_sort3 three ≡ insert_sort three)
sorts_agree_example = sorts_agree three (omega arith) (omega arith) three-IsInt
