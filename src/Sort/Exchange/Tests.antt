-- ===== src/Sort/Exchange/Tests.antt =====
-- Runs of the functions of Sort/bubble_sort.c and Sort/select_sort.c, and their theorems at an array.
use my_little_tool.Prelude.{xor_int, ◌≡◌, refl, arith, length, ok, Returns, for_up, IsInt}
use my_little_tool.Sort.Array.{load, store, Sorts}
use my_little_tool.Sort.Samples.{numbers, in_order}
use my_little_tool.Sort.Array.{AllOn}
use my_little_tool.Sort.Array.Access.{AllOn-nil, AllOn-cons}
use my_little_tool.Sort.Exchange.{
  xor_into, xor_swap, bubble_step, bubble_pass, bubble_sort, select_step, select_round, select_sort,
}
use my_little_tool.Sort.Exchange.Bubble.{bubble_sort-Sorts}

bubble_sort_runs : bubble_sort numbers ≡ ok in_order
unfolding load store for_up xor_int xor_into xor_swap bubble_step bubble_pass bubble_sort
bubble_sort_runs = refl

select_sort_runs : select_sort numbers ≡ ok in_order
unfolding load store for_up xor_int xor_into xor_swap select_step select_round select_sort
select_sort_runs = refl

numbers-IsInt : AllOn IsInt 0 (length numbers) numbers
numbers-IsInt =
    AllOn-cons IsInt _ _ (omega arith, omega arith)
      (AllOn-cons IsInt _ _ (omega arith, omega arith)
        (AllOn-cons IsInt _ _ (omega arith, omega arith)
          (AllOn-cons IsInt _ _ (omega arith, omega arith)
            (AllOn-cons IsInt _ _ (omega arith, omega arith)
              (AllOn-cons IsInt _ _ (omega arith, omega arith)
                (AllOn-cons IsInt _ _ (omega arith, omega arith) (AllOn-nil IsInt)))))))

bubble_sort-Sorts_example : Returns (bubble_sort numbers) (Sorts numbers)
bubble_sort-Sorts_example = bubble_sort-Sorts numbers numbers-IsInt
