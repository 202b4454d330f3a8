-- ===== src/Sort/Insertion/Tests.antt =====
-- Runs of the functions of Sort/insert_sort.c, and their theorems at an array.
use my_little_tool.Prelude.{◌≡◌, refl, arith, [], ok, fault, assert_failed, Returns, for_up}
use my_little_tool.Sort.Array.{load, store, Sorts}
use my_little_tool.Sort.Samples.{numbers, in_order}
use my_little_tool.Sort.Insertion.{
  shift, insert_step, insert_sort, shift_gap, gap_step, gap_pass, gap_loop, prime_index,
  shell_insert_sort, shell_insert_sort_partitionbyprime,
}
use my_little_tool.Sort.Insertion.Shell.{insert_sort-Sorts, shell_insert_sort-Sorts}

insert_sort_runs : insert_sort numbers ≡ ok in_order
unfolding load store for_up shift insert_step insert_sort
insert_sort_runs = refl

shell_insert_sort_runs : shell_insert_sort numbers ≡ ok in_order
unfolding load store for_up shift_gap gap_step gap_pass gap_loop shell_insert_sort
shell_insert_sort_runs = refl

shell_insert_sort_partitionbyprime_runs : shell_insert_sort_partitionbyprime numbers ≡ ok in_order
unfolding load store for_up shift_gap gap_step gap_pass gap_loop prime_index
    shell_insert_sort_partitionbyprime
shell_insert_sort_partitionbyprime_runs = refl

insert_sort_empty : insert_sort [] ≡ fault assert_failed
unfolding insert_sort
insert_sort_empty = refl

insert_sort-Sorts_example : Returns (insert_sort numbers) (Sorts numbers)
insert_sort-Sorts_example = insert_sort-Sorts numbers (omega arith)

shell_insert_sort-Sorts_example : Returns (shell_insert_sort numbers) (Sorts numbers)
shell_insert_sort-Sorts_example = shell_insert_sort-Sorts numbers (omega arith)
