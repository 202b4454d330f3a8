-- ===== src/Sort/Driver/Tests.antt =====
-- The check and the loop of `main` at concrete arrays.
use my_little_tool.Prelude.{
  ℕ, ◌+◌, ◌*◌, ◌<◌, ◌≡◌, ◌↔◌, refl, arith, pos, true, false, length, length-replicate, replicate,
  ok, Returns,
}
use my_little_tool.Sort.Array.{Array, at, load, IsSortedOn}
use my_little_tool.Sort.Samples.{numbers, numbers-fit, numbers-differ, in_order}
use my_little_tool.Sort.Insertion.{insert_sort}
use my_little_tool.Sort.Insertion.Shell.{insert_sort-Sorts}
use my_little_tool.Sort.Driver.{not_drawn, check, ascends, mark_sorts, arry, get_orderred_number}
use my_little_tool.Sort.Driver.Drawing.{IsDrawn, not_drawn-IsDrawn}
use my_little_tool.Sort.Driver.Marks.{check_iff, arry-right}
use my_little_tool.Sort.Driver.Ordered.{at-get_orderred_number}

abbrev sevens : ℕ → ℕ
sevens k = 7 * k + 3

abbrev memory : ℕ → ℕ → Array
memory k n = replicate n (pos k)

abbrev memory_at : ℕ → ℕ → ℕ → Array
memory_at exp start n = replicate n (pos start)

check_numbers : check sevens numbers not_drawn ≡ ok (false, not_drawn)
unfolding check ascends load
check_numbers = refl

check_iff_example :
    Returns
      (check sevens in_order not_drawn)
      (λ r. ((r.0 ≡ true) ↔ IsSortedOn 0 (length in_order) in_order) × IsDrawn in_order r.1)
check_iff_example = check_iff sevens in_order not_drawn (not_drawn-IsDrawn in_order)

arry-right_example :
    mark_sorts sevens numbers (arry memory memory_at insert_sort) not_drawn ≡ ok (replicate 14 true)
arry-right_example =
    arry-right sevens memory memory_at insert_sort numbers (λ k n. length-replicate n (pos k))
      (λ exp start n. length-replicate n (pos start)) (omega arith) (omega arith) numbers-fit
      numbers-differ (insert_sort-Sorts numbers (omega arith))

at-get_orderred_number_example :
    Returns
      (get_orderred_number sevens (memory 0 100000))
      (λ a. (length a ≡ 100000) × ((i : ℕ) → i < 100000 → at a i ≡ pos (1 + i)))
at-get_orderred_number_example =
    at-get_orderred_number sevens (memory 0 100000) (length-replicate 100000 (pos 0))
