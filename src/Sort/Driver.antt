-- ===== src/Sort/Driver.antt =====
-- Sort/main_sort.c: the check of a sorted array, and the loop of `main` over the sorting functions.
-- `random k` is what the call number `k` of `random()` gives. Printing and clocks are left out.
pub mod Ascends
pub mod Ordered
pub mod Drawing
pub mod Marks
mod Tests
use my_little_tool.Prelude.{
  ℕ, zero, suc, ◌+◌, ◌-◌, ◌*◌, ◌/◌, ◌%◌, ◌==◌, Bool, true, false, not, List, [], ◌∷◌, pos, ltb_ℤ,
  eq_ℤ, ltb, leb, if◌then◌else◌, length, replicate, Run, ok, ◌>>=◌, fetch, assign, for_up,
}
use my_little_tool.Sort.Insertion.{shell_insert_sort, shell_insert_sort_partitionbyprime}
use my_little_tool.Sort.Merge.{recursive_merge_sort}
use my_little_tool.Sort.Merge.Rounds.{merge_sort}
use my_little_tool.Sort.Heap.{heap_sort}
use my_little_tool.Sort.Quick.{quick_sort, quick_sort2, better_quick_sort}
use my_little_tool.Sort.Quick.Repeated.{better_quick_sort2, better_quick_sort3}
use my_little_tool.Sort.Quick.Inward.{quick_sort3}
use my_little_tool.Sort.Radix.{radix_sort_lsd, radix_sort_msd}
use my_little_tool.Sort.Array.{Array, load, store}

abbrev pub check_counts : ℕ
check_counts = 50

-- The static variables, and how often `random()` was called.
pub record Drawn : Type 0 where
  pub has_check_number : Bool
  pub check_idx : List ℕ
  pub check_number : Array
  pub calls : ℕ

abbrev pub not_drawn : Drawn
not_drawn = record {
  has_check_number = false;
  check_idx = replicate 50 0;
  check_number = replicate 50 (pos 0);
  calls = 0;
}

-- `for( idx...; idx<len; idx++ ) if( ptr[idx]<ptr[idx-1] ) return 0;`, with `n` rounds to go
unfoldable pub ascends : ℕ → ℕ → Array → Run Bool
ascends zero idx ptr = ok true
ascends (suc n) idx ptr = do
  x ← load ptr idx
  y ← load ptr (idx - 1)
  let rest = ascends n (idx + 1) ptr
  if ltb_ℤ x y then ok false else rest

unfoldable pub draw : (ℕ → ℕ) → Array → ℕ → Drawn → Run Drawn
draw random ptr i s = do
  idx ← assign s.check_idx i (random s.calls % length ptr)
  k ← fetch idx i
  x ← load ptr k
  number ← store s.check_number i x
  ok (record s { check_idx = idx; check_number = number; calls = s.calls + 1 })

unfoldable pub sample_counts : ℕ → ℕ
sample_counts len = if ltb check_counts len then check_counts else len / 2

-- The comparison with what was drawn, with `n` rounds to go
unfoldable pub compare_drawn : ℕ → ℕ → Array → Drawn → Run Bool
compare_drawn zero i ptr s = ok true
compare_drawn (suc n) i ptr s = do
  k ← fetch s.check_idx i
  let rest = compare_drawn n (i + 1) ptr s
  if k == 0
      then rest
      else (do x ← load ptr k; y ← load s.check_number i; if eq_ℤ x y then rest else ok false)

unfoldable pub check : (ℕ → ℕ) → Array → Drawn → Run (Bool × Drawn)
check random ptr s = if leb (length ptr) 1 then ok (true, s) else (do
  up ← ascends (length ptr - 1) 1 ptr
  if not up
      then ok (false, s)
      else (if not s.has_check_number
          then (do
            s1 ← for_up (sample_counts (length ptr)) 0 (draw random ptr) s
            ok (true, record s1 { has_check_number = true }))
          else (do same ← compare_drawn check_counts 0 ptr s; ok (same, s))))

-- The loop of `main`: every function gets the same numbers, and `m_right` is what `Check` says.
unfoldable pub mark_sorts : (ℕ → ℕ) → Array → List (Array → Run Array) → Drawn → Run (List Bool)
mark_sorts random b [] s = ok []
mark_sorts random b (m_sort_fun ∷ arry) s = do
  ptr ← m_sort_fun b
  (m_right, s1) ← check random ptr s
  marks ← mark_sorts random b arry s1
  ok (m_right ∷ marks)

-- The functions that `main` measures, in its order: `qsort` is the C library's, and
-- `memory k n` what the `n` entries hold that the function number `k` allocates, with
-- `msd_memory` for those of `radix_sort_msd`.
unfoldable pub arry :
    (ℕ → ℕ → Array) → (ℕ → ℕ → ℕ → Array) → (Array → Run Array) → List (Array → Run Array)
arry memory msd_memory qsort =
    qsort
    ∷ (λ ptr. merge_sort (memory 1 (length ptr)) ptr)
    ∷ (λ ptr. recursive_merge_sort (memory 2 (length ptr)) ptr)
    ∷ quick_sort
    ∷ quick_sort2
    ∷ better_quick_sort
    ∷ better_quick_sort2
    ∷ better_quick_sort3
    ∷ quick_sort3
    ∷ shell_insert_sort
    ∷ shell_insert_sort_partitionbyprime
    ∷ heap_sort
    ∷ (λ ptr. radix_sort_lsd (memory 12 (length ptr)) ptr)
    ∷ radix_sort_msd msd_memory
    ∷ []

abbrev pub max_orderred_number : ℕ
max_orderred_number = 100000

-- `GetOrderredNumber`: the second loop goes on with the `i` of the first.
unfoldable pub get_orderred_number : (ℕ → ℕ) → Array → Run Array
get_orderred_number random orderred_number = do
  a ← for_up max_orderred_number 0 (λ i a. store a i (pos (1 + i))) orderred_number
  for_up (50 - max_orderred_number) max_orderred_number
      (λ i a. store a (random (2 * i) % max_orderred_number) (pos (random (2 * i + 1)))) a
