-- ===== src/Sort/Merge/Rounds.antt =====
-- Sort/merge_sort.c, `merge_sort`: rounds that merge neighbouring blocks of `seg` entries.
pub mod Blocks
mod Tests
use my_little_tool.Prelude.{
  ◌>>=◌, int_result, ℕ, zero, suc, ◌+◌, ◌-◌, ◌*◌, Bool, false, not, ltb, ◌==◌, if◌then◌else◌,
  length, Run, ok, fault, out_of_fuel,
}
use my_little_tool.Sort.Array.{Array}
use my_little_tool.Sort.Merge.{merge_ranges, memcpy}

-- `Min(x, y)`
unfoldable pub min_of : ℕ → ℕ → ℕ
min_of x y = if ltb x y then x else y

-- The inner `for`, with `right` and the end of the second range computed as in the source.
pub merge_blocks : ℕ → ℕ → Array → ℕ → Array → Run Array
merge_blocks zero seg a start result = fault out_of_fuel
merge_blocks (suc fuel) seg a start result =
    let round : Run Array = do
      next ← int_result (start + 2 * seg)
      let right = min_of (start + seg) (length a - 1)
      let left_end = min_of (right - 1) (length a - 1)
      let right_end = min_of (next - 1) (length a - 1)
      result' ← merge_ranges a result start (left_end + 1) (right_end + 1)
      merge_blocks fuel seg a next result'
    in if ltb start (length a) then round else ok result

-- The outer `for`, on `(a, result)` and whether `a` is the allocated array.
pub merge_rounds : ℕ → ℕ → Array × Array × Bool → Run (Array × Array × Bool)
merge_rounds zero seg s = fault out_of_fuel
merge_rounds (suc fuel) seg (a, result, swapped) =
    let round : Run (Array × Array × Bool) = do
      result' ← merge_blocks (length a + 1) seg a 0 result
      seg' ← int_result (seg * 2)
      merge_rounds fuel seg' (result', a, not swapped)
    in if ltb seg (length a) then round else ok (a, result, swapped)

-- `memory` is what `malloc` returns: as long as the array, with any content.
pub merge_sort : Array → Array → Run Array
merge_sort memory ptr =
    let sort : Run Array = do
      (a, result, swapped) ← merge_rounds (length ptr + 1) 1 (ptr, memory, false)
      let copied = memcpy (length ptr) a 0 result
      if swapped then copied else ok a
    in if length ptr == 0 then ok ptr else sort
