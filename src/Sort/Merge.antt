-- ===== src/Sort/Merge.antt =====
-- Sort/merge_sort.c: merging two neighbouring ascending ranges into a second array, and the
-- recursive merge sort. Ends of ranges are exclusive here, one more than in the source.
pub mod Prefix
pub mod Step
pub mod Sorting
pub mod Rounds
mod Tests
use my_little_tool.Prelude.{
  ◌>>=◌, ℕ, zero, suc, ◌+◌, ◌-◌, ◌/◌, ltb, leb, ltb_ℤ, ◌==◌, ◌&&◌, if◌then◌else◌, length, Run, ok,
  fault, assert_failed, out_of_fuel,
}
use my_little_tool.Sort.Array.{Array, load, store}

-- `while (start1 <= mid && start2 <= end)
--      result[k++] = ptr[start1] < ptr[start2] ? ptr[start1++] : ptr[start2++];`
-- on `(result, start1, start2, k)`
unfoldable pub merge_loop : ℕ → Array → ℕ → ℕ → Array × ℕ × ℕ × ℕ → Run (Array × ℕ × ℕ × ℕ)
merge_loop zero ptr mid hi s = fault out_of_fuel
merge_loop (suc fuel) ptr mid hi (result, start1, start2, k) =
    let round : Run (Array × ℕ × ℕ × ℕ) = do
      x ← load ptr start1
      y ← load ptr start2
      let first : Run (Array × ℕ × ℕ × ℕ) = do
        result' ← store result k x
        merge_loop fuel ptr mid hi (result', start1 + 1, start2, k + 1)
      let second : Run (Array × ℕ × ℕ × ℕ) = do
        result' ← store result k y
        merge_loop fuel ptr mid hi (result', start1, start2 + 1, k + 1)
      if ltb_ℤ x y then first else second
    in if ltb start1 mid && ltb start2 hi then round else ok (result, start1, start2, k)

-- `while (start1 <= mid) result[k++] = ptr[start1++];` with `n = mid + 1 - start1`, and the
-- last `k`
unfoldable pub copy_rest : ℕ → Array → ℕ → Array × ℕ → Run (Array × ℕ)
copy_rest zero ptr start (result, k) = ok (result, k)
copy_rest (suc n) ptr start (result, k) = do
  x ← load ptr start
  result' ← store result k x
  copy_rest n ptr (start + 1) (result', k + 1)

-- The three loops, from `[beg, mid)` and `[mid, hi)` of `ptr` into `[beg, hi)` of `result`.
unfoldable pub merge_ranges : Array → Array → ℕ → ℕ → ℕ → Run Array
merge_ranges ptr result beg mid hi = do
  (result1, start1, start2, k1) ← merge_loop (hi - beg + 1) ptr mid hi (result, beg, mid, beg)
  (result2, k2) ← copy_rest (mid - start1) ptr start1 (result1, k1)
  (result3, k3) ← copy_rest (hi - start2) ptr start2 (result2, k2)
  ok result3

-- `memcpy(to+beg, from+beg, n*sizeof(int))`
unfoldable pub memcpy : ℕ → Array → ℕ → Array → Run Array
memcpy n from beg to = do (to', k) ← copy_rest n from beg (to, beg); ok to'

-- `_recursive_merge_sort`, on `(ptr, result)`
pub recursive_merge_range : ℕ → Array × Array → ℕ → ℕ → Run (Array × Array)
recursive_merge_range zero s beg hi = fault out_of_fuel
recursive_merge_range (suc fuel) s beg hi =
    let divide : Run (Array × Array) = do
      let mid = beg + (hi - 1 - beg) / 2 + 1
      s1 ← recursive_merge_range fuel s beg mid
      (ptr, result) ← recursive_merge_range fuel s1 mid hi
      result' ← merge_ranges ptr result beg mid hi
      ptr' ← memcpy (hi - beg) result' beg ptr
      ok (ptr', result')
    in if leb hi (beg + 1) then ok s else divide

-- `memory` is what `malloc` returns: as long as the array, with any content.
pub recursive_merge_sort : Array → Array → Run Array
recursive_merge_sort memory a =
    let sort : Run Array = do
      (ptr, result) ← recursive_merge_range (length a + 1) (a, memory) 0 (length a)
      memcpy (length a) result 0 ptr
    in if length a == 0 then fault assert_failed else sort
