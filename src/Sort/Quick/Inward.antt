-- ===== src/Sort/Quick/Inward.antt =====
-- Sort/quick_sort.c, `quick_sort3`: the pivot stays at the left end, and the two scans swap what
-- they find. Ranges are written with `hi` for `right + 1`.
pub mod Sorting
mod Tests
use my_little_tool.Prelude.{
  ℕ, zero, suc, ◌+◌, ◌-◌, ◌/◌, ℤ, ltb, leb, leb_ℤ, if◌then◌else◌, length, Run, ok, fault,
  out_of_fuel, ◌>>=◌,
}
use my_little_tool.Sort.Array.{Array, load, swap_elems}
use my_little_tool.Sort.Quick.{sort_two, swap_if_less}

-- `while (start1 < start2 && ptr[--start2] >= pivot);` with `n = start2 - start1`
pub inward_down : ℕ → Array → ℤ → ℕ → Run ℕ
inward_down zero a pivot start2 = ok start2
inward_down (suc n) a pivot start2 = do
  x ← load a (start2 - 1)
  let next = inward_down n a pivot (start2 - 1)
  if leb_ℤ pivot x then next else ok (start2 - 1)

-- `while (start1 < start2 && ptr[++start1] <= pivot);` with `n = start2 - start1`
pub inward_up : ℕ → Array → ℤ → ℕ → Run ℕ
inward_up zero a pivot start1 = ok start1
inward_up (suc n) a pivot start1 = do
  x ← load a (start1 + 1)
  let next = inward_up n a pivot (start1 + 1)
  if leb_ℤ x pivot then next else ok (start1 + 1)

-- `while (start1 < start2)`; returns the array and the last `start1`
pub inward_loop : ℕ → Array → ℤ → ℕ → ℕ → Run (Array × ℕ)
inward_loop zero a pivot start1 start2 = fault out_of_fuel
inward_loop (suc fuel) a pivot start1 start2 =
    let round : Run (Array × ℕ) = do
      start2' ← inward_down (start2 - start1) a pivot start2
      start1' ← inward_up (start2' - start1) a pivot start1
      b ← if ltb start1' start2' then swap_elems a start1' start2' else ok a
      inward_loop fuel b pivot start1' start2'
    in if ltb start1 start2 then round else ok (a, start1)

-- The first lines of `_quick_sort3`: order the three, then `Swap(ptr[mid], ptr[left])`.
pub median_left : Array → ℕ → ℕ → Run Array
median_left a left hi = do
  let right = hi - 1
  let mid = left + (right - left) / 2
  b ← swap_if_less a mid left
  c ← swap_if_less b right mid
  d ← swap_if_less c mid left
  swap_elems d mid left

-- `_quick_sort3`
pub quick_sort3_range : ℕ → Array → ℕ → ℕ → Run Array
quick_sort3_range zero a left hi = fault out_of_fuel
quick_sort3_range (suc fuel) a left hi =
    let divide : Run Array = do
      b ← median_left a left hi
      pivot ← load b left
      (c, start1) ← inward_loop (hi - left + 1) b pivot left hi
      d ← swap_elems c left start1
      e ← quick_sort3_range fuel d left start1
      quick_sort3_range fuel e (start1 + 1) hi
    in if leb hi (left + 2) then sort_two a left hi else divide

-- No `assert` here: short arrays are left as they are.
pub quick_sort3 : Array → Run Array
quick_sort3 a = if leb (length a) 1 then ok a else quick_sort3_range (length a + 1) a 0 (length a)
