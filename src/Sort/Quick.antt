-- ===== src/Sort/Quick.antt =====
-- Sort/quick_sort.c: seven versions of quicksort, with their partition loops.
-- A range `left .. right` of the source is `left .. hi` here, with `hi` for `right + 1`, since
-- `right` may be -1; so is `pos_left` of `deal_repeat`. The array's length is the argument `len`.
pub mod Scan
pub mod Hole
pub mod Split
pub mod Sides
pub mod Median
pub mod Sorting
pub mod Repeated
pub mod Inward
mod Tests
use my_little_tool.Prelude.{
  ℕ, zero, suc, ◌+◌, ◌-◌, ◌/◌, ℤ, ltb, leb, ltb_ℤ, leb_ℤ, ◌==◌, if◌then◌else◌, length, Run, ok,
  fault, assert_failed, out_of_fuel, ◌>>=◌,
}
use my_little_tool.Sort.Array.{Array, load, store, swap_elems}

-- `if (1 == right - left && ptr[left] > ptr[right]) Swap(ptr[left], ptr[right]);`
pub sort_two : Array → ℕ → ℕ → Run Array
sort_two a left hi =
    let order : Run Array = do
      x ← load a left
      y ← load a (hi - 1)
      if ltb_ℤ y x then swap_elems a left (hi - 1) else ok a
    in if hi == left + 2 then order else ok a

-- `while (start1 < start2 && ptr[start2] >= pivot) start2--;` with `n = start2 - start1`
pub scan_down : ℕ → Array → ℤ → ℕ → Run ℕ
scan_down zero a pivot start2 = ok start2
scan_down (suc n) a pivot start2 = do
  x ← load a start2
  let next = scan_down n a pivot (start2 - 1)
  if leb_ℤ pivot x then next else ok start2

-- `while (start1 < start2 && ptr[start1] <= pivot) start1++;` with `n = start2 - start1`
pub scan_up : ℕ → Array → ℤ → ℕ → Run ℕ
scan_up zero a pivot start1 = ok start1
scan_up (suc n) a pivot start1 = do
  x ← load a start1
  let next = scan_up n a pivot (start1 + 1)
  if leb_ℤ x pivot then next else ok start1

-- `if (start1 < start2) ptr[start1++] = ptr[start2];` and the new `start1`
pub fill_left : Array → ℕ → ℕ → Run (Array × ℕ)
fill_left a start1 start2 =
    let fill : Run (Array × ℕ) = do x ← load a start2; b ← store a start1 x; ok (b, start1 + 1)
    in if ltb start1 start2 then fill else ok (a, start1)

-- `if (start1 < start2) ptr[start2--] = ptr[start1];` and the new `start2`
pub fill_right : Array → ℕ → ℕ → Run (Array × ℕ)
fill_right a start1 start2 =
    let fill : Run (Array × ℕ) = do x ← load a start1; b ← store a start2 x; ok (b, start2 - 1)
    in if ltb start1 start2 then fill else ok (a, start2)

-- The loop of `_quick_sort`, whose hole is at `start1` when a round begins. Returns the array
-- and the last `start1`.
pub hole_left_loop : ℕ → Array → ℤ → ℕ → ℕ → Run (Array × ℕ)
hole_left_loop zero a pivot start1 start2 = fault out_of_fuel
hole_left_loop (suc fuel) a pivot start1 start2 =
    let round : Run (Array × ℕ) = do
      start2' ← scan_down (start2 - start1) a pivot start2
      (b, start1') ← fill_left a start1 start2'
      start1'' ← scan_up (start2' - start1') b pivot start1'
      (c, start2'') ← fill_right b start1'' start2'
      hole_left_loop fuel c pivot start1'' start2''
    in if ltb start1 start2 then round else ok (a, start1)

-- The loop of the versions that take the pivot from the right, whose hole is at `start2`.
pub hole_right_loop : ℕ → Array → ℤ → ℕ → ℕ → Run (Array × ℕ)
hole_right_loop zero a pivot start1 start2 = fault out_of_fuel
hole_right_loop (suc fuel) a pivot start1 start2 =
    let round : Run (Array × ℕ) = do
      start1' ← scan_up (start2 - start1) a pivot start1
      (b, start2') ← fill_right a start1' start2
      start2'' ← scan_down (start2' - start1') b pivot start2'
      (c, start1'') ← fill_left b start1' start2''
      hole_right_loop fuel c pivot start1'' start2''
    in if ltb start1 start2 then round else ok (a, start1)

-- `_quick_sort`
pub quick_sort_range : ℕ → Array → ℕ → ℕ → Run Array
quick_sort_range zero a left hi = fault out_of_fuel
quick_sort_range (suc fuel) a left hi =
    let divide : Run Array = do
      pivot ← load a left
      (b, start1) ← hole_left_loop (hi - left) a pivot left (hi - 1)
      c ← store b start1 pivot
      d ← quick_sort_range fuel c left start1
      quick_sort_range fuel d (start1 + 1) hi
    in if leb hi (left + 2) then sort_two a left hi else divide

pub quick_sort : Array → Run Array
quick_sort a =
    if length a == 0 then fault assert_failed else quick_sort_range (length a + 1) a 0 (length a)

-- `_quick_sort2`
pub quick_sort2_range : ℕ → Array → ℕ → ℕ → Run Array
quick_sort2_range zero a left hi = fault out_of_fuel
quick_sort2_range (suc fuel) a left hi =
    let divide : Run Array = do
      pivot ← load a (hi - 1)
      (b, start2) ← hole_right_loop (hi - left) a pivot left (hi - 1)
      c ← store b start2 pivot
      d ← quick_sort2_range fuel c left start2
      quick_sort2_range fuel d (start2 + 1) hi
    in if leb hi (left + 2) then sort_two a left hi else divide

pub quick_sort2 : Array → Run Array
quick_sort2 a =
    if length a == 0 then fault assert_failed else quick_sort2_range (length a + 1) a 0 (length a)

-- `if (ptr[i] < ptr[j]) Swap(ptr[i], ptr[j]);`
pub swap_if_less : Array → ℕ → ℕ → Run Array
swap_if_less a i j = do x ← load a i; y ← load a j; if ltb_ℤ x y then swap_elems a i j else ok a

-- `choose_right`: the median of three goes to the right end.
pub choose_right : Array → ℕ → ℕ → Run Array
choose_right a left hi = do
  let right = hi - 1
  let mid = left + (right - left) / 2
  b ← swap_if_less a mid left
  x ← load b right
  y ← load b mid
  let lower : Run Array = swap_elems b right mid >>= λ c. swap_if_less c mid left
  c ← if ltb_ℤ x y then lower else ok b
  swap_elems c mid right

-- `partition`; the same lines stand in `_better_quick_sort` and `_better_quick_sort2`
pub partition : Array → ℕ → ℕ → Run (Array × ℕ)
partition a left hi = do
  b ← choose_right a left hi
  pivot ← load b (hi - 1)
  (c, start1) ← hole_right_loop (hi - left) b pivot left (hi - 1)
  d ← store c start1 pivot
  ok (d, start1)

-- `_better_quick_sort`
pub better_quick_sort_range : ℕ → Array → ℕ → ℕ → Run Array
better_quick_sort_range zero a left hi = fault out_of_fuel
better_quick_sort_range (suc fuel) a left hi =
    let divide : Run Array = do
      (b, start1) ← partition a left hi
      c ← better_quick_sort_range fuel b left start1
      better_quick_sort_range fuel c (start1 + 1) hi
    in if leb hi (left + 2) then sort_two a left hi else divide

pub better_quick_sort : Array → Run Array
better_quick_sort a =
    if length a == 0
    then fault assert_failed
    else better_quick_sort_range (length a + 1) a 0 (length a)
