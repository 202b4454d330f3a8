-- ===== src/Sort/Quick/Repeated.antt =====
-- Sort/quick_sort.c: the two versions that gather the entries equal to the pivot next to it.
-- `pos_left` of the source is the exclusive end `e` here, one more than in the source.
pub mod Gather
pub mod Sorting
mod Tests
use my_little_tool.Prelude.{
  ℕ, zero, suc, ◌+◌, ◌-◌, ltb, leb, eq_ℤ, ◌==◌, if◌then◌else◌, length, Run, ok, fault,
  assert_failed, out_of_fuel, ◌>>=◌, for_up, for_down,
}
use my_little_tool.Sort.Array.{Array, load, swap_elems}
use my_little_tool.Sort.Quick.{sort_two, partition}

-- The body of the first `for` of `deal_repeat`, with the running `*pos_left + 1`.
pub repeat_left : ℕ → ℕ → Array × ℕ → Run (Array × ℕ)
repeat_left pos i (a, e) = do
  p ← load a pos
  x ← load a i
  let moved : Run Array = if e - 1 == i then ok a else swap_elems a i (e - 1)
  if eq_ℤ p x then (moved >>= λ b. ok (b, e - 1)) else ok (a, e)

-- The body of the second `for`, with the running `*pos_right`.
pub repeat_right : ℕ → ℕ → Array × ℕ → Run (Array × ℕ)
repeat_right pos i (a, s) = do
  p ← load a pos
  x ← load a i
  let moved : Run Array = if s == i then ok a else swap_elems a i s
  if eq_ℤ p x then (moved >>= λ b. ok (b, s + 1)) else ok (a, s)

-- `for (i = pos-1; i >= left; i--)`, then `for (i = pos+1; i <= right; i++)`
pub deal_repeat : Array → ℕ → ℕ → ℕ → Run (Array × ℕ × ℕ)
deal_repeat a left pos hi = do
  (b, e) ← for_down (pos - left) (λ n. repeat_left pos (left + n)) (a, pos)
  (c, s) ← for_up (hi - (pos + 1)) (pos + 1) (repeat_right pos) (b, pos + 1)
  ok (c, e, s)

-- `_better_quick_sort2`
pub better_quick_sort2_range : ℕ → Array → ℕ → ℕ → Run Array
better_quick_sort2_range zero a left hi = fault out_of_fuel
better_quick_sort2_range (suc fuel) a left hi =
    let divide : Run Array = do
      (b, start1) ← partition a left hi
      (c, e, s) ← deal_repeat b left start1 hi
      let lower = better_quick_sort2_range fuel c left e
      d ← if ltb (left + 1) e then lower else ok c
      let upper = better_quick_sort2_range fuel d s hi
      if ltb (s + 1) hi then upper else ok d
    in if leb hi (left + 2) then sort_two a left hi else divide

pub better_quick_sort2 : Array → Run Array
better_quick_sort2 a =
    if length a == 0
    then fault assert_failed
    else better_quick_sort2_range (length a + 1) a 0 (length a)

-- `_better_quick_sort3`. The next round of its `while`, with a new `left` or `right`, is the
-- same as a call with these.
pub better_quick_sort3_range : ℕ → Array → ℕ → ℕ → Run Array
better_quick_sort3_range zero a left hi = fault out_of_fuel
better_quick_sort3_range (suc fuel) a left hi =
    let divide : Run Array = do
      (b, start1) ← partition a left hi
      (c, e, s) ← deal_repeat b left start1 hi
      let left_first : Run Array = do
        d ← better_quick_sort3_range fuel c left e
        better_quick_sort3_range fuel d s hi
      let right_first : Run Array = do
        d ← better_quick_sort3_range fuel c s hi
        better_quick_sort3_range fuel d left e
      if ltb (e + s) (hi + left) then left_first else right_first
    in let round = if leb hi (left + 2) then sort_two a left hi else divide in
      if ltb (left + 1) hi then round else ok a

pub better_quick_sort3 : Array → Run Array
better_quick_sort3 a =
    if length a == 0
    then fault assert_failed
    else better_quick_sort3_range (length a + 1) a 0 (length a)
