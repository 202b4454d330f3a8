-- ===== src/Sort/Insertion.antt =====
-- Sort/insert_sort.c: straight insertion, and Shell's sort with two gap sequences.
-- The array's length is the argument `len`; an empty array fails the `assert`.
-- A shift moves a hole down: the value that is being inserted stands aside in `temp`.
pub mod Slot
pub mod Gap
pub mod Shell
mod Tests
use my_little_tool.Prelude.{
  ℕ, zero, suc, ◌+◌, ◌-◌, ◌/◌, ◌^◌, Bool, ℤ, ltb, leb, ltb_ℤ, ◌==◌, if◌then◌else◌, length, Run, ok,
  fault, assert_failed, out_of_fuel, ◌>>=◌, for_up,
}
use my_little_tool.Sort.Array.{Array, load, store}

-- `for (j = i; j > 0 && ptr[j-1] > temp; j--) ptr[j] = ptr[j-1];` and the last `j`
pub shift : Array → ℤ → ℕ → Run (Array × ℕ)
shift a temp zero = ok (a, 0)
shift a temp (suc k) = do
  x ← load a k
  let next = store a (suc k) x >>= λ b. shift b temp k
  if ltb_ℤ temp x then next else ok (a, suc k)

-- The body of the outer `for`.
pub insert_step : ℕ → Array → Run Array
insert_step i a = do
  x ← load a i
  y ← load a (i - 1)
  let move : Run Array = do (b, j) ← shift a x i; store b j x
  if ltb_ℤ x y then move else ok a

pub insert_sort : Array → Run Array
insert_sort a = if length a == 0 then fault assert_failed else for_up (length a - 1) 1 insert_step a

-- `for (k = j; k >= gap && ptr[k-gap] > temp; k -= gap) ptr[k] = ptr[k-gap];` and the last `k`
pub shift_gap : ℕ → ℕ → Array → ℤ → ℕ → Run (Array × ℕ)
shift_gap zero gap a temp k = fault out_of_fuel
shift_gap (suc fuel) gap a temp k =
    let step : Run (Array × ℕ) = do
      x ← load a (k - gap)
      let next = store a k x >>= λ b. shift_gap fuel gap b temp (k - gap)
      if ltb_ℤ temp x then next else ok (a, k)
    in if leb gap k then step else ok (a, k)

pub gap_step : ℕ → ℕ → Array → Run Array
gap_step gap j a = do temp ← load a j; (b, k) ← shift_gap (j + 1) gap a temp j; store b k temp

-- `for (j = gap; j < len; j++)`
pub gap_pass : ℕ → Array → Run Array
gap_pass gap a = for_up (length a - gap) gap (gap_step gap) a

-- `for (gap = start; gap > 0; gap = next(gap))`
pub gap_loop : ℕ → (ℕ → ℕ) → ℕ → Array → Run Array
gap_loop zero next gap a = fault out_of_fuel
gap_loop (suc fuel) next gap a =
    let round = gap_pass gap a >>= λ b. gap_loop fuel next (next gap) b in
    if gap == 0 then ok a else round

pub shell_insert_sort : Array → Run Array
shell_insert_sort a =
    if length a == 0
    then fault assert_failed
    else gap_loop (length a) (λ gap. gap / 2) (length a / 2) a

-- `for (; pow(2,idx)-1 < len; idx++);` and the last `idx`. The `double`s are exact here.
pub prime_index : ℕ → ℕ → ℕ → Run ℕ
prime_index zero len idx = fault out_of_fuel
prime_index (suc fuel) len idx =
    let next = prime_index fuel len (idx + 1) in if ltb (2 ^ idx - 1) len then next else ok idx

pub shell_insert_sort_partitionbyprime : Array → Run Array
shell_insert_sort_partitionbyprime a = if length a == 0 then fault assert_failed else do
  idx ← prime_index (length a + 1) (length a) 1
  gap_loop (length a + 1) (λ gap. (gap - 1) / 2) (2 ^ (idx - 1) - 1) a
