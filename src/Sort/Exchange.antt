-- ===== src/Sort/Exchange.antt =====
-- Sort/bubble_sort.c and Sort/select_sort.c, which exchange two entries by three exclusive ors.
-- The array's length is the argument `len`.
pub mod Swap
pub mod Bubble
pub mod Select
mod Tests
use my_little_tool.Prelude.{
  ℕ, ◌+◌, ◌-◌, ltb_ℤ, ◌==◌, if◌then◌else◌, length, Run, ok, ◌>>=◌, for_up, xor_int,
}
use my_little_tool.Sort.Array.{Array, load, store}

-- `ptr[i] ^= ptr[j];`
pub xor_into : Array → ℕ → ℕ → Run Array
xor_into a i j = do x ← load a i; y ← load a j; store a i (xor_int x y)

-- `ptr[i] ^= ptr[j]; ptr[j] ^= ptr[i]; ptr[i] ^= ptr[j];`
pub xor_swap : Array → ℕ → ℕ → Run Array
xor_swap a i j = do b ← xor_into a i j; c ← xor_into b j i; xor_into c i j

-- The body of the inner `for` of `bubble_sort`.
pub bubble_step : ℕ → Array → Run Array
bubble_step j a = do
  x ← load a j
  y ← load a (j + 1)
  let swapped = xor_swap a j (j + 1)
  if ltb_ℤ y x then swapped else ok a

-- `for (j = 0; j < len-i-1; j++)`
pub bubble_pass : ℕ → Array → Run Array
bubble_pass i a = for_up (length a - i - 1) 0 bubble_step a

-- `for (i = 0; i < len-1; i++)`
pub bubble_sort : Array → Run Array
bubble_sort a = for_up (length a - 1) 0 bubble_pass a

-- `if (ptr[j] < ptr[select]) select = j;`
pub select_step : Array → ℕ → ℕ → Run ℕ
select_step a j select = do x ← load a j; y ← load a select; ok (if ltb_ℤ x y then j else select)

-- The body of the outer `for` of `select_sort`.
pub select_round : ℕ → Array → Run Array
select_round i a = do
  select ← for_up (length a - (i + 1)) (i + 1) (select_step a) i
  let swapped = xor_swap a i select
  if i == select then ok a else swapped

-- `for (i = 0; i < len-1; i++)`
pub select_sort : Array → Run Array
select_sort a = for_up (length a - 1) 0 select_round a
