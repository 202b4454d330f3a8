-- ===== src/Sort/Heap.antt =====
-- Sort/heap_sort.c: heapsort. The array's length is the argument `len`.
-- `2*parent+1` is an `int`, and a value outside `int` is a fault.
pub mod Order
pub mod Sift
pub mod Sorting
mod Tests
use my_little_tool.Prelude.{
  int_result, ℕ, zero, suc, ◌+◌, ◌-◌, ◌*◌, ◌/◌, ltb, ltb_ℤ, ◌==◌, if◌then◌else◌, length, Run, ok,
  fault, out_of_fuel, ◌>>=◌, for_down,
}
use my_little_tool.Sort.Array.{Array, load, swap_elems}

-- `if (son+1 < len && ptr[son+1] > ptr[son]) son += 1;`
pub larger_son : Array → ℕ → ℕ → Run ℕ
larger_son a len son =
    let compare_sons : Run ℕ = do
      y ← load a (son + 1)
      x ← load a son
      ok (if ltb_ℤ x y then son + 1 else son)
    in if ltb (son + 1) len then compare_sons else ok son

-- The `while (son < len)` of `heap_shift_down`, with `son = 2*parent+1` computed on entry.
pub shift_down_loop : ℕ → Array → ℕ → ℕ → Run Array
shift_down_loop zero a len parent = fault out_of_fuel
shift_down_loop (suc fuel) a len parent = do
  son ← int_result (2 * parent + 1)
  let sink : Run Array = do
    son' ← larger_son a len son
    x ← load a parent
    y ← load a son'
    let next = swap_elems a parent son' >>= λ b. shift_down_loop fuel b len son'
    if ltb_ℤ y x then ok a else next
  if ltb son len then sink else ok a

pub heap_shift_down : Array → ℕ → ℕ → Run Array
heap_shift_down a len pos = shift_down_loop (len + 1) a len pos

-- The body of the second `for`.
pub extract : ℕ → Array → Run Array
extract i a = swap_elems a i 0 >>= λ b. heap_shift_down b i 0

pub heap_sort : Array → Run Array
heap_sort a =
    let sort : Run Array = do
      b ← for_down (length a / 2) (λ i c. heap_shift_down c (length a) i) a
      for_down (length a - 1) (λ n c. extract (suc n) c) b
    in if length a == 0 then ok a else sort
