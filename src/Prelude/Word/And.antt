-- ===== src/Prelude/Word/And.antt =====
-- The bitwise and of two numbers is at most the second.
use Prim.Native.Nat.{ℕ, zero, suc, ◌/◌, ◌≤◌, min, digits, bit_and, bit_and-bitwise}
use native.Mathlib.Omega.{arith}

-- Whatever the count of digits is that are looked at.
masked_le : (count a mask : ℕ) → digits (λ rest. zero) min count a mask ≤ mask
masked_le zero a mask = omega arith
masked_le (suc count) zero mask = omega arith
masked_le (suc count) (suc a) mask = omega (arith, masked_le count (suc a / 2) (mask / 2))

pub bit_and_le : (a mask : ℕ) → bit_and a mask ≤ mask
bit_and_le a mask = rw (bit_and-bitwise a mask) (masked_le a a mask)
