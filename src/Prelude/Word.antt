-- ===== src/Prelude/Word.antt =====
-- Machine words as natural numbers: the exclusive or of words, and C `int`s as 32-bit patterns.
pub mod Xor
pub mod And
use Prim.Native.Nat.{ℕ, suc, ◌+◌, ◌-◌, ◌^◌, ◌<◌, ◌≤◌, bit_xor}
use mathlib.Core.Path.{◌≡◌, refl, ◌∙◌}
use native.Mathlib.Omega.{arith}
use my_little_tool.Prelude.Tests.{ltb, if◌then◌else◌}
use my_little_tool.Prelude.Int.{ℤ, pos, negsuc, pos_part, neg_part}
use Xor.{bit_xor-lt, bit_xor_second, bit_xor_first, bit_xor_self}

-- A value that an `int` can hold.
abbrev pub IsInt : ℤ → Type 0
IsInt x = (pos_part x < 2 ^ 31) × (neg_part x ≤ 2 ^ 31)

-- The 32-bit pattern of an `int`, in two's complement.
unfoldable pub to_word : ℤ → ℕ
to_word (pos n) = n
to_word (negsuc n) = 2 ^ 32 - 1 - n

-- The `int` that a 32-bit pattern stands for.
unfoldable pub of_word : ℕ → ℤ
of_word w = if ltb w (2 ^ 31) then pos w else negsuc (2 ^ 32 - 1 - w)

-- `x ^ y`
unfoldable pub xor_int : ℤ → ℤ → ℤ
unfolding to_word of_word
xor_int x y = of_word (bit_xor (to_word x) (to_word y))

to_word-lt : (x : ℤ) → IsInt x → to_word x < 2 ^ 32
unfolding to_word
to_word-lt (pos n) h = omega arith
to_word-lt (negsuc n) h = omega arith

of_word-to_word : (x : ℤ) → IsInt x → of_word (to_word x) ≡ x
unfolding to_word of_word
of_word-to_word (pos n) h = ground arith
of_word-to_word (negsuc n) h = ground arith

to_word-of_word : (w : ℕ) → w < 2 ^ 32 → to_word (of_word w) ≡ w
unfolding to_word of_word
to_word-of_word w h = ground arith

pub of_word-IsInt : (w : ℕ) → w < 2 ^ 32 → IsInt (of_word w)
unfolding of_word
of_word-IsInt w h = ground arith

module _ (x y : ℤ) (hx : IsInt x) (hy : IsInt y) where
  to_word-xor_int : to_word (xor_int x y) ≡ bit_xor (to_word x) (to_word y)
  unfolding xor_int
  to_word-xor_int =
      to_word-of_word _ (bit_xor-lt 32 (to_word x) (to_word y) (to_word-lt x hx) (to_word-lt y hy))

  pub xor_int-IsInt : IsInt (xor_int x y)
  unfolding xor_int
  xor_int-IsInt =
      of_word-IsInt _ (bit_xor-lt 32 (to_word x) (to_word y) (to_word-lt x hx) (to_word-lt y hy))

  -- The second value comes out as the first,
  pub xor_int_second : xor_int y (xor_int x y) ≡ x
  unfolding xor_int
  xor_int_second =
      rw (to_word-xor_int, bit_xor_second (to_word x) (to_word y)) (of_word-to_word x hx)

  -- and the first as the second.
  pub xor_int_first : xor_int (xor_int x y) x ≡ y
  unfolding xor_int
  xor_int_first = rw (to_word-xor_int, bit_xor_first (to_word x) (to_word y)) (of_word-to_word y hy)

pub xor_int_self : (x : ℤ) → xor_int x x ≡ pos 0
unfolding xor_int of_word
xor_int_self x = rw (bit_xor_self (to_word x))
