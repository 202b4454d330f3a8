-- ===== src/Prelude/Word/Xor.antt =====
-- The exclusive or of numbers: its equation for the lowest digit, and the laws of the swap.
use Prim.Native.Nat.{
  ℕ, zero, suc, ◌+◌, ◌*◌, ◌/◌, ◌%◌, ◌^◌, ◌<◌, ◌≤◌, bit_xor, digits, differ, bit_xor-bitwise,
}
use mathlib.Core.Path.{◌≡◌, refl, ◌∙◌}
use mathlib.Core.Logic.{◌⊎◌, inl, inr}
use native.Mathlib.Nat.{pow-suc}
use native.Mathlib.Omega.{arith}

-- The count of digits to go is immaterial once it is large enough.
enough_digits :
    (z : ℕ → ℕ) (f : ℕ → ℕ → ℕ) (x y : ℕ) (fuel more : ℕ)
    → x ≤ more
    → x ≤ fuel
    → digits z f fuel x y ≡ digits z f more x y
enough_digits z f zero y zero zero h k = refl
enough_digits z f zero y zero (suc more) h k = refl
enough_digits z f zero y (suc fuel) zero h k = refl
enough_digits z f zero y (suc fuel) (suc more) h k = refl
enough_digits z f (suc x) y zero more h k = absurd (omega arith)
enough_digits z f (suc x) y (suc fuel) zero h k = absurd (omega arith)
enough_digits z f (suc x) y (suc fuel) (suc more) h k =
    rw (enough_digits z f (suc x / 2) (y / 2) fuel more (omega arith) (omega arith))

pub bit_xor_step : (a b : ℕ) → bit_xor a b ≡ bit_xor (a / 2) (b / 2) * 2 + differ (a % 2) (b % 2)
bit_xor_step zero b = simp bit_xor-bitwise (omega arith)
bit_xor_step (suc a) b = simp bit_xor-bitwise (
    omega (
      arith,
      enough_digits (λ b. b) differ (suc a / 2) (b / 2) a (suc a / 2) (omega arith) (omega arith),
    ))

abbrev IsBit : ℕ → Type 0
IsBit d = (d ≡ 0) ⊎ (d ≡ 1)

mod_two : (a : ℕ) → IsBit (a % 2)
mod_two a = omega arith

differ_bits :
    (x y : ℕ)
    → IsBit x
    → IsBit y
    → IsBit (differ x y)
      × (differ y (differ x y) ≡ x)
      × (differ (differ x y) x ≡ y)
      × (differ x x ≡ 0)
differ_bits x y (inl p) (inl q) = rw (p, q) (inl refl, refl, refl, refl)
differ_bits x y (inl p) (inr q) = rw (p, q) (inr refl, refl, refl, refl)
differ_bits x y (inr p) (inl q) = rw (p, q) (inr refl, refl, refl, refl)
differ_bits x y (inr p) (inr q) = rw (p, q) (inl refl, refl, refl, refl)

-- The lowest digit and the rest of an exclusive or.
xor_parts :
    (a b : ℕ)
    → (bit_xor a b / 2 ≡ bit_xor (a / 2) (b / 2)) × (bit_xor a b % 2 ≡ differ (a % 2) (b % 2))
xor_parts a b =
    let d = (differ_bits (a % 2) (b % 2) (mod_two a) (mod_two b)).0 in
    (omega (arith, bit_xor_step a b), omega (arith, bit_xor_step a b))

pub bit_xor-lt : (k a b : ℕ) → a < 2 ^ k → b < 2 ^ k → bit_xor a b < 2 ^ k
bit_xor-lt zero a b p q =
    (let ex : a ≡ 0 = omega arith in let ey : b ≡ 0 = omega arith in rw (ex, ey) (omega arith))
bit_xor-lt (suc k) a b p q =
    let d = (differ_bits (a % 2) (b % 2) (mod_two a) (mod_two b)).0 in
    omega (
      arith,
      bit_xor_step a b,
      pow-suc 2 k,
      bit_xor-lt k (a / 2) (b / 2) (omega (arith, pow-suc 2 k)) (omega (arith, pow-suc 2 k)),
    )

-- The three laws hold together, by induction on the digits.
xor_laws :
    (n x y : ℕ)
    → x ≤ n
    → y ≤ n
    → (bit_xor y (bit_xor x y) ≡ x) × (bit_xor (bit_xor x y) x ≡ y) × (bit_xor x x ≡ 0)
xor_laws zero x y p q =
    let ex : x ≡ 0 = omega arith in let ey : y ≡ 0 = omega arith in rw (ex, ey) (refl, refl, refl)
xor_laws (suc n) x y p q =
    let (rest, digit) = xor_parts x y in
    let d = differ_bits (x % 2) (y % 2) (mod_two x) (mod_two y) in
    let ih = xor_laws n (x / 2) (y / 2) (omega arith) (omega arith) in
    let whole : (a : ℕ) → a / 2 * 2 + a % 2 ≡ a = λ a. omega arith in
    (
      bit_xor_step y (bit_xor x y) ∙ rw (rest, digit, ih.0, d.1) (whole x),
      bit_xor_step (bit_xor x y) x ∙ rw (rest, digit, ih.1, d.2) (whole y),
      bit_xor_step x x ∙ rw (ih.2, d.3),
    )

pub bit_xor_second : (x y : ℕ) → bit_xor y (bit_xor x y) ≡ x
bit_xor_second x y = (xor_laws (x + y) x y (omega arith) (omega arith)).0

pub bit_xor_first : (x y : ℕ) → bit_xor (bit_xor x y) x ≡ y
bit_xor_first x y = (xor_laws (x + y) x y (omega arith) (omega arith)).1

pub bit_xor_self : (x : ℕ) → bit_xor x x ≡ 0
bit_xor_self x = (xor_laws x x x (omega arith) (omega arith)).2
