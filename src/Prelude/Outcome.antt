-- ===== src/Prelude/Outcome.antt =====
-- How a call of a C function ends: with a value, or in one of the ways that have no value.
use mathlib.Core.Path.{◌≡◌, sym, ap, ◌∙◌, subst}

-- `out_of_bounds` is an access outside an array, `null_pointer` one through a NULL pointer,
-- `use_after_free` one through a pointer to memory that is not allocated, `no_result` the use of
-- the value of a function that ended without a `return`,
-- `overflow` a signed result outside `int`, `assert_failed` a failed `assert`, and `out_of_fuel`
-- a loop that the model cut off.
pub data Fault : Type 0 where
  out_of_bounds null_pointer use_after_free no_result overflow assert_failed out_of_fuel : Fault

pub data Run {ℓ} (Value : Type ℓ) : Type ℓ where
  ok : Value → Run Value
  fault : Fault → Run Value

-- The call ends normally, in a value that satisfies the postcondition.
abbrev pub Returns {ℓ ℓ'} : {Value : Type ℓ} → Run Value → (Value → Type ℓ') → Type (ℓ ⊔ ℓ')
Returns {Value} call Post = (result : Value) × (call ≡ ok result) × Post result

-- The next call gets the value of the one before, and a fault ends the sequence.
infixl 5 ◌>>=◌
abbrev pub ◌>>=◌ {ℓ ℓ'} :
    {Value : Type ℓ} {Next : Type ℓ'} → Run Value → (Value → Run Next) → Run Next
(fault e) >>= next = fault e
(ok value) >>= next = next value

-- A sequence of two calls ends normally if the first does, and the second does from its result.
pub bind_rule {ℓ κ} :
    {A : Type ℓ} {B : Type ℓ} {P : A → Type κ} {Q : B → Type κ} (m : Run A) (f : A → Run B)
    → Returns m P
    → ((a : A) → P a → Returns (f a) Q)
    → Returns (m >>= f) Q
bind_rule m f (a, e, p) h = rw e (h a p)

-- A weaker postcondition holds too.
pub weaken {ℓ κ} :
    {A : Type ℓ} {P : A → Type κ} {Q : A → Type κ} (m : Run A)
    → Returns m P
    → ((a : A) → P a → Q a)
    → Returns m Q
weaken m (a, e, p) h = (a, e, h a p)

result_or {ℓ} : {A : Type ℓ} → A → Run A → A
result_or d (ok a) = a
result_or d (fault e) = d

-- What holds of the result holds of the value that the call is known to end with.
pub at_result {ℓ ℓ'} :
    {A : Type ℓ} {P : A → Type ℓ'} (m : Run A) (b : A) → Returns m P → m ≡ ok b → P b
unfolding result_or
at_result {P = P} m b (a, e, p) h = subst P (ap (result_or b) (sym e ∙ h)) p
