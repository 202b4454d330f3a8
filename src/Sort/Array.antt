-- ===== src/Sort/Array.antt =====
-- An array of C `int`s as a list: checked access, the macro `Swap`, and what the sorts prove
-- about it (`Rearranges`, `IsSortedOn`).
-- An access outside the array is a fault. `at` is the total reading that statements use.
pub mod Access
pub mod Rearrange
use my_little_tool.Prelude.{
  ℕ, zero, suc, ◌+◌, ◌≤◌, ◌<◌, ◌≡◌, List, [], ◌∷◌, Bool, ℤ, pos, ◌≤ℤ◌, eq_ℤ, if◌then◌else◌, length,
  get_elem?, set, Run, ok, fault, out_of_bounds, ◌>>=◌, Option, none, some,
}

abbrev pub Array : Type 0
Array = List ℤ

abbrev pub or_fault {ℓ} : {A : Type ℓ} → Option A → Run A
or_fault none = fault out_of_bounds
or_fault (some a) = ok a

-- `ptr[i]` as a value
unfoldable pub load : Array → ℕ → Run ℤ
load a i = or_fault (get_elem? a i)

-- `ptr[i] = v`
unfoldable pub store : Array → ℕ → ℤ → Run Array
store [] i v = fault out_of_bounds
store (x ∷ a) zero v = ok (v ∷ a)
store (x ∷ a) (suc i) v = store a i v >>= λ b. ok (x ∷ b)

-- `Swap(ptr[i], ptr[j])`: `temp = ptr[i]; ptr[i] = ptr[j]; ptr[j] = temp`
unfoldable pub swap_elems : Array → ℕ → ℕ → Run Array
unfolding load store
swap_elems a i j = do temp ← load a i; r ← load a j; b ← store a i r; store b j temp

-- The entry at an index, and 0 outside.
unfoldable pub at : Array → ℕ → ℤ
at [] i = pos 0
at (x ∷ a) zero = x
at (x ∷ a) (suc i) = at a i

-- 1 if the two are equal, else 0
unfoldable pub hit : ℤ → ℤ → ℕ
hit v x = if eq_ℤ v x then 1 else 0

-- How often `v` occurs.
unfoldable pub count : ℤ → Array → ℕ
count v [] = 0
count v (x ∷ a) = hit v x + count v a

-- Every entry of the half-open range `[lo, hi)` satisfies `P`.
abbrev pub AllOn {ℓ} : (ℤ → Type ℓ) → ℕ → ℕ → Array → Type ℓ
AllOn P lo hi a = (i : ℕ) → lo ≤ i → i < hi → P (at a i)

-- The entries of `[lo, hi)` ascend.
abbrev pub IsSortedOn : ℕ → ℕ → Array → Type 0
IsSortedOn lo hi a = (i j : ℕ) → lo ≤ i → i ≤ j → j < hi → at a i ≤ℤ at a j

-- `b` is `a` with the entries of `[lo, hi)` moved about inside that range and nothing else changed.
pub record Rearranges (lo hi : ℕ) (a b : Array) : Type 0 where
  pub same_length : length b ≡ length a
  pub same_counts : (v : ℤ) → count v b ≡ count v a
  pub below : (i : ℕ) → i < lo → at b i ≡ at a i
  pub above : (i : ℕ) → hi ≤ i → at b i ≡ at a i
  pub source : (i : ℕ) → lo ≤ i → i < hi → (j : ℕ) × (lo ≤ j) × (j < hi) × (at b i ≡ at a j)

-- What a sorting function promises: the whole array ascends and is a rearrangement of the input.
pub record Sorts (a b : Array) : Type 0 where
  pub ascending : IsSortedOn 0 (length b) b
  pub rearranged : Rearranges 0 (length a) a b
