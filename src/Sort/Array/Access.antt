-- ===== src/Sort/Array/Access.antt =====
-- Laws of reading and writing.
use my_little_tool.Prelude.{
  ℕ, zero, suc, ◌+◌, ◌<◌, ◌≡◌, refl, ap, [], ◌∷◌, arith, ℤ, ◌==◌, if◌then◌else◌, length, set, ok,
  length-set,
}
use my_little_tool.Sort.Array.{Array, load, store, swap_elems, at, hit, count, AllOn}

pub load-ok : (a : Array) (i : ℕ) → i < length a → load a i ≡ ok (at a i)
unfolding load at
load-ok [] i h = elim h [ ]
load-ok (x ∷ a) zero h = refl
load-ok (x ∷ a) (suc i) h = load-ok a i (omega arith)

pub store-ok : (a : Array) (i : ℕ) (v : ℤ) → i < length a → store a i v ≡ ok (set a i v)
unfolding store
store-ok [] i v h = elim h [ ]
store-ok (x ∷ a) zero v h = refl
store-ok (x ∷ a) (suc i) v h = rw (store-ok a i v (omega arith))

pub at-set :
    (a : Array) (i j : ℕ) (v : ℤ) → i < length a → at (set a i v) j ≡ (if i == j then v else at a j)
unfolding at
at-set [] i j v h = elim h [ ]
at-set (x ∷ a) zero zero v h = refl
at-set (x ∷ a) zero (suc j) v h = ground arith
at-set (x ∷ a) (suc i) zero v h = ground arith
at-set (x ∷ a) (suc i) (suc j) v h = ground (arith, at-set a i j v)

pub set-at : (a : Array) (i : ℕ) → set a i (at a i) ≡ a
unfolding at
set-at [] i = refl
set-at (x ∷ a) zero = refl
set-at (x ∷ a) (suc i) = ap (◌∷◌ x) (set-at a i)

-- A write trades one occurrence for another.
pub count-set :
    (v : ℤ) (a : Array) (i : ℕ) (x : ℤ)
    → i < length a
    → count v (set a i x) + hit v (at a i) ≡ count v a + hit v x
unfolding count at
count-set v [] i x h = elim h [ ]
count-set v (y ∷ a) zero x h = omega arith
count-set v (y ∷ a) (suc i) x h = omega (arith, count-set v a i x)

-- The array after `Swap(ptr[i], ptr[j])`.
abbrev pub swap : Array → ℕ → ℕ → Array
swap a i j = set (set a i (at a j)) j (at a i)

pub swap_elems-ok :
    (a : Array) (i j : ℕ) → i < length a → j < length a → swap_elems a i j ≡ ok (swap a i j)
unfolding swap_elems
swap_elems-ok a i j hi hj =
    let hj' : j < length (set a i (at a j)) = omega (arith, length-set a i (at a j)) in
    rw (load-ok a i hi, load-ok a j hj, store-ok a i (at a j) hi, store-ok _ j (at a i) hj')

pub at-swap :
    (a : Array) (i j k : ℕ)
    → i < length a
    → j < length a
    → at (swap a i j) k ≡ (if j == k then at a i else if i == k then at a j else at a k)
at-swap a i j k hi hj =
    let hj' : j < length (set a i (at a j)) = omega (arith, length-set a i (at a j)) in
    rw (at-set (set a i (at a j)) j k (at a i) hj', at-set a i k (at a j) hi)

-- A predicate on all entries, entry by entry.
pub AllOn-nil {ℓ} : (P : ℤ → Type ℓ) → AllOn P 0 0 []
AllOn-nil P i l u = absurd (omega arith)

pub AllOn-cons {ℓ} :
    (P : ℤ → Type ℓ) (x : ℤ) (a : Array)
    → P x
    → AllOn P 0 (length a) a
    → AllOn P 0 (length (x ∷ a)) (x ∷ a)
unfolding at
AllOn-cons P x a p all zero l u = p
AllOn-cons P x a p all (suc i) l u = all i (omega arith) (omega arith)
