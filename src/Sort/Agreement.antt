-- ===== src/Sort/Agreement.antt =====
-- Why every sorting function of Sort/ gives the same array: an array has one ascending
-- rearrangement.
pub mod Everywhere
mod Tests
use my_little_tool.Prelude.{
  ℕ, suc, ◌+◌, ◌≤◌, ◌<◌, ◌≡◌, refl, sym, ap, ◌∙◌, subst, arith, [], ◌∷◌, ℤ, ◌≤ℤ◌, eq_ℤ, eq_ℤ_iff,
  ≤ℤ_antisymm, Bool-cases, inl, inr, length, Run, ok, Returns,
}
use my_little_tool.Sort.Array.{Array, at, hit, count, IsSortedOn, Sorts}

hit_self : (v : ℤ) → hit v v ≡ 1
unfolding hit
hit_self v = rw ((eq_ℤ_iff v v).1 refl)

-- What occurs stands at some index.
find_index : (v : ℤ) (a : Array) → 0 < count v a → (i : ℕ) × (i < length a) × (at a i ≡ v)
unfolding count at hit
find_index v [] h = absurd (omega arith)
find_index v (x ∷ a) h = elim (Bool-cases (eq_ℤ v x)) [
  | inl e ↦ (0, omega arith, sym ((eq_ℤ_iff v x).0 e))
  | inr e ↦
      let more : 0 < 0 + count v a = rw e at h in
      let (i, l, f) = find_index v a (omega arith) in (suc i, omega arith, f)
]

-- The head of an ascending array is at most whatever occurs in it.
head_le :
    (x v : ℤ) (a : Array) → IsSortedOn 0 (suc (length a)) (x ∷ a) → 0 < count v (x ∷ a) → x ≤ℤ v
unfolding at
head_le x v a s h =
    let (i, l, e) = find_index v (x ∷ a) h in
    subst (λ w. x ≤ℤ w) e (s 0 i (omega arith) (omega arith) l)

sorted_tail :
    (x : ℤ) (a : Array) → IsSortedOn 0 (suc (length a)) (x ∷ a) → IsSortedOn 0 (length a) a
unfolding at
sorted_tail x a s i j l m n = s (suc i) (suc j) (omega arith) (omega arith) (omega arith)

count_head : (x : ℤ) (a : Array) → 0 < count x (x ∷ a)
unfolding count
count_head x a = omega (arith, hit_self x)

ascending_unique :
    (b c : Array)
    → IsSortedOn 0 (length b) b
    → IsSortedOn 0 (length c) c
    → length b ≡ length c
    → ((v : ℤ) → count v b ≡ count v c)
    → b ≡ c
unfolding count
ascending_unique [] [] s t l h = refl
ascending_unique [] (y ∷ c) s t l h = absurd (omega arith)
ascending_unique (x ∷ b) [] s t l h = absurd (omega arith)
ascending_unique (x ∷ b) (y ∷ c) s t l h =
    let up = head_le x y b s (omega (arith, h y, count_head y c)) in
    let down = head_le y x c t (omega (arith, h x, count_head x b)) in
    let heads : x ≡ y = ≤ℤ_antisymm x y up down in
    let tails =
      ascending_unique b c (sorted_tail x b s) (sorted_tail y c t) (omega arith)
        (λ v. omega (arith, h v, ap (hit v) heads)) in
    ap (λ z. z ∷ b) heads ∙ ap (◌∷◌ y) tails

-- Two results that both meet the promise of a sorting function are the same array.
pub Sorts-unique : (a b c : Array) → Sorts a b → Sorts a c → b ≡ c
Sorts-unique a b c s t =
    let r = s.rearranged in
    let q = t.rearranged in
    ascending_unique b c s.ascending t.ascending (r.same_length ∙ sym q.same_length)
      (λ v. r.same_counts v ∙ sym (q.same_counts v))

-- Two calls that end in a sorted array end in the same way.
pub same_result : (a : Array) (m n : Run Array) → Returns m (Sorts a) → Returns n (Sorts a) → m ≡ n
same_result a m n (b, e, s) (c, f, t) = e ∙ (ap ok (Sorts-unique a b c s t) ∙ sym f)
