-- ===== src/Sort/Driver/Ascends.antt =====
-- The comparison of neighbours decides whether an array ascends.
use my_little_tool.Prelude.{
  ℕ, zero, suc, ◌+◌, ◌-◌, ◌≤◌, ◌<◌, ◌≡◌, ◌↔◌, refl, arith, true, false, Bool-cases, subst, ◌==◌,
  inl, inr, ltb_ℤ, ◌≤ℤ◌, length, Returns,
}
use my_little_tool.Sort.Array.{Array, at, IsSortedOn}
use my_little_tool.Sort.Array.Access.{load-ok}
use my_little_tool.Sort.Driver.{ascends}

-- No entry from `idx` on is smaller than the one before it.
abbrev StepsFrom : ℕ → Array → Type 0
StepsFrom idx a = (k : ℕ) → idx ≤ k → k < length a → at a (k - 1) ≤ℤ at a k

up_to : (a : Array) (i d : ℕ) → StepsFrom 1 a → i + d < length a → at a i ≤ℤ at a (i + d)
up_to a i zero h l = ground arith
up_to a i (suc d) h l =
    let before = up_to a i d h (omega arith) in
    let step = h (i + suc d) (omega arith) l in
    let e : i + suc d - 1 ≡ i + d = omega arith in
    let step' : at a (i + d) ≤ℤ at a (i + suc d) = rw e at step in omega arith

IsSortedOn-steps : (a : Array) → StepsFrom 1 a → IsSortedOn 0 (length a) a
IsSortedOn-steps a h i j l m n =
    let e : i + (j - i) ≡ j = omega arith in
    let all = up_to a i (j - i) h (omega arith) in rw e at all

ascends_lem :
    (n idx : ℕ) (a : Array)
    → 1 ≤ idx
    → idx + n ≡ length a
    → Returns (ascends n idx a) (λ r. (r ≡ true → StepsFrom idx a) × (StepsFrom idx a → r ≡ true))
unfolding ascends
ascends_lem zero idx a one e = (true, refl, ((λ u k l m. absurd (omega arith)), (λ s. refl)))
ascends_lem (suc n) idx a one e =
    let (r, f, (sound, complete)) = ascends_lem n (idx + 1) a (omega arith) (omega arith) in
    rw (load-ok a idx (omega arith), load-ok a (idx - 1) (omega arith))
      (elim (Bool-cases (ltb_ℤ (at a idx) (at a (idx - 1)))) [
        | inl less ↦ rw less (
          false,
          refl,
          (
            (λ u. absurd (ground arith)),
            (λ s. let t = s idx (omega arith) (omega arith) in absurd (ground arith)),
          ),
        )
        | inr fine ↦
            rw (fine, f)
              (
                r,
                refl,
                (
                  (λ u k l m. elim (Bool-cases (idx == k)) [
                    | inl now ↦
                        let same : idx ≡ k = ground arith in
                        let here : at a (idx - 1) ≤ℤ at a idx = ground arith in
                        subst (λ k. at a (k - 1) ≤ℤ at a k) same here
                    | inr after ↦ sound u k (ground arith) m
                  ]),
                  (λ s. complete (λ k l m. s k (omega arith) m)),
                ),
              )
      ])

pub ascends_iff :
    (a : Array)
    → 0 < length a
    → Returns (ascends (length a - 1) 1 a) (λ r. (r ≡ true) ↔ IsSortedOn 0 (length a) a)
ascends_iff a full =
    let (r, e, (sound, complete)) = ascends_lem (length a - 1) 1 a (omega arith) (omega arith) in
    (
      r,
      e,
      (
        (λ u. IsSortedOn-steps a (sound u)),
        (λ s. complete (λ k l m. s (k - 1) k (omega arith) (omega arith) m)),
      ),
    )
