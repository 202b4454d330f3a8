-- ===== src/Sort/Driver/Drawing.antt =====
-- What is drawn from an array, and the comparison of the same array with it.
use my_little_tool.Prelude.{
  ℕ, zero, suc, ◌+◌, ◌/◌, ◌%◌, ◌≤◌, ◌<◌, ◌≡◌, refl, arith, true, Bool-cases, inl, inr, ◌==◌, ◌⊎◌,
  ltb, ◌∙◌, ap, sym, eq_ℤ, eq_ℤ_iff, pos, length, length-set, length-replicate, List, set, cell,
  cell-set, fetch, fetch-ok, assign-ok, cell-replicate, for_up, for_up_rule, ok, Returns,
  if◌then◌else◌,
}
use native.Mathlib.Nat as Nat
use my_little_tool.Sort.Array.{Array, at}
use my_little_tool.Sort.Array.Access.{load-ok, store-ok, at-set}
use my_little_tool.Sort.Driver.{Drawn, not_drawn, draw, sample_counts, compare_drawn}

-- Sample `i` is unused, or an entry of `a`.
abbrev pub IsFrom : Array → List ℕ → Array → ℕ → Type 0
IsFrom a idx number i =
    (cell 0 idx i ≡ 0) ⊎ ((cell 0 idx i < length a) × (at number i ≡ at a (cell 0 idx i)))

pub record IsDrawn (a : Array) (s : Drawn) : Type 0 where
  pub indices : length s.check_idx ≡ 50
  pub numbers : length s.check_number ≡ 50
  pub samples : (i : ℕ) → i < 50 → IsFrom a s.check_idx s.check_number i

pub not_drawn-IsDrawn : (a : Array) → IsDrawn a not_drawn
not_drawn-IsDrawn a = record {
  indices = length-replicate {A = ℕ} 50 0;
  numbers = length-replicate 50 (pos 0);
  samples = λ i l. inl (cell-replicate 0 50 i);
}

IsFrom-set :
    (a : Array) (s : Drawn) (i k : ℕ)
    → IsDrawn a s
    → i < 50
    → k < length a
    → (j : ℕ) → j < 50
    → IsFrom a (set s.check_idx i k) (set s.check_number i (at a k)) j
IsFrom-set a s i k d l inside j m =
    let index = cell-set 0 s.check_idx i j k (omega (arith, d.indices)) in
    let number = at-set s.check_number i j (at a k) (omega (arith, d.numbers)) in
    elim (Bool-cases (i == j)) [
      | inl same ↦
          let index' : cell 0 (set s.check_idx i k) j ≡ k = index ∙ rw same refl in
          let number' : at (set s.check_number i (at a k)) j ≡ at a k = number ∙ rw same refl in
          inr (omega arith, number' ∙ ap (at a) (sym index'))
      | inr other ↦
          let index' : cell 0 (set s.check_idx i k) j ≡ cell 0 s.check_idx j =
            index ∙ rw other refl in
          let number' : at (set s.check_number i (at a k)) j ≡ at s.check_number j =
            number ∙ rw other refl in
          elim (d.samples j m) [
            | inl none ↦ inl (index' ∙ none)
            | inr (inside', e) ↦ inr (omega arith, number' ∙ e ∙ ap (at a) (sym index'))
          ]
    ]

draw-IsDrawn :
    (random : ℕ → ℕ) (a : Array) (i : ℕ) (s : Drawn)
    → 0 < length a
    → i < 50
    → IsDrawn a s
    → Returns (draw random a i s) (IsDrawn a)
unfolding draw
draw-IsDrawn random a i s full l d =
    let k = random s.calls % length a in
    let inside : k < length a = Nat.mod-lt (random s.calls) full in
    let idx = set s.check_idx i k in
    let len : length idx ≡ 50 = length-set s.check_idx i k ∙ d.indices in
    let here : cell 0 idx i ≡ k =
      cell-set 0 s.check_idx i i k (omega (arith, d.indices))
      ∙ (let same : (i == i) ≡ true = ground arith in rw same refl) in
    let got : fetch idx i ≡ ok k = fetch-ok 0 idx i (omega arith) ∙ ap ok here in
    let number = set s.check_number i (at a k) in
    rw
      (
        assign-ok s.check_idx i k (omega (arith, d.indices)),
        got,
        load-ok a k inside,
        store-ok s.check_number i (at a k) (omega (arith, d.numbers)),
      )
      (
        record s { check_idx = idx; check_number = number; calls = s.calls + 1 },
        refl,
        record {
          indices = len;
          numbers = length-set s.check_number i (at a k) ∙ d.numbers;
          samples = IsFrom-set a s i k d l inside;
        },
      )

pub draw_all-IsDrawn :
    (random : ℕ → ℕ) (a : Array) (s : Drawn)
    → 0 < length a
    → IsDrawn a s
    → Returns (for_up (sample_counts (length a)) 0 (draw random a) s) (IsDrawn a)
unfolding sample_counts
draw_all-IsDrawn random a s full d =
    let counts = if ltb 50 (length a) then 50 else length a / 2 in
    let few : counts ≤ 50 = ground arith in
    for_up_rule (λ i. IsDrawn a) (draw random a) counts 0 counts s (omega arith)
      (λ i t l u h. draw-IsDrawn random a i t full (omega arith) h) d

pub compare_drawn-true :
    (n i : ℕ) (a : Array) (s : Drawn) → i + n ≡ 50 → IsDrawn a s → compare_drawn n i a s ≡ ok true
unfolding compare_drawn
compare_drawn-true zero i a s e d = refl
compare_drawn-true (suc n) i a s e d =
    let k = cell 0 s.check_idx i in
    let read : fetch s.check_idx i ≡ ok k = fetch-ok 0 s.check_idx i (omega (arith, d.indices)) in
    let rest = compare_drawn-true n (i + 1) a s (omega arith) d in
    rw read (elim (Bool-cases (k == 0)) [
      | inl unused ↦ rw (unused, rest) refl
      | inr used ↦ elim (d.samples i (omega arith)) [
        | inl none ↦ absurd (ground (arith, none))
        | inr (inside, same) ↦
            let equal : eq_ℤ (at a k) (at s.check_number i) ≡ true = (eq_ℤ_iff _ _).1 (sym same) in
            rw
              (
                used,
                load-ok a k inside,
                load-ok s.check_number i (omega (arith, d.numbers)),
                equal,
                rest,
              )
              refl
      ]
    ])
