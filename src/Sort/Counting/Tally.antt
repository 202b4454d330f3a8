-- ===== src/Sort/Counting/Tally.antt =====
-- Positions by counting: where each entry of a sequence of digits belongs.
use my_little_tool.Prelude.{
  ℕ, zero, suc, ◌+◌, ◌-◌, ◌≤◌, ◌<◌, ◌≡◌, ◌≢◌, inl, inr, refl, ap, ◌∙◌, sym, arith, ◌==◌, lt_or_ge,
  if◌then◌else◌,
}

-- `dg i` is the digit of entry `i`.
module _ (dg : ℕ → ℕ) where
  -- How many of the first `k` entries have digit `d`.
  unfoldable pub equal_below : ℕ → ℕ → ℕ
  equal_below d zero = 0
  equal_below d (suc k) = equal_below d k + (if dg k == d then 1 else 0)

  -- How many of the first `n` entries have a digit below `d`.
  unfoldable pub less : ℕ → ℕ → ℕ
  less n zero = 0
  less n (suc d) = less n d + equal_below d n

  pub equal_below-next :
      (d k : ℕ) → equal_below d (k + 1) ≡ equal_below d k + (if dg k == d then 1 else 0)
  unfolding equal_below
  equal_below-next d k = let e : k + 1 ≡ suc k = omega arith in ap (equal_below d) e

  pub less-next : (n d : ℕ) → less n (d + 1) ≡ less n d + equal_below d n
  unfolding less
  less-next n d = let e : d + 1 ≡ suc d = omega arith in ap (less n) e

  pub less-first : (n : ℕ) → less n 0 ≡ 0
  unfolding less
  less-first n = refl

  pub equal_below_mono : (d k n : ℕ) → k ≤ n → equal_below d k ≤ equal_below d n
  unfolding equal_below
  equal_below_mono d k zero h = let e : k ≡ 0 = omega arith in rw e (omega arith)
  equal_below_mono d k (suc n) h = elim (lt_or_ge n k) [
    | inl over ↦ let e : k ≡ suc n = omega arith in rw e (omega arith)
    | inr more ↦ omega (arith, equal_below_mono d k n more)
  ]

  pub less_mono : (n d e : ℕ) → d ≤ e → less n d ≤ less n e
  unfolding less
  less_mono n d zero h = let e : d ≡ 0 = omega arith in rw e (omega arith)
  less_mono n d (suc e) h = elim (lt_or_ge e d) [
    | inl over ↦ let eq : d ≡ suc e = omega arith in rw eq (omega arith)
    | inr more ↦ omega (arith, less_mono n d e more)
  ]

  less-none : (d : ℕ) → less 0 d ≡ 0
  unfolding less equal_below
  less-none zero = refl
  less-none (suc d) = omega (arith, less-none d)

  less-over : (n d : ℕ) → d ≤ dg n → less (suc n) d ≡ less n d
  unfolding less equal_below
  less-over n zero h = refl
  less-over n (suc d) h = ground (arith, less-over n d (omega arith))

  less-add : (n d : ℕ) → dg n < d → less (suc n) d ≡ less n d + 1
  unfolding less equal_below
  less-add n zero h = absurd (omega arith)
  less-add n (suc d) h = elim (lt_or_ge (dg n) d) [
    | inl below ↦ ground (arith, less-add n d below)
    | inr here ↦ ground (arith, less-over n d here)
  ]

  -- Every entry is counted.
  pub less-all : (size n : ℕ) → ((i : ℕ) → i < n → dg i < size) → less n size ≡ n
  less-all size zero h = less-none size
  less-all size (suc n) h =
      omega (arith, less-add n size (h n (omega arith)), less-all size n (λ i l. h i (omega arith)))

  -- Where entry `i` of `n` entries goes.
  unfoldable pub position : ℕ → ℕ → ℕ
  position n i = less n (dg i) + equal_below (dg i) i

  module _ (n : ℕ) where
    pub position-next : (i : ℕ) → i < n → position n i < less n (dg i + 1)
    unfolding position
    position-next i h =
        let here : equal_below (dg i) (i + 1) ≡ equal_below (dg i) i + 1 =
          equal_below-next (dg i) i ∙ ground arith in
        omega (arith, less-next n (dg i), equal_below_mono (dg i) (i + 1) n (omega arith), here)

    pub position-first : (i : ℕ) → less n (dg i) ≤ position n i
    unfolding position
    position-first i = omega arith

    pub position-lt : (size i : ℕ) → ((i : ℕ) → i < n → dg i < size) → i < n → position n i < n
    position-lt size i h l = omega (
      arith,
      position-next i l,
      less_mono n (dg i + 1) size (let m : dg i < size = h i l in omega arith),
      less-all size n h,
    )

    -- A lower digit goes to the front, and of equal digits the earlier entry.
    pub position-digit : (i j : ℕ) → i < n → dg i < dg j → position n i < position n j
    position-digit i j l h =
        omega
          (arith, position-next i l, less_mono n (dg i + 1) (dg j) (omega arith), position-first j)

    pub position-stable : (i j : ℕ) → i < j → dg i ≡ dg j → position n i < position n j
    unfolding position
    position-stable i j h e =
        let here : equal_below (dg i) (i + 1) ≡ equal_below (dg i) i + 1 =
          equal_below-next (dg i) i ∙ ground arith in
        let same : less n (dg j) + equal_below (dg j) j ≡ less n (dg i) + equal_below (dg i) j =
          ap (λ d. less n d + equal_below d j) (sym e) in
        omega (arith, here, same, equal_below_mono (dg i) (i + 1) j (omega arith))

    pub data Order (i j : ℕ) : Type 0 where
      by_digit : dg i < dg j → Order i j
      by_index : dg i ≡ dg j → i < j → Order i j

    pub position-Order : (i j : ℕ) → i < n → j < n → position n i < position n j → Order i j
    position-Order i j l m h = elim (lt_or_ge (dg i) (dg j)) [
      | inl a ↦ by_digit a
      | inr a ↦ elim (lt_or_ge (dg j) (dg i)) [
        | inl b ↦ absurd (omega (arith, position-digit j i m b))
        | inr b ↦
            let e : dg i ≡ dg j = omega arith in
            elim (lt_or_ge i j) [
              | inl c ↦ by_index e c
              | inr c ↦ elim (lt_or_ge j i) [
                | inl d ↦ absurd (omega (arith, position-stable j i d (sym e)))
                | inr d ↦
                    let same : i ≡ j = omega arith in absurd (omega (arith, ap (position n) same))
              ]
            ]
      ]
    ]

    pub position-apart : (i j : ℕ) → i < j → j < n → position n i ≢ position n j
    position-apart i j h l e = elim (lt_or_ge (dg i) (dg j)) [
      | inl a ↦ omega (arith, position-digit i j (omega arith) a)
      | inr a ↦ elim (lt_or_ge (dg j) (dg i)) [
        | inl b ↦ omega (arith, position-digit j i l b)
        | inr b ↦ omega (arith, position-stable i j h (omega arith))
      ]
    ]

  gap : (m p : ℕ) → m ≤ p → (t : ℕ) × (m + t ≡ p)
  gap m p h = (p - m, omega arith)

  equal_below-find :
      (d n t : ℕ) → t < equal_below d n → (i : ℕ) × (i < n) × (dg i ≡ d) × (equal_below d i ≡ t)
  unfolding equal_below
  equal_below-find d zero t h = absurd (omega arith)
  equal_below-find d (suc n) t h = elim (lt_or_ge t (equal_below d n)) [
    | inl early ↦ let (i, l, e, f) = equal_below-find d n t early in (i, omega arith, e, f)
    | inr last ↦ (n, omega arith, ground arith, ground arith)
  ]

  less-find :
      (n size p : ℕ)
      → p < less n size
      → (d : ℕ) × (d < size) × (less n d ≤ p) × (p < less n d + equal_below d n)
  unfolding less
  less-find n zero p h = absurd (omega arith)
  less-find n (suc d) p h = elim (lt_or_ge p (less n d)) [
    | inl early ↦ let (e, l, a, b) = less-find n d p early in (e, omega arith, a, b)
    | inr last ↦ (d, omega arith, last, omega arith)
  ]

  -- Every position is that of an entry.
  pub source :
      (n size p : ℕ)
      → ((i : ℕ) → i < n → dg i < size)
      → p < n
      → (i : ℕ) × (i < n) × (position n i ≡ p)
  unfolding position
  source n size p h l =
      let (d, m, a, b) = less-find n size p (omega (arith, less-all size n h)) in
      let (t, e) = gap (less n d) p a in
      let (i, k, same, there) = equal_below-find d n t (omega arith) in
      (i, k, ap (λ d. less n d + equal_below d i) same ∙ omega arith)
