-- ===== src/Sort/Radix/Buckets.antt =====
-- The ranges of the digits that a pass of `radix_sort_msd` leaves, and the smallest ranges.
use my_little_tool.Prelude.{
  ◌>>=◌, ℕ, zero, suc, ◌+◌, ◌-◌, ◌*◌, ◌/◌, ◌%◌, ◌≤◌, ◌<◌, ◌≡◌, inl, inr, refl, ap, ◌∙◌, sym, subst,
  arith, Bool-cases, ltb_ℤ, lt_or_ge, if◌then◌else◌, ℤ, pos_part, ◌≤ℤ◌, ok, Returns, length,
}
use native.Mathlib.Nat as Nat
use my_little_tool.Sort.Array.{Array, load, swap_elems, at, AllOn, Rearranges, IsSortedOn}
use my_little_tool.Sort.Array.Access.{load-ok, swap_elems-ok, at-swap, swap}
use my_little_tool.Sort.Array.Rearrange.{
  Rearranges-refl, Rearranges-trans, Rearranges-widen, Rearranges-AllOn, swap-Rearranges,
}
use my_little_tool.Sort.Radix.{radix_size}
use my_little_tool.Sort.Radix.Digits.{IsNonneg, digit_step, nonneg_le}
use my_little_tool.Sort.Radix.Ranges.{Copied}
use my_little_tool.Sort.Counting.Tally.{
  less, less-all, less_mono, position, position-next, position-first, source,
}

-- What a call on `[lo, hi)` leaves.
pub record SortedRange (lo hi : ℕ) (a p : Array) : Type 0 where
  pub ascending : IsSortedOn lo hi p
  pub moved : Rearranges lo hi a p

abbrev pub HasDigit : ℕ → ℕ → ℤ → Type 0
HasDigit exp d x = (pos_part x / exp) % radix_size ≡ d

-- The entries share the digits above that of `exp`.
abbrev pub SameHigh : ℕ → ℕ → ℤ → Type 0
SameHigh scale h x = pos_part x / scale ≡ h

pub same_digits : (exp h d x : ℕ) → x / (exp * 10) ≡ h → (x / exp) % 10 ≡ d → x / exp ≡ h * 10 + d
same_digits exp h d x e f = omega (arith, Nat.div-div-eq-div-mul x exp 10)

-- Where the range of digit `d` begins.
abbrev pub begin_of : (ℕ → ℕ) → ℕ → ℕ → ℕ → ℕ
begin_of dg lo n d = lo + less dg n d

-- The counts of a pass on `[lo, lo + n)` by the digits `dg`, in the array `c`.
module _ (dg : ℕ → ℕ) (lo n exp h : ℕ) (c : Array)
    (small : (i : ℕ) → i < n → dg i < radix_size) where
  abbrev pub begin : ℕ → ℕ
  begin d = lo + less dg n d

  -- The range up to digit `i` is sorted; every digit has its own range.
  pub record Digits (i : ℕ) (p : Array) : Type 0 where
    pub moved : Rearranges lo (lo + n) c p
    pub digits : (d : ℕ) → d < radix_size → AllOn (HasDigit exp d) (begin d) (begin (d + 1)) p
    pub sorted : (d : ℕ) → d < i → IsSortedOn (begin d) (begin (d + 1)) p

  pub begin_mono : (d e : ℕ) → d ≤ e → begin d ≤ begin e
  begin_mono d e l = omega (arith, less_mono dg n d e l)

  pub begin_last : begin radix_size ≡ lo + n
  begin_last = omega (arith, less-all dg radix_size n small)

  -- Sorting the range of digit `i`.
  pub Digits-next :
      (i : ℕ) (p q : Array)
      → i < radix_size
      → Digits i p
      → SortedRange (begin i) (begin (i + 1)) p q
      → Digits (i + 1) q
  Digits-next i p q l h s = record {
    moved = Rearranges-trans h.moved (
        Rearranges-widen lo (lo + n) (omega arith)
          (omega (arith, begin_mono (i + 1) radix_size (omega arith), begin_last)) s.moved);
    digits = λ d m. elim (lt_or_ge d i) [
      | inl under ↦ λ k x y.
          subst (HasDigit exp d)
            (sym (s.moved.below k (omega (arith, begin_mono (d + 1) i (omega arith)))))
            (h.digits d m k x y)
      | inr over ↦ elim (lt_or_ge i d) [
        | inl above ↦ λ k x y.
            subst (HasDigit exp d)
              (sym (s.moved.above k (omega (arith, begin_mono (i + 1) d (omega arith)))))
              (h.digits d m k x y)
        | inr rest' ↦
            let e : i ≡ d = omega arith in
            subst (λ d. AllOn (HasDigit exp d) (begin d) (begin (d + 1)) q) e
              (Rearranges-AllOn (HasDigit exp i) s.moved (h.digits i l))
      ]
    ];
    sorted = λ d m. elim (lt_or_ge d i) [
      | inl under ↦ λ j k x y z.
          rw
            (
              s.moved.below j (omega (arith, begin_mono (d + 1) i (omega arith))),
              s.moved.below k (omega (arith, begin_mono (d + 1) i (omega arith))),
            )
            (h.sorted d under j k x y z)
      | inr rest ↦
          let e : i ≡ d = omega arith in
          subst (λ d. IsSortedOn (begin d) (begin (d + 1)) q) e s.ascending
    ];
  }

  -- The digit whose range an index is in.
  digit_at :
      (k : ℕ)
      → lo ≤ k
      → k < lo + n
      → (d : ℕ) × (d < radix_size) × (begin d ≤ k) × (k < begin (d + 1))
  digit_at k l m =
      let (i, u, e) = source dg n radix_size (k - lo) small (omega arith) in
      (dg i, small i u, omega (arith, position-first dg n i), omega (arith, position-next dg n i u))

  pub Digits-ascending :
      (p : Array)
      → 0 < exp
      → AllOn IsNonneg lo (lo + n) p
      → AllOn (SameHigh (exp * 10) h) lo (lo + n) p
      → Digits radix_size p
      → IsSortedOn lo (lo + n) p
  Digits-ascending p some_exp plain high s j k x y z =
      let (d, l, u, v) = digit_at j x (omega arith) in
      let (e, m, r, t) = digit_at k (omega arith) z in
      elim (lt_or_ge d e) [
        | inl less_digit ↦
            nonneg_le (at p j) (at p k) (plain j x (omega arith)) (plain k (omega arith) z) (
              digit_step exp (pos_part (at p j)) (pos_part (at p k)) some_exp
                (high j x (omega arith) ∙ sym (high k (omega arith) z))
                (omega (arith, s.digits d l j u v, s.digits e m k r t)))
        | inr rest ↦ elim (lt_or_ge e d) [
          | inl over ↦ absurd (omega (arith, begin_mono (e + 1) d (omega arith)))
          | inr rest' ↦
              let same : e ≡ d = omega arith in
              s.sorted d l j k u y (subst (λ e. k < begin (e + 1)) same t)
        ]
      ]

  -- After the pass every digit has its range.
  pub pass-Digits :
      (a r : Array)
      → Copied lo n r a c
      → ((i : ℕ) → i < n → at r (position dg n i) ≡ at a (lo + i))
      → ((i : ℕ) → i < n → HasDigit exp (dg i) (at a (lo + i)))
      → Digits 0 c
  pass-Digits a r copied placed has = record {
    moved = Rearranges-refl lo (lo + n) c;
    digits = λ d m k x y.
        let in_range : k < lo + n =
          omega (arith, begin_mono (d + 1) radix_size (omega arith), begin_last) in
        let (i, u, e) = source dg n radix_size (k - lo) small (omega arith) in
        let there : at c k ≡ at a (lo + i) =
          (let f : k ≡ lo + (k - lo) = omega arith in ap (at c) f)
          ∙ (copied.inside (k - lo) (omega arith) ∙ (ap (at r) (sym e) ∙ placed i u)) in
        let same : dg i ≡ d = elim (lt_or_ge (dg i) d) [
          | inl under ↦
              absurd (omega (arith, position-next dg n i u, begin_mono (dg i + 1) d (omega arith)))
          | inr rest ↦ elim (lt_or_ge d (dg i)) [
            | inl over ↦
                absurd
                  (omega (arith, position-first dg n i, begin_mono (d + 1) (dg i) (omega arith)))
            | inr rest' ↦ omega arith
          ]
        ] in
        subst (HasDigit exp d) (sym there)
          (subst (λ d. HasDigit exp d (at a (lo + i))) same (has i u));
    sorted = λ d m. absurd (omega arith);
  }

-- The power of ten for `k` digits, and the `exp` of a call for `k` digits.
unfoldable pub power : ℕ → ℕ
power zero = 1
power (suc k) = power k * 10

unfoldable pub exp_of : ℕ → ℕ
exp_of zero = 0
exp_of (suc k) = power k

pub power-pos : (k : ℕ) → 0 < power k
unfolding power
power-pos zero = omega arith
power-pos (suc k) = omega (arith, power-pos k)

pub all_same-ascending :
    (lo hi h : ℕ) (a : Array)
    → AllOn IsNonneg lo hi a
    → AllOn (SameHigh 1 h) lo hi a
    → IsSortedOn lo hi a
all_same-ascending lo hi h a plain same i j x y z =
    nonneg_le (at a i) (at a j) (plain i x (omega arith)) (plain j (omega arith) z) (
      omega (
        arith,
        Nat.div-one (pos_part (at a i)),
        Nat.div-one (pos_part (at a j)),
        same i x (omega arith),
        same j (omega arith) z,
      ))

pub short-SortedRange : (lo hi : ℕ) (a : Array) → hi ≤ lo + 1 → SortedRange lo hi a a
short-SortedRange lo hi a short = record {
  ascending =
      λ i j x y z. let e : i ≡ j = omega arith in subst (λ k. at a i ≤ℤ at a k) e (omega arith);
  moved = Rearranges-refl lo hi a;
}

pair-ascending : (lo : ℕ) (p : Array) → at p lo ≤ℤ at p (lo + 1) → IsSortedOn lo (lo + 2) p
pair-ascending lo p h i j x y z = elim (lt_or_ge i j) [
  | inl less_than ↦
      let e : lo ≡ i = omega arith in
      let f : lo + 1 ≡ j = omega arith in
      subst (λ i. at p i ≤ℤ at p j) e (subst (λ j. at p lo ≤ℤ at p j) f h)
  | inr rest ↦ let e : i ≡ j = omega arith in subst (λ k. at p i ≤ℤ at p k) e (omega arith)
]

pub two-SortedRange :
    (lo : ℕ) (a : Array)
    → lo + 2 ≤ length a
    → Returns
        (do
          x ← load a lo
          y ← load a (lo + 1)
          if ltb_ℤ y x then swap_elems a lo (lo + 1) else ok a)
        (SortedRange lo (lo + 2) a)
two-SortedRange lo a fits =
    let l : lo < length a = omega arith in
    let m : lo + 1 < length a = omega arith in
    rw (load-ok a lo l, load-ok a (lo + 1) m)
      (elim (Bool-cases (ltb_ℤ (at a (lo + 1)) (at a lo))) [
        | inr fine ↦ rw fine (
          a,
          refl,
          record {
            ascending = pair-ascending lo a (ground arith);
            moved = Rearranges-refl lo (lo + 2) a;
          },
        )
        | inl wrong ↦
            rw (wrong, swap_elems-ok a lo (lo + 1) l m)
              (
                swap a lo (lo + 1),
                refl,
                record {
                  ascending = pair-ascending lo (swap a lo (lo + 1)) (
                      rw (at-swap a lo (lo + 1) lo l m, at-swap a lo (lo + 1) (lo + 1) l m)
                        (ground arith));
                  moved =
                      swap-Rearranges lo (lo + 2) a lo (lo + 1) (omega arith) (omega arith)
                        (omega arith) (omega arith) fits;
                },
              )
      ])
