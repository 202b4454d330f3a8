-- ===== src/Sort/Array/Rearrange.antt =====
-- Rearrangements compose, and a swap is one. A value that is carried while a hole moves is
-- treated as standing in the hole: then a move of the hole is a swap.
use my_little_tool.Prelude.{
  ℕ, ◌≤◌, ◌<◌, ◌≡◌, ◌≢◌, refl, sym, ap, ◌∙◌, subst, arith, ℤ, ◌==◌, Bool-cases, inl, inr, length,
  set, length-set, set-set, lt_or_ge,
}
use my_little_tool.Sort.Array.{Array, at, hit, count, AllOn, Rearranges}
use my_little_tool.Sort.Array.Access.{at-set, count-set, swap, at-swap}

pub Rearranges-refl : (lo hi : ℕ) (a : Array) → Rearranges lo hi a a
Rearranges-refl lo hi a = record {
  same_length = refl;
  same_counts = λ v. refl;
  below = λ i h. refl;
  above = λ i h. refl;
  source = λ i h k. (i, h, k, refl);
}

pub Rearranges-trans :
    {lo hi : ℕ} {a b c : Array} → Rearranges lo hi a b → Rearranges lo hi b c → Rearranges lo hi a c
Rearranges-trans r s = record {
  same_length = s.same_length ∙ r.same_length;
  same_counts = λ v. s.same_counts v ∙ r.same_counts v;
  below = λ i h. s.below i h ∙ r.below i h;
  above = λ i h. s.above i h ∙ r.above i h;
  source = λ i h k.
      let (j, p, q, e) = s.source i h k in
      let (m, p', q', e') = r.source j p q in (m, p', q', e ∙ e');
}

-- A rearrangement of a range is one of every wider range.
pub Rearranges-widen :
    {lo hi : ℕ} (lo' hi' : ℕ) {a b : Array}
    → lo' ≤ lo
    → hi ≤ hi'
    → Rearranges lo hi a b
    → Rearranges lo' hi' a b
Rearranges-widen {lo} {hi} lo' hi' {a} {b} l h r = record {
  same_length = r.same_length;
  same_counts = r.same_counts;
  below = λ i p. r.below i (omega arith);
  above = λ i p. r.above i (omega arith);
  source = λ i p q. elim (lt_or_ge i lo) [
    | inl u ↦ (i, p, q, r.below i u)
    | inr u ↦ elim (lt_or_ge i hi) [
      | inl w ↦ let (j, p', q', e) = r.source i u w in (j, omega arith, omega arith, e)
      | inr w ↦ (i, p, q, r.above i w)
    ]
  ];
}

-- What holds of every entry of the range still does.
pub Rearranges-AllOn {ℓ} :
    {lo hi : ℕ} {a b : Array} (P : ℤ → Type ℓ)
    → Rearranges lo hi a b
    → AllOn P lo hi a
    → AllOn P lo hi b
Rearranges-AllOn P r all i h k = let (j, p, q, e) = r.source i h k in subst P (sym e) (all j p q)

-- The same for a range that contains the one that is rearranged, or is apart from it.
pub Rearranges-AllOn_wide {ℓ} :
    {lo hi : ℕ} (lo' hi' : ℕ) {a b : Array} (P : ℤ → Type ℓ)
    → lo' ≤ lo
    → hi ≤ hi'
    → Rearranges lo hi a b
    → AllOn P lo' hi' a
    → AllOn P lo' hi' b
Rearranges-AllOn_wide lo' hi' P l h r = Rearranges-AllOn P (Rearranges-widen lo' hi' l h r)

count-swap :
    (v : ℤ) (a : Array) (i j : ℕ) → i < length a → j < length a → count v (swap a i j) ≡ count v a
count-swap v a i j hi hj =
    let b = set a i (at a j) in
    let same : at b j ≡ at a j = at-set a i j (at a j) hi ∙ ground arith in
    let hj' : j < length b = omega (arith, length-set a i (at a j)) in
    omega (arith, count-set v a i (at a j) hi, count-set v b j (at a i) hj', ap (hit v) same)

pub swap-Rearranges :
    (lo hi : ℕ) (a : Array) (i j : ℕ)
    → lo ≤ i
    → i < hi
    → lo ≤ j
    → j < hi
    → hi ≤ length a
    → Rearranges lo hi a (swap a i j)
swap-Rearranges lo hi a i j li hi' lj hj len =
    let pi : i < length a = omega arith in
    let pj : j < length a = omega arith in
    record {
      same_length = length-set (set a i (at a j)) j (at a i) ∙ length-set a i (at a j);
      same_counts = λ v. count-swap v a i j pi pj;
      below = λ k h. at-swap a i j k pi pj ∙ ground arith;
      above = λ k h. at-swap a i j k pi pj ∙ ground arith;
      source = λ k p q. elim (Bool-cases (j == k)) [
        | inl e ↦ (i, li, hi', at-swap a i j k pi pj ∙ rw e)
        | inr e ↦ elim (Bool-cases (i == k)) [
          | inl e' ↦ (j, lj, hj, at-swap a i j k pi pj ∙ rw (e, e'))
          | inr e' ↦ (k, p, q, at-swap a i j k pi pj ∙ rw (e, e'))
        ]
      ];
    }

-- Filling the hole `h` from `k` and putting `p` into the new hole `k` swaps the two, in the array
-- that has `p` in the hole.
pub fill-swap :
    (a : Array) (h k : ℕ) (p : ℤ)
    → h < length a
    → h ≢ k
    → set (set a h (at a k)) k p ≡ swap (set a h p) h k
fill-swap a h k p hh ne =
    let u : at (set a h p) h ≡ p = at-set a h h p hh ∙ ground arith in
    let w : at (set a h p) k ≡ at a k = at-set a h k p hh ∙ ground arith in
    rw (u, w, set-set a h p (at a k))
