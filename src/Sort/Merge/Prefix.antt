-- ===== src/Sort/Merge/Prefix.antt =====
-- Counting in the prefixes of an array, and rearrangements of a range by such counts.
use my_little_tool.Prelude.{
  ℕ, zero, suc, ◌+◌, ◌≤◌, ◌<◌, ◌≡◌, refl, sym, ap, ◌∙◌, arith, [], ◌∷◌, ℤ, eq_ℤ, eq_ℤ_iff,
  Bool-cases, inl, inr, length, set, lt_or_ge,
}
use my_little_tool.Sort.Array.{Array, at, hit, count, Rearranges}
use my_little_tool.Sort.Array.Access.{at-set}

-- How often `v` occurs among the first `n` entries.
unfoldable pub prefix_count : ℤ → ℕ → Array → ℕ
prefix_count v zero a = 0
prefix_count v (suc n) a = prefix_count v n a + hit v (at a n)

pub prefix_count-next :
    (v : ℤ) (n : ℕ) (a : Array) → prefix_count v (n + 1) a ≡ prefix_count v n a + hit v (at a n)
unfolding prefix_count
prefix_count-next v n a = let e : n + 1 ≡ suc n = omega arith in ap (λ m. prefix_count v m a) e

prefix_count-cons :
    (v x : ℤ) (n : ℕ) (a : Array) → prefix_count v (suc n) (x ∷ a) ≡ hit v x + prefix_count v n a
unfolding prefix_count at
prefix_count-cons v x zero a = omega arith
prefix_count-cons v x (suc n) a = omega (arith, prefix_count-cons v x n a)

pub prefix_count-all : (v : ℤ) (a : Array) → prefix_count v (length a) a ≡ count v a
unfolding prefix_count count
prefix_count-all v [] = refl
prefix_count-all v (x ∷ a) = omega (arith, prefix_count-cons v x (length a) a, prefix_count-all v a)

-- A write behind a prefix does not change it.
pub prefix_count-set :
    (v x : ℤ) (n k : ℕ) (a : Array)
    → n ≤ k
    → k < length a
    → prefix_count v n (set a k x) ≡ prefix_count v n a
unfolding prefix_count
prefix_count-set v x zero k a h l = refl
prefix_count-set v x (suc n) k a h l =
    let other : at (set a k x) n ≡ at a n = at-set a k n x l ∙ ground arith in
    omega (arith, prefix_count-set v x n k a (omega arith) l, ap (hit v) other)

-- Two arrays that agree from `lo` on differ in counts only before it.
pub prefix_count-agree :
    (v : ℤ) (lo n : ℕ) (a b : Array)
    → lo ≤ n
    → ((i : ℕ) → lo ≤ i → i < n → at a i ≡ at b i)
    → prefix_count v n a + prefix_count v lo b ≡ prefix_count v n b + prefix_count v lo a
unfolding prefix_count
prefix_count-agree v lo zero a b h e = let z : lo ≡ 0 = omega arith in rw z refl
prefix_count-agree v lo (suc n) a b h e = elim (lt_or_ge n lo) [
  | inl before ↦ let z : lo ≡ suc n = omega arith in rw z (omega arith)
  | inr after ↦ omega (
    arith,
    prefix_count-agree v lo n a b after (λ i l u. e i l (omega arith)),
    ap (hit v) (e n after (omega arith)),
  )
]

hit_self : (v : ℤ) → hit v v ≡ 1
unfolding hit
hit_self v = rw ((eq_ℤ_iff v v).1 refl) refl

hit-eq : (v x : ℤ) → 0 < hit v x → x ≡ v
unfolding hit
hit-eq v x h = elim (Bool-cases (eq_ℤ v x)) [
  | inl e ↦ sym ((eq_ℤ_iff v x).0 e)
  | inr n ↦ absurd (ground arith)
]

prefix_count_mono : (v : ℤ) (m n : ℕ) (a : Array) → m ≤ n → prefix_count v m a ≤ prefix_count v n a
unfolding prefix_count
prefix_count_mono v m zero a h = let z : m ≡ 0 = omega arith in rw z (omega arith)
prefix_count_mono v m (suc n) a h = elim (lt_or_ge n m) [
  | inl last ↦ let z : m ≡ suc n = omega arith in rw z (omega arith)
  | inr early ↦ omega (arith, prefix_count_mono v m n a early)
]

prefix_count-find :
    (v : ℤ) (lo hi : ℕ) (a : Array)
    → prefix_count v lo a < prefix_count v hi a
    → (j : ℕ) × (lo ≤ j) × (j < hi) × (at a j ≡ v)
unfolding prefix_count
prefix_count-find v lo zero a h = absurd (omega arith)
prefix_count-find v lo (suc n) a h = elim (lt_or_ge 0 (hit v (at a n))) [
  | inl here ↦ elim (lt_or_ge n lo) [
    | inl before ↦ absurd (omega (arith, prefix_count_mono v (suc n) lo a before))
    | inr after ↦ (n, after, omega arith, hit-eq v (at a n) here)
  ]
  | inr none_here ↦
      let (j, l, u, e) = prefix_count-find v lo n a (omega arith) in (j, l, omega arith, e)
]

-- A range whose counts are kept, with nothing changed outside, is rearranged.
pub counts-Rearranges :
    (lo hi : ℕ) (a b : Array)
    → lo ≤ hi
    → hi ≤ length a
    → length b ≡ length a
    → ((i : ℕ) → i < lo → at b i ≡ at a i)
    → ((i : ℕ) → hi ≤ i → at b i ≡ at a i)
    → ((v : ℤ)
        → prefix_count v hi b + prefix_count v lo a ≡ prefix_count v hi a + prefix_count v lo b)
    → Rearranges lo hi a b
unfolding prefix_count
counts-Rearranges lo hi a b h u len below above counts =
    let low : (v : ℤ) → prefix_count v lo b ≡ prefix_count v lo a =
      λ v. omega (arith, prefix_count-agree v 0 lo b a (omega arith) (λ i l m. below i m)) in
    record {
      same_length = len;
      same_counts = λ v.
          let whole : prefix_count v (length b) b ≡ prefix_count v (length a) b =
            ap (λ n. prefix_count v n b) len in
          omega (
            arith,
            prefix_count-all v a,
            prefix_count-all v b,
            whole,
            low v,
            counts v,
            prefix_count-agree v hi (length a) b a u (λ i l m. above i l),
          );
      below = below;
      above = above;
      source = λ i l m.
          let v = at b i in
          let here : 0 < hit v v = omega (arith, hit_self v) in
          let (j, x, y, e) = prefix_count-find v lo hi a (
            omega (
              arith,
              low v,
              counts v,
              here,
              prefix_count_mono v lo i b l,
              prefix_count-next v i b,
              prefix_count_mono v (i + 1) hi b (omega arith),
            )) in
          (j, x, y, sym e);
    }
