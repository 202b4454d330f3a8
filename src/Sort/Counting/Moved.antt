-- ===== src/Sort/Counting/Moved.antt =====
-- A counting pass rearranges the entries of its range, in the order of their digits.
use my_little_tool.Prelude.{
  ℕ, zero, suc, ◌+◌, ◌≤◌, ◌<◌, ◌≡◌, inl, inr, refl, ap, ◌∙◌, sym, arith, Bool-cases, ◌==◌, lt_or_ge,
  if◌then◌else◌, ℤ, length,
}
use my_little_tool.Sort.Array.{Array, at, hit, Rearranges}
use my_little_tool.Sort.Merge.Prefix.{prefix_count, prefix_count-next, counts-Rearranges}
use my_little_tool.Sort.Merge.Sorting.{at_outside}
use my_little_tool.Sort.Counting.Tally.{
  equal_below, less, less-all, position, position-Order, source, Order,
}

module _ (dg weight : ℕ → ℕ) where
  -- The weight of the first `k` entries whose digit is `d`, of all `n` entries whose digit is below
  -- `d`, and of the first `n` entries.
  weigh : ℕ → ℕ → ℕ
  weigh d zero = 0
  weigh d (suc k) = weigh d k + (if dg k == d then weight k else 0)

  weigh_less : ℕ → ℕ → ℕ
  unfolding weigh
  weigh_less n zero = 0
  weigh_less n (suc d) = weigh_less n d + weigh d n

  total : ℕ → ℕ
  total zero = 0
  total (suc n) = total n + weight n

  weigh_less-none : (d : ℕ) → weigh_less 0 d ≡ 0
  unfolding weigh_less weigh
  weigh_less-none zero = refl
  weigh_less-none (suc d) = omega (arith, weigh_less-none d)

  weigh_less-over : (n d : ℕ) → d ≤ dg n → weigh_less (suc n) d ≡ weigh_less n d
  unfolding weigh_less weigh
  weigh_less-over n zero h = refl
  weigh_less-over n (suc d) h = ground (arith, weigh_less-over n d (omega arith))

  weigh_less-add : (n d : ℕ) → dg n < d → weigh_less (suc n) d ≡ weigh_less n d + weight n
  unfolding weigh_less weigh
  weigh_less-add n zero h = absurd (omega arith)
  weigh_less-add n (suc d) h = elim (lt_or_ge (dg n) d) [
    | inl below ↦ ground (arith, weigh_less-add n d below)
    | inr here ↦ ground (arith, weigh_less-over n d here)
  ]

  weigh_less-total : (size n : ℕ) → ((i : ℕ) → i < n → dg i < size) → weigh_less n size ≡ total n
  unfolding total
  weigh_less-total size zero h = weigh_less-none size
  weigh_less-total size (suc n) h = omega (
    arith,
    weigh_less-add n size (h n (omega arith)),
    weigh_less-total size n (λ i l. h i (omega arith)),
  )

module _ (dg : ℕ → ℕ) (size start n : ℕ) (a r : Array) (small : (i : ℕ) → i < n → dg i < size)
    (placed : (i : ℕ) → i < n → at r (position dg n i) ≡ at a (start + i)) where
  module _ (v : ℤ) where
    abbrev hits : ℕ → ℕ
    hits i = hit v (at a (start + i))

    total-range : (k : ℕ) → total dg hits k + prefix_count v start a ≡ prefix_count v (start + k) a
    unfolding total
    total-range zero =
        let e : start + 0 ≡ start = omega arith in omega (arith, ap (λ k. prefix_count v k a) e)
    total-range (suc k) =
        let e : start + suc k ≡ start + k + 1 = omega arith in
        omega
          (arith, total-range k, ap (λ k. prefix_count v k a) e, prefix_count-next v (start + k) a)

    count-digit :
        (d k : ℕ)
        → k ≤ n
        → prefix_count v (less dg n d + equal_below dg d k) r
          ≡ prefix_count v (less dg n d) r + weigh dg hits d k
    unfolding weigh equal_below
    count-digit d zero h =
        let e : less dg n d + 0 ≡ less dg n d = omega arith in
        omega (arith, ap (λ k. prefix_count v k r) e)
    count-digit d (suc k) h = elim (Bool-cases (dg k == d)) [
      | inr other ↦ rw other (
          let e : less dg n d + (equal_below dg d k + 0) ≡ less dg n d + equal_below dg d k =
            omega arith in
          omega (arith, ap (λ k. prefix_count v k r) e, count-digit d k (omega arith)))
      | inl here ↦ rw here (
          let same : dg k ≡ d = ground arith in
          let e : less dg n d + (equal_below dg d k + 1) ≡ less dg n d + equal_below dg d k + 1 =
            omega arith in
          let spot : at r (less dg n d + equal_below dg d k) ≡ at a (start + k) =
            ap (λ d. at r (less dg n d + equal_below dg d k)) (sym same)
            ∙ (unfold position in placed k (omega arith)) in
          omega (
            arith,
            ap (λ k. prefix_count v k r) e,
            count-digit d k (omega arith),
            prefix_count-next v (less dg n d + equal_below dg d k) r,
            ap (hit v) spot,
          ))
    ]

    count-less : (d : ℕ) → prefix_count v (less dg n d) r ≡ weigh_less dg hits n d
    unfolding weigh_less less prefix_count
    count-less zero = refl
    count-less (suc d) = count-digit d n (omega arith) ∙ omega (arith, count-less d)

    -- Every value occurs in the result as often as in the range.
    pub placed-count : prefix_count v n r + prefix_count v start a ≡ prefix_count v (start + n) a
    placed-count = omega (
      arith,
      ap (λ k. prefix_count v k r) (less-all dg size n small),
      count-less size,
      weigh_less-total dg hits size n small,
      total-range n,
    )

  pub record Ordered (p q : ℕ) : Type 0 where
    pub i : ℕ
    pub j : ℕ
    pub i_in : i < n
    pub j_in : j < n
    pub from_i : at r p ≡ at a (start + i)
    pub from_j : at r q ≡ at a (start + j)
    pub order : Order dg n i j

  -- Two entries of the result stand in the order of their digits, and of equal digits in the order
  -- in which they stood.
  pub placed-Ordered : (p q : ℕ) → p < q → q < n → Ordered p q
  placed-Ordered p q h l =
      let (i, x, e) = source dg n size p small (omega arith) in
      let (j, y, f) = source dg n size q small l in
      record {
        i = i;
        j = j;
        i_in = x;
        j_in = y;
        from_i = ap (at r) (sym e) ∙ placed i x;
        from_j = ap (at r) (sym f) ∙ placed j y;
        order = position-Order dg n i j x y (omega arith);
      }

-- A pass over the whole array rearranges it.
pub pass-Rearranges :
    (dg : ℕ → ℕ) (size : ℕ) (a r : Array)
    → ((i : ℕ) → i < length a → dg i < size)
    → ((i : ℕ) → i < length a → at r (position dg (length a) i) ≡ at a (0 + i))
    → length r ≡ length a
    → Rearranges 0 (length a) a r
unfolding prefix_count
pass-Rearranges dg size a r small placed len =
    counts-Rearranges 0 (length a) a r (omega arith) (omega arith) len (λ i l. absurd (omega arith))
      (λ i l. at_outside r a i (omega arith) l)
      (λ v.
        let e : 0 + length a ≡ length a = omega arith in
        omega (
          arith,
          placed-count dg size 0 (length a) a r small placed v,
          ap (λ k. prefix_count v k a) e,
        ))
