-- ===== src/Sort/Radix/Ranges.antt =====
-- `_radix_sort_MSD_recursive`: one pass over a range, and the ranges of its digits.
use my_little_tool.Prelude.{
  ℕ, zero, suc, ◌+◌, ◌≤◌, ◌<◌, ◌≡◌, inl, inr, refl, ap, ◌∙◌, arith, lt_or_ge, ℤ, Returns, length,
  length-set, for_up_rule,
}
use my_little_tool.Sort.Array.{Array, at, hit, Rearranges}
use my_little_tool.Sort.Array.Access.{load-ok, store-ok, at-set}
use my_little_tool.Sort.Merge.Prefix.{prefix_count, prefix_count-next, counts-Rearranges}
use my_little_tool.Sort.Radix.{copy_back}
use my_little_tool.Sort.Counting.Moved.{placed-count}
use my_little_tool.Sort.Counting.Tally.{position}

-- `p` is `a` with the first `n` entries of `bucket` from `lo` on.
pub record Copied (lo n : ℕ) (bucket a p : Array) : Type 0 where
  pub as_long : length p ≡ length a
  pub inside : (i : ℕ) → i < n → at p (lo + i) ≡ at bucket i
  pub below : (i : ℕ) → i < lo → at p i ≡ at a i
  pub above : (i : ℕ) → lo + n ≤ i → at p i ≡ at a i

pub copy_back-Copied :
    (lo n : ℕ) (bucket a : Array)
    → n ≤ length bucket
    → lo + n ≤ length a
    → Returns (copy_back lo n bucket a) (Copied lo n bucket a)
unfolding copy_back
copy_back-Copied lo n bucket a room fits =
    for_up_rule (λ k p. Copied lo k bucket a p) _ n 0 n a (omega arith)
      (λ k p low high h.
        let l : k < length bucket = omega arith in
        let m : lo + k < length p = omega (arith, h.as_long) in
        rw (load-ok bucket k l, store-ok p (lo + k) (at bucket k) m)
          (
            _,
            refl,
            record {
              as_long = length-set p (lo + k) _ ∙ h.as_long;
              inside = λ i u. at-set p (lo + k) (lo + i) _ m ∙ (elim (lt_or_ge i k) [
                | inl v ↦ ground (arith, h.inside i v)
                | inr v ↦ let e : k ≡ i = omega arith in ground (arith, ap (at bucket) e)
              ]);
              below = λ i u. at-set p (lo + k) i _ m ∙ ground (arith, h.below i u);
              above = λ i u. at-set p (lo + k) i _ m ∙ ground (arith, h.above i (omega arith));
            },
          ))
      (record {
        as_long = refl;
        inside = λ i u. absurd (omega arith);
        below = λ i u. refl;
        above = λ i u. refl;
      })

Copied-count :
    (v : ℤ) (lo n k : ℕ) (bucket a p : Array)
    → Copied lo n bucket a p
    → k ≤ n
    → prefix_count v (lo + k) p ≡ prefix_count v lo p + prefix_count v k bucket
unfolding prefix_count
Copied-count v lo n zero bucket a p h l =
    let e : lo + 0 ≡ lo = omega arith in omega (arith, ap (λ k. prefix_count v k p) e)
Copied-count v lo n (suc k) bucket a p h l =
    let e : lo + suc k ≡ lo + k + 1 = omega arith in
    omega (
      arith,
      ap (λ k. prefix_count v k p) e,
      prefix_count-next v (lo + k) p,
      Copied-count v lo n k bucket a p h (omega arith),
      ap (hit v) (h.inside k (omega arith)),
    )

-- A pass on the range `[lo, lo + n)` that is copied back rearranges the range.
pub pass-Rearranges_range :
    (dg : ℕ → ℕ) (size lo n : ℕ) (a r p : Array)
    → lo + n ≤ length a
    → ((i : ℕ) → i < n → dg i < size)
    → ((i : ℕ) → i < n → at r (position dg n i) ≡ at a (lo + i))
    → Copied lo n r a p
    → Rearranges lo (lo + n) a p
pass-Rearranges_range dg size lo n a r p fits small placed h =
    counts-Rearranges lo (lo + n) a p (omega arith) fits h.as_long h.below h.above (λ v. omega (
      arith,
      Copied-count v lo n n r a p h (omega arith),
      placed-count dg size lo n a r small placed v,
    ))
