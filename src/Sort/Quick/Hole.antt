-- ===== src/Sort/Quick/Hole.antt =====
-- The partition loops: with the pivot in the hole, every step is a scan or a swap.
use my_little_tool.Prelude.{
  ℕ, zero, suc, ◌+◌, ◌-◌, ◌≤◌, ◌<◌, ◌≡◌, ◌∙◌, subst, arith, ℤ, ◌≤ℤ◌, ltb, ltb→lt, ltb→ge,
  Bool-cases, inl, inr, length, set, length-set, Returns, bind_rule, lt_or_ge,
}
use my_little_tool.Sort.Array.{Array, at, Rearranges}
use my_little_tool.Sort.Array.Access.{load-ok, store-ok, at-set, swap, at-swap}
use my_little_tool.Sort.Array.Rearrange.{Rearranges-trans, swap-Rearranges, fill-swap}
use my_little_tool.Sort.Quick.{fill_left, fill_right, hole_left_loop, hole_right_loop}
use my_little_tool.Sort.Quick.Scan.{ScannedDown, ScannedUp, scan_down_lem, scan_up_lem}

-- The state of a partition of `[lo, hi)` of `o` with the hole at `h`: with the pivot in the hole,
-- what is left of `l` is at most the pivot, and what is right of `r` is at least the pivot.
pub record Holed (lo hi : ℕ) (p : ℤ) (o a : Array) (l r h : ℕ) : Type 0 where
  pub lower : lo ≤ l
  pub ordered : l ≤ r
  pub upper : r < hi
  pub fits : hi ≤ length a
  pub hole_lower : l ≤ h
  pub hole_upper : h ≤ r
  pub moved : Rearranges lo hi o (set a h p)
  pub small : (i : ℕ) → lo ≤ i → i < l → at (set a h p) i ≤ℤ p
  pub large : (i : ℕ) → r < i → i < hi → p ≤ℤ at (set a h p) i

module _ (lo hi : ℕ) (p : ℤ) (o : Array) where
  Holed-scan_down :
      (a : Array) (l r s : ℕ)
      → Holed lo hi p o a l r l
      → ScannedDown a p l r s
      → Holed lo hi p o a l s l
  Holed-scan_down a l r s v t = record {
    lower = v.lower;
    ordered = t.lower;
    upper = omega (arith, t.upper, v.upper);
    fits = v.fits;
    hole_lower = omega arith;
    hole_upper = t.lower;
    moved = v.moved;
    small = v.small;
    large =
        λ i u w. ground (arith, v.large i, t.passed i, at-set a l i p, t.lower, v.upper, v.fits);
  }

  Holed-scan_up :
      (a : Array) (l r s : ℕ)
      → Holed lo hi p o a l r r
      → ScannedUp a p l r s
      → Holed lo hi p o a s r r
  Holed-scan_up a l r s v t = record {
    lower = omega (arith, v.lower, t.lower);
    ordered = t.upper;
    upper = v.upper;
    fits = v.fits;
    hole_lower = t.upper;
    hole_upper = omega arith;
    moved = v.moved;
    small =
        λ i u w. ground (arith, v.small i, t.passed i, at-set a r i p, t.upper, v.upper, v.fits);
    large = v.large;
  }

  fill_left_lem :
      (a : Array) (l r : ℕ)
      → Holed lo hi p o a l r l
      → (l < r → at a r ≤ℤ p)
      → Returns (fill_left a l r) λ s. Holed lo hi p o s.0 s.1 r r × (l ≤ s.1) × (l < r → l < s.1)
  unfolding fill_left
  fill_left_lem a l r v found = elim (Bool-cases (ltb l r)) [
    | inr e ↦
        let same : l ≡ r = omega (arith, ltb→ge l r e, v.ordered) in
        (
          (a, l),
          rw e,
          (
            subst (λ h. Holed lo hi p o a l r h) same v,
            omega arith,
            λ u. absurd (omega (arith, same)),
          ),
        )
    | inl e ↦
        let lt = ltb→lt l r e in
        let pr : r < length a = omega (arith, v.upper, v.fits) in
        let pl : l < length a = omega arith in
        let w = set a l p in
        let b = set a l (at a r) in
        let moved : set b r p ≡ swap w l r = fill-swap a l r p pl (omega arith) in
        let wl : l < length w = omega (arith, length-set a l p) in
        let wr : r < length w = omega (arith, length-set a l p) in
        let at_r : at w r ≡ at a r = at-set a l r p pl ∙ ground arith in
        let at_l : at w l ≡ p = at-set a l l p pl ∙ ground arith in
        (
          (b, l + 1),
          rw (e, load-ok a r pr, store-ok a l (at a r) pl),
          (
            record {
              lower = omega (arith, v.lower);
              ordered = omega arith;
              upper = v.upper;
              fits = omega (arith, v.fits, length-set a l (at a r));
              hole_lower = omega arith;
              hole_upper = omega arith;
              moved = rw moved (
                  Rearranges-trans v.moved (
                    swap-Rearranges lo hi w l r v.lower (omega (arith, v.upper))
                      (omega (arith, v.lower)) v.upper (omega (arith, length-set a l p, v.fits))));
              small = λ i u x.
                  rw (moved, at-swap w l r i wl wr)
                    (ground (arith, v.small i, found lt, at_r, at_l));
              large = λ i u x.
                  rw (moved, at-swap w l r i wl wr) (ground (arith, v.large i, at_r, at_l));
            },
            omega arith,
            λ _. omega arith,
          ),
        )
  ]

  fill_right_lem :
      (a : Array) (l r : ℕ)
      → Holed lo hi p o a l r r
      → (l < r → p ≤ℤ at a l)
      → Returns (fill_right a l r) λ s. Holed lo hi p o s.0 l s.1 l × (s.1 ≤ r) × (l < r → s.1 < r)
  unfolding fill_right
  fill_right_lem a l r v found = elim (Bool-cases (ltb l r)) [
    | inr e ↦
        let same : r ≡ l = omega (arith, ltb→ge l r e, v.ordered) in
        (
          (a, r),
          rw e,
          (
            subst (λ h. Holed lo hi p o a l r h) same v,
            omega arith,
            λ u. absurd (omega (arith, same)),
          ),
        )
    | inl e ↦
        let lt = ltb→lt l r e in
        let pr : r < length a = omega (arith, v.upper, v.fits) in
        let pl : l < length a = omega arith in
        let w = set a r p in
        let b = set a r (at a l) in
        let moved : set b l p ≡ swap w r l = fill-swap a r l p pr (omega arith) in
        let wl : l < length w = omega (arith, length-set a r p) in
        let wr : r < length w = omega (arith, length-set a r p) in
        let at_l : at w l ≡ at a l = at-set a r l p pr ∙ ground arith in
        let at_r : at w r ≡ p = at-set a r r p pr ∙ ground arith in
        (
          (b, r - 1),
          rw (e, load-ok a l pl, store-ok a r (at a l) pr),
          (
            record {
              lower = v.lower;
              ordered = omega arith;
              upper = omega (arith, v.upper);
              fits = omega (arith, v.fits, length-set a r (at a l));
              hole_lower = omega arith;
              hole_upper = omega arith;
              moved = rw moved (
                  Rearranges-trans v.moved (
                    swap-Rearranges lo hi w r l (omega (arith, v.lower)) v.upper v.lower
                      (omega (arith, v.upper)) (omega (arith, length-set a r p, v.fits))));
              small = λ i u x.
                  rw (moved, at-swap w r l i wr wl) (ground (arith, v.small i, at_r, at_l));
              large = λ i u x.
                  rw (moved, at-swap w r l i wr wl)
                    (ground (arith, v.large i, found lt, at_r, at_l));
            },
            omega arith,
            λ _. omega arith,
          ),
        )
  ]

  -- The hole is where the two ends meet.
  abbrev pub Met : Array × ℕ → Type 0
  Met s = Holed lo hi p o s.0 s.1 s.1 s.1

  pub hole_left_loop_lem :
      (fuel : ℕ) (a : Array) (l r : ℕ)
      → r < fuel + l
      → Holed lo hi p o a l r l
      → Returns (hole_left_loop fuel a p l r) Met
  unfolding hole_left_loop
  hole_left_loop_lem zero a l r f v = absurd (omega (arith, v.ordered))
  hole_left_loop_lem (suc fuel) a l r f v = elim (Bool-cases (ltb l r)) [
    | inr e ↦
        let same : r ≡ l = omega (arith, ltb→ge l r e, v.ordered) in
        ((a, l), rw e, subst (λ r. Holed lo hi p o a l r l) same v)
    | inl e ↦
        let lt = ltb→lt l r e in
        rw e (
          bind_rule _ _
            (scan_down_lem (r - l) a p l r (omega arith) (omega (arith, v.upper, v.fits)))
            λ r₁ down.
              bind_rule _ _ (fill_left_lem a l r₁ (Holed-scan_down a l r r₁ v down) down.found)
                λ s found.
                  let (u, grow, move) = found in
                  bind_rule _ _
                    (scan_up_lem (r₁ - s.1) s.0 p s.1 r₁ (omega (arith, u.ordered))
                      (omega (arith, u.upper, u.fits)))
                    λ l₂ up.
                      bind_rule _ _
                        (fill_right_lem s.0 l₂ r₁ (Holed-scan_up s.0 s.1 r₁ l₂ u up) up.found)
                        λ q found'.
                          let (w, shrink, _) = found' in
                          hole_left_loop_lem fuel q.0 l₂ q.1
                            (elim (lt_or_ge l r₁) [
                              | inl room ↦ omega (arith, move room)
                              | inr met ↦ omega arith
                            ])
                            w)
  ]

  pub hole_right_loop_lem :
      (fuel : ℕ) (a : Array) (l r : ℕ)
      → r < fuel + l
      → Holed lo hi p o a l r r
      → Returns (hole_right_loop fuel a p l r) Met
  unfolding hole_right_loop
  hole_right_loop_lem zero a l r f v = absurd (omega (arith, v.ordered))
  hole_right_loop_lem (suc fuel) a l r f v = elim (Bool-cases (ltb l r)) [
    | inr e ↦
        let same : r ≡ l = omega (arith, ltb→ge l r e, v.ordered) in
        ((a, l), rw e, subst (λ r. Holed lo hi p o a l r r) same v)
    | inl e ↦
        let lt = ltb→lt l r e in
        rw e (
          bind_rule _ _ (scan_up_lem (r - l) a p l r (omega arith) (omega (arith, v.upper, v.fits)))
            λ l₁ up.
              bind_rule _ _ (fill_right_lem a l₁ r (Holed-scan_up a l r l₁ v up) up.found)
                λ s found.
                  let (u, shrink, move) = found in
                  bind_rule _ _
                    (scan_down_lem (s.1 - l₁) s.0 p l₁ s.1 (omega (arith, u.ordered))
                      (omega (arith, u.upper, u.fits)))
                    λ r₂ down.
                      bind_rule _ _
                        (fill_left_lem s.0 l₁ r₂ (Holed-scan_down s.0 l₁ s.1 r₂ u down) down.found)
                        λ q found'.
                          let (w, grow, _) = found' in
                          hole_right_loop_lem fuel q.0 q.1 r₂
                            (elim (lt_or_ge l₁ r) [
                              | inl room ↦ omega (arith, move room)
                              | inr met ↦ omega arith
                            ])
                            w)
  ]
