-- ===== src/Sort/Quick/Split.antt =====
-- A range that is split around a pivot, and how sorting its two sides sorts it.
use my_little_tool.Prelude.{
  ℕ, ◌+◌, ◌-◌, ◌≤◌, ◌<◌, ◌≡◌, ◌∙◌, arith, ℤ, ◌≤ℤ◌, ltb_ℤ, ◌==◌, Bool-cases, inl, inr, length, set,
  length-set, Returns,
}
use my_little_tool.Sort.Array.{Array, store, at, Rearranges, AllOn, IsSortedOn}
use my_little_tool.Sort.Array.Access.{load-ok, store-ok, at-set, swap_elems-ok, swap, at-swap}
use my_little_tool.Sort.Array.Rearrange.{
  Rearranges-refl, Rearranges-trans, Rearranges-widen, Rearranges-AllOn, swap-Rearranges,
}
use my_little_tool.Sort.Quick.{sort_two}
use my_little_tool.Sort.Quick.Hole.{Met}

-- `[lo, hi)` of `b` ascends, and is a rearrangement of that range of `a`.
pub record SortsOn (lo hi : ℕ) (a b : Array) : Type 0 where
  pub ascending : IsSortedOn lo hi b
  pub moved : Rearranges lo hi a b

-- `[lo, hi)` of `b` is a rearrangement of that range of `a`, with entries at most `p` on
-- `[lo, e)`, equal to `p` on `[e, s)`, and at least `p` on `[s, hi)`.
pub record IsSplit (lo e s hi : ℕ) (p : ℤ) (a b : Array) : Type 0 where
  pub left : lo ≤ e
  pub middle : e ≤ s
  pub right : s ≤ hi
  pub fits : hi ≤ length b
  pub moved : Rearranges lo hi a b
  pub small : AllOn (λ x. x ≤ℤ p) lo e b
  pub same : AllOn (λ x. x ≡ p) e s b
  pub large : AllOn (λ x. p ≤ℤ x) s hi b

module _ {lo e s hi : ℕ} {p : ℤ} {a b c : Array} (v : IsSplit lo e s hi p a b) where
  -- Moving entries inside the left part keeps the split.
  pub IsSplit-left : Rearranges lo e b c → IsSplit lo e s hi p a c
  IsSplit-left r = record {
    left = v.left;
    middle = v.middle;
    right = v.right;
    fits = omega (arith, v.fits, r.same_length);
    moved =
        Rearranges-trans v.moved
          (Rearranges-widen lo hi (omega arith) (omega (arith, v.middle, v.right)) r);
    small = Rearranges-AllOn (λ x. x ≤ℤ p) r v.small;
    same = λ i h k. r.above i h ∙ v.same i h k;
    large = λ i h k. rw (r.above i (omega (arith, v.middle))) (v.large i h k);
  }

  -- So does moving entries inside the right part.
  pub IsSplit-right : Rearranges s hi b c → IsSplit lo e s hi p a c
  IsSplit-right r = record {
    left = v.left;
    middle = v.middle;
    right = v.right;
    fits = omega (arith, v.fits, r.same_length);
    moved =
        Rearranges-trans v.moved
          (Rearranges-widen lo hi (omega (arith, v.left, v.middle)) (omega arith) r);
    small = λ i h k. rw (r.below i (omega (arith, v.middle))) (v.small i h k);
    same = λ i h k. r.below i k ∙ v.same i h k;
    large = Rearranges-AllOn (λ x. p ≤ℤ x) r v.large;
  }

-- An ascending range that another rearrangement leaves alone still ascends.
pub IsSortedOn-below :
    {lo hi l h : ℕ} {b c : Array}
    → Rearranges l h b c
    → hi ≤ l
    → IsSortedOn lo hi b
    → IsSortedOn lo hi c
IsSortedOn-below r u s i j p q w =
    rw (r.below i (omega arith), r.below j (omega arith)) (s i j p q w)

pub IsSortedOn-above :
    {lo hi l h : ℕ} {b c : Array}
    → Rearranges l h b c
    → h ≤ lo
    → IsSortedOn lo hi b
    → IsSortedOn lo hi c
IsSortedOn-above r u s i j p q w =
    rw (r.above i (omega arith), r.above j (omega arith)) (s i j p q w)

-- A split whose two sides ascend ascends as a whole.
pub IsSplit-IsSortedOn :
    {lo e s hi : ℕ} {p : ℤ} {a b : Array}
    → IsSplit lo e s hi p a b
    → IsSortedOn lo e b
    → IsSortedOn s hi b
    → SortsOn lo hi a b
IsSplit-IsSortedOn {lo} {e} {s} {hi} {p} {a} {b} v l r = record {
  ascending = λ i j u w z.
      ground (arith, l i j, r i j, v.small i, v.same i, v.large i, v.small j, v.same j, v.large j);
  moved = v.moved;
}

-- The pivot goes into the hole where the ends met: the range is split around it.
pub Met-IsSplit :
    (lo hi : ℕ) (p : ℤ) (o : Array) (s : Array × ℕ)
    → Met lo hi p o s
    → Returns (store s.0 s.1 p) λ b. IsSplit lo s.1 (s.1 + 1) hi p o b
Met-IsSplit lo hi p o s v =
    let h : s.1 < length s.0 = omega (arith, v.upper, v.fits) in
    (
      set s.0 s.1 p,
      store-ok s.0 s.1 p h,
      record {
        left = v.lower;
        middle = omega arith;
        right = omega (arith, v.upper);
        fits = omega (arith, v.fits, length-set s.0 s.1 p);
        moved = v.moved;
        small = v.small;
        same = λ i u w. at-set s.0 s.1 i p h ∙ ground arith;
        large = λ i u w. v.large i (omega arith) w;
      },
    )

-- Ranges of at most two entries are sorted by one comparison.
pub sort_two_lem :
    (a : Array) (lo hi : ℕ)
    → hi ≤ lo + 2
    → hi ≤ length a
    → Returns (sort_two a lo hi) (SortsOn lo hi a)
unfolding sort_two
sort_two_lem a lo hi h len = elim (Bool-cases (hi == lo + 2)) [
  | inr short ↦ (
    a,
    rw short,
    record { ascending = λ i j u w z. ground arith; moved = Rearranges-refl lo hi a },
  )
  | inl two ↦
      let two' : hi ≡ lo + 2 = ground arith in
      let pl : lo < length a = omega arith in
      let pr : hi - 1 < length a = omega arith in
      elim (Bool-cases (ltb_ℤ (at a (hi - 1)) (at a lo))) [
        | inr le ↦ (
          a,
          rw (two, load-ok a lo pl, load-ok a (hi - 1) pr, le),
          record { ascending = λ i j u w z. ground arith; moved = Rearranges-refl lo hi a },
        )
        | inl gt ↦ (
          swap a lo (hi - 1),
          rw (two, load-ok a lo pl, load-ok a (hi - 1) pr, gt) (swap_elems-ok a lo (hi - 1) pl pr),
          record {
            ascending = λ i j u w z.
                rw (at-swap a lo (hi - 1) i pl pr, at-swap a lo (hi - 1) j pl pr) (ground arith);
            moved =
                swap-Rearranges lo hi a lo (hi - 1) (omega arith) (omega arith) (omega arith)
                  (omega arith) len;
          },
        )
      ]
]
