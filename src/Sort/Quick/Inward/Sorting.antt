-- ===== src/Sort/Quick/Inward/Sorting.antt =====
-- `quick_sort3` sorts.
use my_little_tool.Prelude.{
  ℕ, zero, suc, ◌+◌, ◌-◌, ◌/◌, ◌≤◌, ◌<◌, ◌≡◌, refl, ◌∙◌, subst, arith, ℤ, ◌≤ℤ◌, ltb, ltb→lt, ltb→ge,
  leb, leb→le, leb→gt, leb_ℤ, if◌then◌else◌, Bool-cases, inl, inr, length, ok, Returns, bind_rule,
  weaken,
}
use my_little_tool.Sort.Array.{Array, swap_elems, at, Rearranges, Sorts}
use my_little_tool.Sort.Array.Access.{load-ok, swap_elems-ok, swap, at-swap}
use my_little_tool.Sort.Array.Rearrange.{Rearranges-refl, Rearranges-trans, swap-Rearranges}
use my_little_tool.Sort.Quick.Split.{IsSplit, sort_two_lem}
use my_little_tool.Sort.Quick.Sides.{SortsBelow, sort_sides}
use my_little_tool.Sort.Quick.Median.{swap_if_less_lem, swap_elems_lem}
use my_little_tool.Sort.Quick.Sorting.{SortsOn-Sorts}
use my_little_tool.Sort.Quick.Inward.{
  inward_down, inward_up, inward_loop, median_left, quick_sort3_range, quick_sort3,
}

record WentDown (a : Array) (p : ℤ) (l r s : ℕ) : Type 0 where
  lower : l ≤ s
  upper : s ≤ r
  went : l < r → s < r
  passed : (i : ℕ) → s < i → i < r → p ≤ℤ at a i
  found : l < s → at a s ≤ℤ p

inward_down_lem :
    (n : ℕ) (a : Array) (p : ℤ) (l r : ℕ)
    → l + n ≡ r
    → r ≤ length a
    → Returns (inward_down n a p r) (WentDown a p l r)
unfolding inward_down
inward_down_lem zero a p l r e h = (
  r,
  refl,
  record {
    lower = omega arith;
    upper = omega arith;
    went = λ u. absurd (omega arith);
    passed = λ i u w. absurd (omega arith);
    found = λ u. absurd (omega arith);
  },
)
inward_down_lem (suc n) a p l r e h = elim (Bool-cases (leb_ℤ p (at a (r - 1)))) [
  | inr less ↦ (
    r - 1,
    rw (load-ok a (r - 1) (omega arith), less),
    record {
      lower = omega arith;
      upper = omega arith;
      went = λ u. omega arith;
      passed = λ i u w. absurd (omega arith);
      found = λ u. ground arith;
    },
  )
  | inl more ↦
      rw (load-ok a (r - 1) (omega arith), more)
        (weaken _ (inward_down_lem n a p l (r - 1) (omega arith) (omega arith)) λ s t. record {
          lower = t.lower;
          upper = omega (arith, t.upper);
          went = λ u. omega (arith, t.upper);
          passed = λ i u w. ground (arith, t.passed i u);
          found = t.found;
        })
]

record WentUp (a : Array) (p : ℤ) (l r s : ℕ) : Type 0 where
  lower : l ≤ s
  upper : s ≤ r
  passed : (i : ℕ) → l < i → i < s → at a i ≤ℤ p
  found : s < r → (l < s) × (p ≤ℤ at a s)

inward_up_lem :
    (n : ℕ) (a : Array) (p : ℤ) (l r : ℕ)
    → l + n ≡ r
    → r < length a
    → Returns (inward_up n a p l) (WentUp a p l r)
unfolding inward_up
inward_up_lem zero a p l r e h = (
  l,
  refl,
  record {
    lower = omega arith;
    upper = omega arith;
    passed = λ i u w. absurd (omega arith);
    found = λ u. absurd (omega arith);
  },
)
inward_up_lem (suc n) a p l r e h = elim (Bool-cases (leb_ℤ (at a (l + 1)) p)) [
  | inr more ↦ (
    l + 1,
    rw (load-ok a (l + 1) (omega arith), more),
    record {
      lower = omega arith;
      upper = omega arith;
      passed = λ i u w. absurd (omega arith);
      found = λ u. (omega arith, ground arith);
    },
  )
  | inl less ↦
      rw (load-ok a (l + 1) (omega arith), less)
        (weaken _ (inward_up_lem n a p (l + 1) r (omega arith) (omega arith)) λ s t. record {
          lower = omega (arith, t.lower);
          upper = t.upper;
          passed = λ i u w. ground (arith, t.passed i);
          found = λ u. (omega (arith, (t.found u).0), (t.found u).1);
        })
]

-- The pivot stays at `lo`; up to `l` the entries are at most the pivot, from `r` on at least.
record Inward (lo hi : ℕ) (p : ℤ) (o a : Array) (l r : ℕ) : Type 0 where
  lower : lo ≤ l
  ordered : l ≤ r
  inside : l < hi
  upper : r ≤ hi
  fits : hi ≤ length a
  moved : Rearranges lo hi o a
  pivot : at a lo ≡ p
  small : (i : ℕ) → lo ≤ i → i ≤ l → at a i ≤ℤ p
  large : (i : ℕ) → r ≤ i → l < i → i < hi → p ≤ℤ at a i

module _ (lo hi : ℕ) (p : ℤ) (o : Array) where
  inward_round_lem :
      (a : Array) (l r s t : ℕ)
      → l < r
      → Inward lo hi p o a l r
      → WentDown a p l r s
      → WentUp a p l s t
      → Returns (if ltb t s then swap_elems a t s else ok a) λ b. Inward lo hi p o b t s
  inward_round_lem a l r s t lt v d u =
      let sr : s < r = d.went lt in
      elim (Bool-cases (ltb t s)) [
        | inr e ↦
            let met : t ≡ s = omega (arith, ltb→ge t s e, u.upper) in
            (
              a,
              rw e,
              record {
                lower = omega (arith, v.lower, u.lower);
                ordered = omega arith;
                inside = omega (arith, v.upper);
                upper = omega (arith, v.upper);
                fits = v.fits;
                moved = v.moved;
                pivot = v.pivot;
                small = λ i m n. ground (arith, v.small i, u.passed i, d.found, u.lower, d.lower);
                large = λ i m n w. ground (arith, v.large i, d.passed i);
              },
            )
        | inl e ↦
            let room = ltb→lt t s e in
            let (up, big) = u.found room in
            let low : at a s ≤ℤ p = d.found (omega arith) in
            let pt : t < length a = omega (arith, v.fits, v.upper) in
            let ps : s < length a = omega (arith, v.fits, v.upper) in
            let r' =
              swap-Rearranges lo hi a t s (omega (arith, v.lower)) (omega (arith, v.upper))
                (omega (arith, v.lower)) (omega (arith, v.upper)) v.fits in
            (
              swap a t s,
              rw e (swap_elems-ok a t s pt ps),
              record {
                lower = omega (arith, v.lower);
                ordered = omega arith;
                inside = omega (arith, v.upper);
                upper = omega (arith, v.upper);
                fits = omega (arith, v.fits, r'.same_length);
                moved = Rearranges-trans v.moved r';
                pivot = at-swap a t s lo pt ps ∙ ground (arith, v.pivot, v.lower);
                small = λ i m n. rw (at-swap a t s i pt ps) (ground (arith, v.small i, u.passed i));
                large =
                    λ i m n w. rw (at-swap a t s i pt ps) (ground (arith, v.large i, d.passed i));
              },
            )
      ]

  inward_loop_lem :
      (fuel : ℕ) (a : Array) (l r : ℕ)
      → r < fuel + l
      → Inward lo hi p o a l r
      → Returns (inward_loop fuel a p l r) λ s. Inward lo hi p o s.0 s.1 s.1
  unfolding inward_loop
  inward_loop_lem zero a l r f v = absurd (omega (arith, v.ordered))
  inward_loop_lem (suc fuel) a l r f v = elim (Bool-cases (ltb l r)) [
    | inr e ↦
        let same : r ≡ l = omega (arith, ltb→ge l r e, v.ordered) in
        ((a, l), rw e, subst (λ r. Inward lo hi p o a l r) same v)
    | inl e ↦
        let lt = ltb→lt l r e in
        rw e (
          bind_rule _ _
            (inward_down_lem (r - l) a p l r (omega arith) (omega (arith, v.upper, v.fits)))
            λ s d.
              let sr : s < r = d.went lt in
              bind_rule _ _
                (inward_up_lem (s - l) a p l s (omega (arith, d.lower))
                  (omega (arith, v.upper, v.fits)))
                λ t u.
                  bind_rule _ _ (inward_round_lem a l r s t lt v d u)
                    λ b w. inward_loop_lem fuel b t s (omega (arith, u.lower)) w)
  ]

  -- The pivot changes places with the entry where the scans met.
  Inward-IsSplit :
      (s : Array × ℕ)
      → Inward lo hi p o s.0 s.1 s.1
      → Returns (swap_elems s.0 lo s.1) λ b. IsSplit lo s.1 (s.1 + 1) hi p o b
  Inward-IsSplit (a, m) v =
      let pl : lo < length a = omega (arith, v.lower, v.inside, v.fits) in
      let pm : m < length a = omega (arith, v.inside, v.fits) in
      let r =
        swap-Rearranges lo hi a lo m (omega arith) (omega (arith, v.lower, v.inside)) v.lower
          v.inside v.fits in
      (
        swap a lo m,
        swap_elems-ok a lo m pl pm,
        record {
          left = v.lower;
          middle = omega arith;
          right = omega (arith, v.inside);
          fits = omega (arith, v.fits, r.same_length);
          moved = Rearranges-trans v.moved r;
          small =
              λ i k n. rw (at-swap a lo m i pl pm) (ground (arith, v.small i, v.small m, v.lower));
          same = λ i k n. at-swap a lo m i pl pm ∙ ground (arith, v.pivot);
          large = λ i k n. rw (at-swap a lo m i pl pm) (ground (arith, v.large i, v.lower));
        },
      )

median_left_lem :
    (a : Array) (lo hi : ℕ)
    → lo + 2 < hi
    → hi ≤ length a
    → Returns (median_left a lo hi) (Rearranges lo hi a)
unfolding median_left
median_left_lem a lo hi h len =
    let r = hi - 1 in
    let m = lo + (r - lo) / 2 in
    bind_rule _ _
      (swap_if_less_lem lo hi a len m lo (omega arith) (omega arith) (omega arith) (omega arith))
      λ b x.
        bind_rule _ _
          (swap_if_less_lem lo hi b (omega (arith, x.moved.same_length)) r m (omega arith)
            (omega arith) (omega arith) (omega arith))
          λ c y.
            bind_rule _ _
              (swap_if_less_lem lo hi c (omega (arith, x.moved.same_length, y.moved.same_length)) m
                lo (omega arith) (omega arith) (omega arith) (omega arith))
              λ d z.
                weaken _
                  (swap_elems_lem lo hi d
                    (omega (arith, x.moved.same_length, y.moved.same_length, z.moved.same_length)) m
                    lo (omega arith) (omega arith) (omega arith) (omega arith))
                  λ e w.
                    Rearranges-trans x.moved
                      (Rearranges-trans y.moved (Rearranges-trans z.moved w.0))

quick_sort3_range_lem : (fuel : ℕ) → SortsBelow fuel (quick_sort3_range fuel)
unfolding quick_sort3_range
quick_sort3_range_lem zero a lo hi l f h = absurd (omega arith)
quick_sort3_range_lem (suc fuel) a lo hi l f h = elim (Bool-cases (leb hi (lo + 2))) [
  | inl short ↦ rw short (sort_two_lem a lo hi (leb→le _ _ short) h)
  | inr long ↦
      let big : lo + 2 < hi = leb→gt _ _ long in
      rw long (
        bind_rule (median_left a lo hi) _ (median_left_lem a lo hi big h) λ b r.
          let lb : hi ≤ length b = omega (arith, r.same_length) in
          let p = at b lo in
          let start : Inward lo hi p a b lo hi = record {
            lower = omega arith;
            ordered = l;
            inside = omega arith;
            upper = omega arith;
            fits = lb;
            moved = r;
            pivot = refl;
            small = λ i m n. ground arith;
            large = λ i m n w. absurd (omega arith);
          } in
          rw (load-ok b lo (omega arith)) (
            bind_rule _ _ (inward_loop_lem lo hi p a (hi - lo + 1) b lo hi (omega arith) start)
              λ s met. bind_rule _ _ (Inward-IsSplit lo hi p a s met) λ d v.
                sort_sides fuel (quick_sort3_range fuel) (quick_sort3_range_lem fuel) lo s.1
                  (s.1 + 1) hi p a d (omega (arith, v.right)) (omega (arith, v.left)) v))
]

-- On every array, the empty one too, `quick_sort3` ends without a fault, and its result ascends
-- and is a rearrangement of the array.
pub quick_sort3-Sorts : (a : Array) → Returns (quick_sort3 a) (Sorts a)
unfolding quick_sort3
quick_sort3-Sorts a = elim (Bool-cases (leb (length a) 1)) [
  | inl short ↦ (
    a,
    rw short,
    record {
      ascending = λ i j l m n. ground (arith, leb→le _ _ short);
      rearranged = Rearranges-refl _ _ a;
    },
  )
  | inr long ↦ rw long (
      weaken _
        (quick_sort3_range_lem (length a + 1) a 0 (length a) (omega arith) (omega arith)
          (omega arith))
        (SortsOn-Sorts a))
]
