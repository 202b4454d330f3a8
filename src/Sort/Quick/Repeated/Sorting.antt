-- ===== src/Sort/Quick/Repeated/Sorting.antt =====
-- `deal_repeat` as a whole, and the two quicksorts that use it.
use my_little_tool.Prelude.{
  ℕ, zero, suc, ◌+◌, ◌-◌, ◌≤◌, ◌<◌, ◌≡◌, ◌≢◌, refl, ◌∙◌, subst, arith, ℤ, ltb, leb, leb→le, leb→gt,
  false, ◌==◌, Bool-cases, inl, inr, length, Returns, bind_rule, weaken, for_up, for_down,
  for_up_rule, for_down_rule, lt_or_ge,
}
use my_little_tool.Sort.Array.{Array, at, AllOn, Sorts}
use my_little_tool.Sort.Array.Rearrange.{Rearranges-refl}
use my_little_tool.Sort.Quick.{partition}
use my_little_tool.Sort.Quick.Split.{IsSplit, IsSplit-left, IsSplit-right, sort_two_lem}
use my_little_tool.Sort.Quick.Sides.{
  SortsBelow, sort_sides, sort_sides_right, guarded, guarded-SortsBelow,
}
use my_little_tool.Sort.Quick.Median.{partition_lem}
use my_little_tool.Sort.Quick.Sorting.{SortsOn-Sorts}
use my_little_tool.Sort.Quick.Repeated.{
  repeat_left, repeat_right, deal_repeat, better_quick_sort2_range, better_quick_sort2,
  better_quick_sort3_range, better_quick_sort3,
}
use my_little_tool.Sort.Quick.Repeated.Gather.{
  GatheredLeft, repeat_left_lem, GatheredRight, repeat_right_lem,
}

module _ (lo pos hi : ℕ) (p : ℤ) (a : Array) (l : lo ≤ pos) (u : pos < hi) (len : hi ≤ length a)
    (here : at a pos ≡ p) where
  gather_left :
      Returns
        (for_down (pos - lo) (λ n. repeat_left pos (lo + n)) (a, pos))
        (GatheredLeft lo lo pos p a)
  gather_left =
      weaken _
        (for_down_rule (λ k s. GatheredLeft lo (lo + k) pos p a s) (λ n. repeat_left pos (lo + n))
          (pos - lo) (a, pos)
          (λ k s below g.
            repeat_left_lem lo pos (lo + k) p a s (omega arith) (omega arith) (omega arith) here
              (subst (λ i. GatheredLeft lo i pos p a s) (omega arith) g))
          (record {
            room = omega arith;
            bound = omega arith;
            moved = Rearranges-refl lo pos a;
            same = λ i m n. absurd (omega arith);
            other = λ i m n. absurd (omega arith);
          }))
        λ s g. subst (λ i. GatheredLeft lo i pos p a s) (omega arith) g

  gather_right :
      Returns
        (for_up (hi - (pos + 1)) (pos + 1) (repeat_right pos) (a, pos + 1))
        (GatheredRight pos hi hi p a)
  gather_right =
      for_up_rule (λ i t. GatheredRight pos i hi p a t) (repeat_right pos) (hi - (pos + 1))
        (pos + 1) hi (a, pos + 1) (omega arith)
        (λ i t m n g. repeat_right_lem pos i hi p a t (omega arith) n len here g)
        (record {
          room = omega arith;
          bound = omega arith;
          moved = Rearranges-refl (pos + 1) hi a;
          same = λ i m n. absurd (omega arith);
          other = λ i m n. absurd (omega arith);
        })

-- The range is split in three around the pivot, and no entry equal to it is left outside.
pub record IsGathered (lo hi : ℕ) (p : ℤ) (o : Array) (r : Array × ℕ × ℕ) : Type 0 where
  pub split : IsSplit lo r.1 r.2 hi p o r.0
  pub inside : r.1 < r.2
  pub none_left : AllOn (λ x. x ≢ p) lo r.1 r.0
  pub none_right : AllOn (λ x. x ≢ p) r.2 hi r.0

-- On a range that is split around a pivot at `pos`, `deal_repeat` rearranges the range so that
-- the entries equal to the pivot fill the part it returns, with smaller entries before it and
-- larger ones after it.
pub deal_repeat-IsGathered :
    (lo pos hi : ℕ) (p : ℤ) (o a : Array)
    → IsSplit lo pos (pos + 1) hi p o a
    → Returns (deal_repeat a lo pos hi) (IsGathered lo hi p o)
unfolding deal_repeat
deal_repeat-IsGathered lo pos hi p o a v =
    let u : pos < hi = omega (arith, v.right) in
    let here : at a pos ≡ p = v.same pos (omega arith) (omega arith) in
    bind_rule _ _ (gather_left lo pos hi p a v.left u v.fits here) λ s g.
      let w = IsSplit-left v g.moved in
      bind_rule _ _
        (gather_right lo pos hi p s.0 v.left u w.fits (w.same pos (omega arith) (omega arith)))
        λ t h.
          let x = IsSplit-right w h.moved in
          (
            (t.0, s.1, t.1),
            refl,
            record {
              split = record {
                left = g.room;
                middle = omega (arith, g.bound, h.room);
                right = h.bound;
                fits = x.fits;
                moved = x.moved;
                small = λ i m n. x.small i m (omega (arith, g.bound));
                same = λ i m n. elim (lt_or_ge i pos) [
                  | inl lower ↦ h.moved.below i (omega arith) ∙ g.same i m lower
                  | inr upper ↦ elim (lt_or_ge pos i) [
                    | inl higher ↦ h.same i (omega arith) n
                    | inr at_pos ↦ x.same i upper (omega arith)
                  ]
                ];
                large = λ i m n. x.large i (omega (arith, h.room)) n;
              };
              inside = omega (arith, g.bound, h.room);
              none_left = λ i m n. rw (h.moved.below i (omega (arith, g.bound))) (g.other i m n);
              none_right = h.other;
            },
          )

better_quick_sort2_range_lem : (fuel : ℕ) → SortsBelow fuel (better_quick_sort2_range fuel)
unfolding better_quick_sort2_range
better_quick_sort2_range_lem zero a lo hi l f h = absurd (omega arith)
better_quick_sort2_range_lem (suc fuel) a lo hi l f h = elim (Bool-cases (leb hi (lo + 2))) [
  | inl short ↦ rw short (sort_two_lem a lo hi (leb→le _ _ short) h)
  | inr long ↦ rw long (
      bind_rule (partition a lo hi) _ (partition_lem a lo hi (leb→gt _ _ long) h) λ s part.
        let (p, v) = part in
        bind_rule (deal_repeat s.0 lo s.1 hi) _ (deal_repeat-IsGathered lo s.1 hi p a s.0 v) λ r g.
          let w = g.split in
          sort_sides fuel (guarded (better_quick_sort2_range fuel))
            (guarded-SortsBelow fuel _ (better_quick_sort2_range_lem fuel)) lo r.1 r.2 hi p a r.0
            (omega (arith, g.inside, g.split.right)) (omega (arith, g.inside, g.split.left)) w)
]

better_quick_sort3_range_lem : (fuel : ℕ) → SortsBelow fuel (better_quick_sort3_range fuel)
unfolding better_quick_sort3_range
better_quick_sort3_range_lem zero a lo hi l f h = absurd (omega arith)
better_quick_sort3_range_lem (suc fuel) a lo hi l f h = elim (Bool-cases (ltb (lo + 1) hi)) [
  | inr short ↦ (
    a,
    rw short,
    record { ascending = λ i j u w z. ground arith; moved = Rearranges-refl lo hi a },
  )
  | inl two ↦ elim (Bool-cases (leb hi (lo + 2))) [
    | inl short ↦ rw (two, short) (sort_two_lem a lo hi (leb→le _ _ short) h)
    | inr long ↦
        rw (two, long)
          (bind_rule (partition a lo hi) _ (partition_lem a lo hi (leb→gt _ _ long) h) λ s part.
            let (p, v) = part in
            bind_rule (deal_repeat s.0 lo s.1 hi) _ (deal_repeat-IsGathered lo s.1 hi p a s.0 v)
              λ r g. elim (Bool-cases (ltb (r.1 + r.2) (hi + lo))) [
                | inl left ↦ rw left (
                    sort_sides fuel (better_quick_sort3_range fuel)
                      (better_quick_sort3_range_lem fuel) lo r.1 r.2 hi p a r.0
                      (omega (arith, g.inside, g.split.right))
                      (omega (arith, g.inside, g.split.left)) g.split)
                | inr right ↦ rw right (
                    sort_sides_right fuel (better_quick_sort3_range fuel)
                      (better_quick_sort3_range_lem fuel) lo r.1 r.2 hi p a r.0
                      (omega (arith, g.inside, g.split.right))
                      (omega (arith, g.inside, g.split.left)) g.split)
              ])
  ]
]

-- On an array that is not empty, `better_quick_sort2` ends without a fault (no access outside
-- the array, no failed `assert`, no loop out of fuel), and its result ascends and is a
-- rearrangement of the array.
pub better_quick_sort2-Sorts : (a : Array) → 0 < length a → Returns (better_quick_sort2 a) (Sorts a)
unfolding better_quick_sort2
better_quick_sort2-Sorts a h =
    let filled : (length a == 0) ≡ false = ground arith in
    rw filled (
      weaken _
        (better_quick_sort2_range_lem (length a + 1) a 0 (length a) (omega arith) (omega arith)
          (omega arith))
        (SortsOn-Sorts a))

-- On an array that is not empty, `better_quick_sort3` ends without a fault (no access outside
-- the array, no failed `assert`, no loop out of fuel), and its result ascends and is a
-- rearrangement of the array.
pub better_quick_sort3-Sorts : (a : Array) → 0 < length a → Returns (better_quick_sort3 a) (Sorts a)
unfolding better_quick_sort3
better_quick_sort3-Sorts a h =
    let filled : (length a == 0) ≡ false = ground arith in
    rw filled (
      weaken _
        (better_quick_sort3_range_lem (length a + 1) a 0 (length a) (omega arith) (omega arith)
          (omega arith))
        (SortsOn-Sorts a))
