-- ===== src/Sort/Merge/Step.antt =====
-- The merge: what holds while entries move from two ascending ranges into the result.
use my_little_tool.Prelude.{
  ℕ, zero, suc, ◌+◌, ◌-◌, ◌≤◌, ◌<◌, ◌≡◌, refl, ap, ◌∙◌, subst, arith, ℤ, ◌≤ℤ◌, ltb, ltb_ℤ, ◌==◌,
  if◌then◌else◌, Bool-cases, ltb→lt, ltb→ge, ◌⊎◌, inl, inr, length, set, length-set, Returns,
  bind_rule,
}
use my_little_tool.Sort.Array.{Array, at, hit, IsSortedOn}
use my_little_tool.Sort.Array.Access.{load-ok, store-ok, at-set}
use my_little_tool.Sort.Merge.{merge_loop, copy_rest, merge_ranges}
use my_little_tool.Sort.Merge.Prefix.{prefix_count, prefix_count-next, prefix_count-set}

module _ (lo mid hi : ℕ) (a r0 : Array) where
  record Merging (s : Array × ℕ × ℕ × ℕ) : Type 0 where
    first_room : lo ≤ s.1
    first_end : s.1 ≤ mid
    second_room : mid ≤ s.2
    second_end : s.2 ≤ hi
    position : s.3 + mid ≡ s.1 + s.2
    same_length : length s.0 ≡ length r0
    ascending : IsSortedOn lo s.3 s.0
    below_first : (i j : ℕ) → lo ≤ i → i < s.3 → s.1 ≤ j → j < mid → at s.0 i ≤ℤ at a j
    below_second : (i j : ℕ) → lo ≤ i → i < s.3 → s.2 ≤ j → j < hi → at s.0 i ≤ℤ at a j
    counted :
        (v : ℤ)
        → prefix_count v s.3 s.0 + prefix_count v lo a + prefix_count v mid a
          ≡ prefix_count v lo r0 + prefix_count v s.1 a + prefix_count v s.2 a
    below : (i : ℕ) → i < lo → at s.0 i ≡ at r0 i
    above : (i : ℕ) → hi ≤ i → at s.0 i ≡ at r0 i

  module _ (first : IsSortedOn lo mid a) (second : IsSortedOn mid hi a) (len : hi ≤ length a)
      (len0 : hi ≤ length r0) where
    take_first :
        (r : Array) (l t k : ℕ)
        → Merging (r, l, t, k)
        → l < mid
        → ((j : ℕ) → t ≤ j → j < hi → at a l ≤ℤ at a j)
        → Merging (set r k (at a l), l + 1, t, k + 1)
    take_first r l t k m more least =
        let here : k < length r = omega (arith, m.position, m.same_length, m.second_end) in
        let w : (i : ℕ) → at (set r k (at a l)) i ≡ (if k == i then at a l else at r i) =
          λ i. at-set r k i (at a l) here in
        let placed : at (set r k (at a l)) k ≡ at a l = w k ∙ ground arith in
        record {
          first_room = omega (arith, m.first_room);
          first_end = omega arith;
          second_room = m.second_room;
          second_end = m.second_end;
          position = omega (arith, m.position);
          same_length = length-set r k (at a l) ∙ m.same_length;
          ascending =
              λ i j x y z. rw (w i, w j) (ground (arith, m.ascending i j, m.below_first i l));
          below_first =
              λ i j x y z q. rw (w i) (ground (arith, m.below_first i j, first l j, m.first_room));
          below_second = λ i j x y z q. rw (w i) (ground (arith, m.below_second i j, least j));
          counted = λ v. omega (
            arith,
            m.counted v,
            prefix_count-next v k (set r k (at a l)),
            prefix_count-set v (at a l) k k r (omega arith) here,
            prefix_count-next v l a,
            ap (hit v) placed,
          );
          below = λ i x. w i ∙ ground (arith, m.below i, m.position, m.first_room, m.second_room);
          above = λ i x. w i ∙ ground (arith, m.above i, m.position, m.second_end);
        }

    take_second :
        (r : Array) (l t k : ℕ)
        → Merging (r, l, t, k)
        → t < hi
        → ((j : ℕ) → l ≤ j → j < mid → at a t ≤ℤ at a j)
        → Merging (set r k (at a t), l, t + 1, k + 1)
    take_second r l t k m more least =
        let here : k < length r = omega (arith, m.position, m.same_length, m.first_end) in
        let w : (i : ℕ) → at (set r k (at a t)) i ≡ (if k == i then at a t else at r i) =
          λ i. at-set r k i (at a t) here in
        let placed : at (set r k (at a t)) k ≡ at a t = w k ∙ ground arith in
        record {
          first_room = m.first_room;
          first_end = m.first_end;
          second_room = omega (arith, m.second_room);
          second_end = omega arith;
          position = omega (arith, m.position);
          same_length = length-set r k (at a t) ∙ m.same_length;
          ascending =
              λ i j x y z. rw (w i, w j) (ground (arith, m.ascending i j, m.below_second i t));
          below_first = λ i j x y z q. rw (w i) (ground (arith, m.below_first i j, least j));
          below_second = λ i j x y z q.
              rw (w i) (ground (arith, m.below_second i j, second t j, m.second_room));
          counted = λ v. omega (
            arith,
            m.counted v,
            prefix_count-next v k (set r k (at a t)),
            prefix_count-set v (at a t) k k r (omega arith) here,
            prefix_count-next v t a,
            ap (hit v) placed,
          );
          below = λ i x. w i ∙ ground (arith, m.below i, m.position, m.first_room, m.second_room);
          above = λ i x. w i ∙ ground (arith, m.above i, m.position, m.first_end);
        }

    -- The loop stops when one range is used up.
    record Stopped (s : Array × ℕ × ℕ × ℕ) : Type 0 where
      merging : Merging s
      one_left : (s.1 ≡ mid) ⊎ (s.2 ≡ hi)

    merge_loop_lem :
        (fuel : ℕ) (r : Array) (l t k : ℕ)
        → mid + hi < l + t + fuel
        → Merging (r, l, t, k)
        → Returns (merge_loop fuel a mid hi (r, l, t, k)) Stopped
    unfolding merge_loop
    merge_loop_lem zero r l t k f m = absurd (omega (arith, m.first_end, m.second_end))
    merge_loop_lem (suc fuel) r l t k f m = elim (Bool-cases (ltb l mid)) [
      | inr done ↦ (
        (r, l, t, k),
        rw done refl,
        record { merging = m; one_left = inl (omega (arith, ltb→ge _ _ done, m.first_end)) },
      )
      | inl more ↦ elim (Bool-cases (ltb t hi)) [
        | inr done ↦ (
          (r, l, t, k),
          rw (more, done) refl,
          record { merging = m; one_left = inr (omega (arith, ltb→ge _ _ done, m.second_end)) },
        )
        | inl more' ↦
            let lm = ltb→lt _ _ more in
            let th = ltb→lt _ _ more' in
            let kr : k < length r = omega (arith, m.position, m.same_length) in
            rw
              (
                more,
                more',
                load-ok a l (omega (arith, m.second_room)),
                load-ok a t (omega arith),
                store-ok r k (at a l) kr,
                store-ok r k (at a t) kr,
              )
              (elim (Bool-cases (ltb_ℤ (at a l) (at a t))) [
                | inl less ↦ rw less (
                    merge_loop_lem fuel (set r k (at a l)) (l + 1) t (k + 1) (omega arith) (
                      take_first r l t k m lm (λ j x y. ground (arith, second t j, m.second_room))))
                | inr more_eq ↦ rw more_eq (
                    merge_loop_lem fuel (set r k (at a t)) l (t + 1) (k + 1) (omega arith)
                      (take_second r l t k m th (λ j x y. ground (arith, first l j, m.first_room))))
              ])
      ]
    ]

    rest_of_first :
        (n : ℕ) (r : Array) (l t k : ℕ)
        → l + n ≡ mid
        → (n ≡ 0) ⊎ (t ≡ hi)
        → Merging (r, l, t, k)
        → Returns (copy_rest n a l (r, k)) λ s. Merging (s.0, mid, t, s.1)
    unfolding copy_rest
    rest_of_first zero r l t k e c m =
        let z : l ≡ mid = omega arith in ((r, k), refl, subst (λ i. Merging (r, i, t, k)) z m)
    rest_of_first (suc n) r l t k e c m =
        let end : t ≡ hi = ground arith in
        let kr : k < length r = omega (arith, m.position, m.same_length, m.second_end) in
        rw (load-ok a l (omega (arith, m.second_room, m.second_end)), store-ok r k (at a l) kr)
          (rest_of_first n (set r k (at a l)) (l + 1) t (k + 1) (omega arith) (inr end)
            (take_first r l t k m (omega arith) (λ j x y. absurd (omega arith))))

    rest_of_second :
        (n : ℕ) (r : Array) (t k : ℕ)
        → t + n ≡ hi
        → Merging (r, mid, t, k)
        → Returns (copy_rest n a t (r, k)) λ s. Merging (s.0, mid, hi, s.1)
    unfolding copy_rest
    rest_of_second zero r t k e m =
        let z : t ≡ hi = omega arith in ((r, k), refl, subst (λ i. Merging (r, mid, i, k)) z m)
    rest_of_second (suc n) r t k e m =
        let kr : k < length r = omega (arith, m.position, m.same_length, m.first_end) in
        rw (load-ok a t (omega arith), store-ok r k (at a t) kr)
          (rest_of_second n (set r k (at a t)) (t + 1) (k + 1) (omega arith)
            (take_second r mid t k m (omega arith) (λ j x y. absurd (omega arith))))

  -- The result holds the entries of the range of `a`, in order, and is unchanged elsewhere.
  pub record IsMerged (r : Array) : Type 0 where
    pub same_length : length r ≡ length r0
    pub ascending : IsSortedOn lo hi r
    pub counted :
        (v : ℤ)
        → prefix_count v hi r + prefix_count v lo a ≡ prefix_count v lo r0 + prefix_count v hi a
    pub below : (i : ℕ) → i < lo → at r i ≡ at r0 i
    pub above : (i : ℕ) → hi ≤ i → at r i ≡ at r0 i

  -- On two neighbouring ascending ranges of `a`, the three loops end without a fault, and leave
  -- in `[lo, hi)` of the result the entries of both ranges, ascending, with nothing changed
  -- outside.
  pub merge_ranges-IsMerged :
      lo ≤ mid
      → mid ≤ hi
      → IsSortedOn lo mid a
      → IsSortedOn mid hi a
      → hi ≤ length a
      → hi ≤ length r0
      → Returns (merge_ranges a r0 lo mid hi) IsMerged
  unfolding merge_ranges
  merge_ranges-IsMerged h u first second len len0 =
      let start : Merging (r0, lo, mid, lo) = record {
        first_room = omega arith;
        first_end = h;
        second_room = omega arith;
        second_end = u;
        position = omega arith;
        same_length = refl;
        ascending = λ i j x y z. absurd (omega arith);
        below_first = λ i j x y z q. absurd (omega arith);
        below_second = λ i j x y z q. absurd (omega arith);
        counted = λ v. omega arith;
        below = λ i x. refl;
        above = λ i x. refl;
      } in
      bind_rule _ _
        (merge_loop_lem first second len len0 (hi - lo + 1) r0 lo mid lo (omega arith) start)
        λ s stopped.
          let m = stopped.merging in
          let first_end = m.first_end in
          let second_end = m.second_end in
          bind_rule _ _
            (rest_of_first first second len len0 (mid - s.1) s.0 s.1 s.2 s.3 (omega arith)
              (ground (arith, stopped.one_left)) m)
            λ p m1.
              bind_rule _ _
                (rest_of_second first second len len0 (hi - s.2) p.0 s.2 p.1 (omega arith) m1)
                λ q m2.
                  let z : q.1 ≡ hi = omega (arith, m2.position) in
                  (
                    q.0,
                    refl,
                    record {
                      same_length = m2.same_length;
                      ascending = subst (λ n. IsSortedOn lo n q.0) z m2.ascending;
                      counted = λ v. omega (arith, m2.counted v, ap (λ n. prefix_count v n q.0) z);
                      below = m2.below;
                      above = m2.above;
                    },
                  )
