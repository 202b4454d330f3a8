-- ===== src/Sort/Quick/Median.antt =====
-- `choose_right` and `partition`: the pivot is the median of three, and the range is split around it.
use my_little_tool.Prelude.{
  ℕ, ◌+◌, ◌-◌, ◌/◌, ◌≤◌, ◌<◌, ◌≡◌, ◌≢◌, ◌⊎◌, refl, ap, ◌∙◌, arith, ℤ, ◌≤ℤ◌, ltb_ℤ, if◌then◌else◌,
  Bool-cases, inl, inr, length, ok, ◌>>=◌, Returns, bind_rule, weaken,
}
use my_little_tool.Sort.Array.{Array, store, swap_elems, at, Rearranges}
use my_little_tool.Sort.Array.Access.{load-ok, swap_elems-ok, swap, at-swap}
use my_little_tool.Sort.Array.Rearrange.{Rearranges-refl, Rearranges-trans, swap-Rearranges}
use my_little_tool.Sort.Quick.{hole_right_loop, swap_if_less, choose_right, partition}
use my_little_tool.Sort.Quick.Hole.{hole_right_loop_lem}
use my_little_tool.Sort.Quick.Split.{IsSplit, Met-IsSplit}
use my_little_tool.Sort.Quick.Sides.{start_right}

-- What `if (ptr[i] < ptr[j]) Swap(ptr[i], ptr[j]);` leaves.
pub record Exchanged (lo hi : ℕ) (a : Array) (i j : ℕ) (b : Array) : Type 0 where
  pub moved : Rearranges lo hi a b
  pub ordered : at b j ≤ℤ at b i
  pub either : ((at b i ≡ at a i) × (at b j ≡ at a j)) ⊎ ((at b i ≡ at a j) × (at b j ≡ at a i))
  pub others : (k : ℕ) → k ≢ i → k ≢ j → at b k ≡ at a k

module _ (lo hi : ℕ) (a : Array) (len : hi ≤ length a) (i j : ℕ) where
  pub swap_elems_lem :
      lo ≤ i
      → i < hi
      → lo ≤ j
      → j < hi
      → Returns (swap_elems a i j) λ b. Rearranges lo hi a b × (b ≡ swap a i j)
  swap_elems_lem li hi' lj hj = (
    swap a i j,
    swap_elems-ok a i j (omega arith) (omega arith),
    (swap-Rearranges lo hi a i j li hi' lj hj len, refl),
  )

  pub swap_if_less_lem :
      lo ≤ i → i < hi → lo ≤ j → j < hi → Returns (swap_if_less a i j) (Exchanged lo hi a i j)
  unfolding swap_if_less
  swap_if_less_lem li hi' lj hj =
      let p : i < length a = omega arith in
      let q : j < length a = omega arith in
      elim (Bool-cases (ltb_ℤ (at a i) (at a j))) [
        | inr e ↦ (
          a,
          rw (load-ok a i p, load-ok a j q, e),
          record {
            moved = Rearranges-refl lo hi a;
            ordered = ground arith;
            either = inl (refl, refl);
            others = λ k ni nj. refl;
          },
        )
        | inl e ↦
            let at_i : at (swap a i j) i ≡ at a j = at-swap a i j i p q ∙ ground arith in
            let at_j : at (swap a i j) j ≡ at a i = at-swap a i j j p q ∙ ground arith in
            (
              swap a i j,
              rw (load-ok a i p, load-ok a j q, e) (swap_elems-ok a i j p q),
              record {
                moved = swap-Rearranges lo hi a i j li hi' lj hj len;
                ordered = rw (at_i, at_j) (ground arith);
                either = inr (at_i, at_j);
                others = λ k ni nj. at-swap a i j k p q ∙ ground arith;
              },
            )
      ]

-- The chosen pivot stands at the right end, between the other two of the three.
pub record HasMedian (lo hi : ℕ) (a b : Array) : Type 0 where
  pub moved : Rearranges lo hi a b
  pub above_left : at b lo ≤ℤ at b (hi - 1)
  pub below_middle : at b (hi - 1) ≤ℤ at b (lo + (hi - 1 - lo) / 2)

-- The three entries ascend.
record Ascend3 (lo hi : ℕ) (a b : Array) : Type 0 where
  pub moved : Rearranges lo hi a b
  first : at b lo ≤ℤ at b (lo + (hi - 1 - lo) / 2)
  second : at b (lo + (hi - 1 - lo) / 2) ≤ℤ at b (hi - 1)

module _ (lo hi : ℕ) (a : Array) (big : lo + 2 < hi) where
  middle_entry : ℕ
  middle_entry = lo + (hi - 1 - lo) / 2

  middle_between : (lo < middle_entry) × (middle_entry < hi - 1)
  unfolding middle_entry
  middle_between = (omega arith, omega arith)

  second_exchange :
      (b : Array)
      → hi ≤ length b
      → Rearranges lo hi a b
      → at b lo ≤ℤ at b middle_entry
      → Returns
          (if ltb_ℤ (at b (hi - 1)) (at b middle_entry)
            then (swap_elems b (hi - 1) middle_entry >>= λ c. swap_if_less c middle_entry lo)
            else ok b)
          (Ascend3 lo hi a)
  unfolding middle_entry
  second_exchange b len moved first =
      let r = hi - 1 in
      let m = middle_entry in
      elim (Bool-cases (ltb_ℤ (at b r) (at b m))) [
        | inr e ↦ (b, rw e, record { moved = moved; first = first; second = ground arith })
        | inl e ↦ rw e (
            bind_rule (swap_elems b r m) _
              (swap_elems_lem lo hi b len r m (omega arith) (omega arith) (omega arith)
                (omega arith))
              λ c swapped.
                let (mc, is_swap) = swapped in
                let lc : hi ≤ length c = omega (arith, mc.same_length) in
                let at_m : at c m ≡ at b r =
                  ap (λ d. at d m) is_swap
                  ∙ (at-swap b r m m (omega arith) (omega arith) ∙ ground arith) in
                let at_r : at c r ≡ at b m =
                  ap (λ d. at d r) is_swap
                  ∙ (at-swap b r m r (omega arith) (omega arith) ∙ ground arith) in
                let at_l : at c lo ≡ at b lo =
                  ap (λ d. at d lo) is_swap
                  ∙ (at-swap b r m lo (omega arith) (omega arith) ∙ ground arith) in
                weaken (swap_if_less c m lo)
                  (swap_if_less_lem lo hi c lc m lo (omega arith) (omega arith) (omega arith)
                    (omega arith))
                  λ d x.
                    let at_r' : at d r ≡ at c r = x.others r (omega arith) (omega arith) in
                    record {
                      moved = Rearranges-trans moved (Rearranges-trans mc x.moved);
                      first = x.ordered;
                      second = ground (arith, at_m, at_r, at_l, at_r', x.either);
                    })
      ]

-- On a range of more than two entries inside the array, `choose_right` only rearranges the
-- range, and leaves at its right end an entry that lies between the two at the left end and in
-- the middle.
pub choose_right-HasMedian :
    (a : Array) (lo hi : ℕ)
    → lo + 2 < hi
    → hi ≤ length a
    → Returns (choose_right a lo hi) (HasMedian lo hi a)
unfolding choose_right middle_entry
choose_right-HasMedian a lo hi h len =
    let r = hi - 1 in
    let m = lo + (r - lo) / 2 in
    bind_rule (swap_if_less a m lo) _
      (swap_if_less_lem lo hi a len m lo (omega arith) (omega arith) (omega arith) (omega arith))
      λ b x.
        let lb : hi ≤ length b = omega (arith, x.moved.same_length) in
        rw (load-ok b r (omega arith), load-ok b m (omega arith))
          (bind_rule _ _ (second_exchange lo hi a h b lb x.moved x.ordered) λ c o.
            let lc : hi ≤ length c = omega (arith, o.moved.same_length) in
            weaken (swap_elems c m r)
              (swap_elems_lem lo hi c lc m r (omega arith) (omega arith) (omega arith)
                (omega arith))
              λ d swapped.
                let (md, is_swap) = swapped in
                let at_m : at d m ≡ at c r =
                  ap (λ d. at d m) is_swap
                  ∙ (at-swap c m r m (omega arith) (omega arith) ∙ ground arith) in
                let at_r : at d r ≡ at c m =
                  ap (λ d. at d r) is_swap
                  ∙ (at-swap c m r r (omega arith) (omega arith) ∙ ground arith) in
                let at_l : at d lo ≡ at c lo =
                  ap (λ d. at d lo) is_swap
                  ∙ (at-swap c m r lo (omega arith) (omega arith) ∙ ground arith) in
                record {
                  moved = Rearranges-trans o.moved md;
                  above_left = rw (at_l, at_r) o.first;
                  below_middle = rw (at_m, at_r) o.second;
                })

-- On a range of more than two entries inside the array, `partition` rearranges the range so that
-- the entries before the position it returns are at most the pivot, the entry at that position
-- equals it, and those after are at least it.
pub partition_lem :
    (a : Array) (lo hi : ℕ)
    → lo + 2 < hi
    → hi ≤ length a
    → Returns (partition a lo hi) λ s. (p : ℤ) × IsSplit lo s.1 (s.1 + 1) hi p a s.0
unfolding partition
partition_lem a lo hi h len =
    bind_rule (choose_right a lo hi) _ (choose_right-HasMedian a lo hi h len) λ b m.
      let lb : hi ≤ length b = omega (arith, m.moved.same_length) in
      let p = at b (hi - 1) in
      rw (load-ok b (hi - 1) (omega arith)) (
        bind_rule (hole_right_loop (hi - lo) b p lo (hi - 1)) _
          (hole_right_loop_lem lo hi p a (hi - lo) b lo (hi - 1) (omega arith)
            (start_right lo hi a b (omega arith) lb m.moved))
          λ s met.
            bind_rule (store s.0 s.1 p) _ (Met-IsSplit lo hi p a s met)
              λ c v. ((c, s.1), refl, (p, v)))
