-- ===== src/Sort/Insertion/Gap.antt =====
-- A pass of Shell's sort with any gap is a rearrangement; the pass with gap 1 sorts.
use my_little_tool.Prelude.{
  ℕ, zero, suc, ◌+◌, ◌-◌, ◌≤◌, ◌<◌, ◌≡◌, refl, sym, ◌∙◌, subst, arith, ℤ, ltb_ℤ, leb, leb→le,
  Bool-cases, inl, inr, true, length, set, length-set, Returns, bind_rule, weaken, for_up_rule,
}
use my_little_tool.Sort.Array.{Array, at, Rearranges}
use my_little_tool.Sort.Array.Access.{load-ok, store-ok, set-at}
use my_little_tool.Sort.Array.Rearrange.{
  Rearranges-refl, Rearranges-trans, swap-Rearranges, fill-swap,
}
use my_little_tool.Sort.Insertion.{shift, shift_gap, gap_step, gap_pass}
use my_little_tool.Sort.Insertion.Slot.{Prefix, place_lem}

-- What a shift by any gap ends with, from the slot `k` of `v`.
pub record Moved (hi k : ℕ) (temp : ℤ) (v : Array) (r : Array × ℕ) : Type 0 where
  pub room : r.1 ≤ k
  pub size : length r.0 ≡ length v
  pub moved : Rearranges 0 hi v (set r.0 r.1 temp)

shift_gap_lem :
    (hi gap : ℕ) (temp : ℤ) (fuel k : ℕ) (a : Array)
    → 0 < gap
    → k < fuel
    → k < hi
    → hi ≤ length a
    → Returns (shift_gap fuel gap a temp k) (Moved hi k temp (set a k temp))
unfolding shift_gap
shift_gap_lem hi gap temp zero k a g f h len = elim f [ ]
shift_gap_lem hi gap temp (suc fuel) k a g f h len =
    let stop : Moved hi k temp (set a k temp) (a, k) = record {
      room = omega arith;
      size = sym (length-set a k temp);
      moved = Rearranges-refl 0 hi _;
    } in
    elim (Bool-cases (leb gap k)) [
      | inr e ↦ ((a, k), rw e, stop)
      | inl e ↦
          let low : gap ≤ k = leb→le gap k e in
          let j = k - gap in
          let p : k < length a = omega arith in
          let q : j < length a = omega arith in
          elim (Bool-cases (ltb_ℤ temp (at a j))) [
            | inr e' ↦ ((a, k), rw (e, load-ok a j q, e'), stop)
            | inl e' ↦
                let b = set a k (at a j) in
                let wide : hi ≤ length b = omega (arith, length-set a k (at a j)) in
                rw (e, load-ok a j q, e', store-ok a k (at a j) p)
                  (weaken (shift_gap fuel gap b temp j)
                    (shift_gap_lem hi gap temp fuel j b g (omega arith) (omega arith) wide)
                    λ r s.
                      let room : r.1 ≤ j = s.room in
                      record {
                        room = omega arith;
                        size =
                            s.size
                            ∙ omega (
                              arith,
                              length-set b j temp,
                              length-set a k (at a j),
                              length-set a k temp,
                            );
                        moved =
                            Rearranges-trans
                              (swap-Rearranges 0 hi (set a k temp) k j (omega arith) h (omega arith)
                                (omega arith) (omega (arith, length-set a k temp)))
                              (subst (λ w. Rearranges 0 hi w (set r.0 r.1 temp))
                                (fill-swap a k j temp p (omega arith)) s.moved);
                      })
          ]
    ]

-- With gap 1 it is the shift of straight insertion.
shift_gap_one :
    (temp : ℤ) (fuel k : ℕ) (a : Array) → k < fuel → shift_gap fuel 1 a temp k ≡ shift a temp k
unfolding shift_gap shift
shift_gap_one temp zero k a f = elim f [ ]
shift_gap_one temp (suc fuel) zero a f = refl
shift_gap_one temp (suc fuel) (suc k) a f =
    let positive : leb 1 (suc k) ≡ true = ground arith in
    let back : suc k - 1 ≡ k = omega arith in
    let rest : (b : Array) → shift_gap fuel 1 b temp k ≡ shift b temp k =
      λ b. shift_gap_one temp fuel k b (omega arith) in
    rw (positive, back) (simp rest)

gap_step_lem :
    (gap j : ℕ) (a b : Array)
    → 0 < gap
    → j < length a
    → Rearranges 0 (length a) a b
    → Returns (gap_step gap j b) (Rearranges 0 (length a) a)
unfolding gap_step
gap_step_lem gap j a b g h r =
    let p : j < length b = omega (arith, r.same_length) in
    rw (load-ok b j p) (
      bind_rule (shift_gap (j + 1) gap b (at b j) j) _
        (shift_gap_lem (length a) gap (at b j) (j + 1) j b g (omega arith) h
          (omega (arith, r.same_length)))
        λ s m.
          let room : s.1 ≤ j = m.room in
          let size : s.1 < length s.0 = omega (arith, m.size, length-set b j (at b j)) in
          (
            set s.0 s.1 (at b j),
            store-ok s.0 s.1 (at b j) size,
            Rearranges-trans r (
                subst (λ w. Rearranges 0 (length a) w (set s.0 s.1 (at b j))) (set-at b j) m.moved),
          ))

gap_step_one_lem :
    (a : Array) (i : ℕ) (b : Array)
    → i < length a
    → Prefix a i b
    → Returns (gap_step 1 i b) (Prefix a (i + 1))
unfolding gap_step
gap_step_one_lem a i b u inv =
    let p : i < length b = omega (arith, inv.moved.same_length) in
    rw (load-ok b i p, shift_gap_one (at b i) (i + 1) i b (omega arith)) (place_lem a i b u inv)

-- A pass with any gap is a rearrangement.
pub gap_pass_lem :
    (gap : ℕ) (a b : Array)
    → 0 < gap
    → gap ≤ length a
    → Rearranges 0 (length a) a b
    → Returns (gap_pass gap b) (Rearranges 0 (length a) a)
unfolding gap_pass
gap_pass_lem gap a b g h r =
    for_up_rule (λ j c. Rearranges 0 (length a) a c) (gap_step gap) (length b - gap) gap (length a)
      b (omega (arith, r.same_length)) (λ j c l u s. gap_step_lem gap j a c g u s) r

-- The pass with gap 1 leaves the array ascending.
pub gap_pass_one_lem :
    (a b : Array)
    → 1 ≤ length a
    → Rearranges 0 (length a) a b
    → Returns (gap_pass 1 b) (Prefix a (length a))
unfolding gap_pass
gap_pass_one_lem a b h r =
    for_up_rule (λ i c. Prefix a i c) (gap_step 1) (length b - 1) 1 (length a) b
      (omega (arith, r.same_length)) (λ i c l u s. gap_step_one_lem a i c u s)
      (record { ascends = λ i j l m n. ground arith; moved = r })
