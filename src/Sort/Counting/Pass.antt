-- ===== src/Sort/Counting/Pass.antt =====
-- The three loops of a counting pass put every entry of the range at its position.
use my_little_tool.Prelude.{
  ℕ, suc, ◌+◌, ◌-◌, ◌≤◌, ◌<◌, ◌≡◌, inl, inr, refl, ap, ◌∙◌, arith, true, false, ltb, ◌==◌, lt_or_ge,
  if◌then◌else◌, List, ℤ, Run, ok, Returns, bind_rule, weaken, length, replicate, length-set,
  length-replicate, cell, cell-set, cell-replicate, fetch-ok, assign-ok, for_up_rule, for_down_rule,
}
use my_little_tool.Sort.Array.{Array, at}
use my_little_tool.Sort.Array.Access.{load-ok, store-ok, at-set}
use my_little_tool.Sort.Counting.{tally, running_sums, scatter, counting_pass}
use my_little_tool.Sort.Counting.Tally.{
  equal_below, less, equal_below-next, less-next, less-first, position, position-lt, position-apart,
}

module _ (digit : ℤ → Run ℕ) (dg : ℕ → ℕ) (size start n : ℕ) (a : Array)
    (inside : start + n ≤ length a)
    (digits : (i : ℕ) → i < n → digit (at a (start + i)) ≡ ok (dg i))
    (small : (i : ℕ) → i < n → dg i < size) where
  -- The counts where those of the digits below `m` are summed already.
  record Counted (value : ℕ → ℕ) (counts : List ℕ) : Type 0 where
    as_long : length counts ≡ size
    holds : (d : ℕ) → d < size → cell 0 counts d ≡ value d

  tally-Counted :
      (counts : List ℕ)
      → Counted (λ d. 0) counts
      → Returns (tally digit start n a counts) (Counted (λ d. equal_below dg d n))
  unfolding tally
  tally-Counted counts c =
      for_up_rule (λ k. Counted (λ d. equal_below dg d k)) _ n 0 n counts (omega arith)
        (λ k s low high h.
          let l : start + k < length a = omega arith in
          let there : dg k < length s = omega (arith, small k high, h.as_long) in
          rw
            (
              load-ok a (start + k) l,
              digits k high,
              fetch-ok 0 s (dg k) there,
              assign-ok s (dg k) (cell 0 s (dg k) + 1) there,
            )
            (
              _,
              refl,
              record {
                as_long = length-set s (dg k) _ ∙ h.as_long;
                holds = λ d m.
                    cell-set 0 s (dg k) d _ there
                    ∙ ground (
                      arith,
                      h.holds d m,
                      h.holds (dg k) (small k high),
                      equal_below-next dg d k,
                    );
              },
            ))
        (record { as_long = c.as_long; holds = λ d m. c.holds d m ∙ unfold equal_below in refl })

  -- The first `m` counts are sums.
  abbrev summed : ℕ → ℕ → ℕ
  summed m d = if ltb d m then less dg n (d + 1) else equal_below dg d n

  running_sums-Counted :
      (counts : List ℕ)
      → 1 ≤ size
      → Counted (λ d. equal_below dg d n) counts
      → Returns (running_sums size counts) (Counted (λ d. less dg n (d + 1)))
  unfolding running_sums
  running_sums-Counted counts some_digit c =
      weaken _
        (for_up_rule (λ m. Counted (summed m)) _ (size - 1) 1 size counts (omega arith)
          (λ k s low high h.
            let before : k - 1 < length s = omega (arith, h.as_long) in
            let there : k < length s = omega (arith, h.as_long) in
            let b : cell 0 s (k - 1) ≡ less dg n k =
              h.holds (k - 1) (omega arith)
              ∙ (let e : k - 1 + 1 ≡ k = omega arith in ground (arith, ap (less dg n) e)) in
            rw
              (
                fetch-ok 0 s (k - 1) before,
                fetch-ok 0 s k there,
                assign-ok s k (cell 0 s k + cell 0 s (k - 1)) there,
              )
              (
                _,
                refl,
                record {
                  as_long = length-set s k _ ∙ h.as_long;
                  holds = λ d m.
                      cell-set 0 s k d _ there
                      ∙ ground (arith, b, h.holds d m, h.holds k high, less-next dg n k);
                },
              ))
          (record {
            as_long = c.as_long;
            holds = λ d m. c.holds d m ∙ ground (arith, less-next dg n 0, less-first dg n);
          }))
        λ s h. record { as_long = h.as_long; holds = λ d m. h.holds d m ∙ ground arith }

  -- The entries from `k` on are placed.
  record Placed (room k : ℕ) (s : List ℕ × Array) : Type 0 where
    counted : Counted (λ d. less dg n d + equal_below dg d k) s.0
    as_long : length s.1 ≡ room
    placed : (i : ℕ) → k ≤ i → i < n → at s.1 (position dg n i) ≡ at a (start + i)

  placed-next :
      (k i : ℕ) (r : Array)
      → k ≤ i
      → i < n
      → (suc k ≤ i → i < n → at r (position dg n i) ≡ at a (start + i))
      → (if position dg n k == position dg n i then at a (start + k) else at r (position dg n i))
        ≡ at a (start + i)
  placed-next k i r low m old = elim (lt_or_ge k i) [
    | inl later ↦
        let apart : (position dg n k == position dg n i) ≡ false =
          ground (arith, position-apart dg n k i later m) in
        rw apart (old later m)
    | inr now ↦
        let same : k ≡ i = omega arith in
        let e : (position dg n k == position dg n i) ≡ true =
          ground (arith, ap (position dg n) same) in
        rw e (ap (λ j. at a (start + j)) same)
  ]

  scatter-Placed :
      (counts : List ℕ) (result : Array)
      → n ≤ length result
      → Counted (λ d. less dg n (d + 1)) counts
      → Returns (scatter digit start n a (counts, result)) (Placed (length result) 0)
  unfolding scatter
  scatter-Placed counts result room c =
      for_down_rule (Placed (length result)) _ n (counts, result)
        (λ k (s, r) high h.
          let l : start + k < length a = omega arith in
          let d = dg k in
          let there : d < length s = omega (arith, small k high, h.counted.as_long) in
          let here : equal_below dg d (k + 1) ≡ equal_below dg d k + 1 =
            equal_below-next dg d k ∙ ground arith in
          let next : suc k ≡ k + 1 = omega arith in
          let value : cell 0 s d ≡ position dg n k + 1 =
            h.counted.holds d (small k high)
            ∙ (unfold position in omega (arith, here, ap (equal_below dg d) next)) in
          let some_left : (cell 0 s d == 0) ≡ false = ground arith in
          let spot : position dg n k < length r =
            omega (arith, position-lt dg n size k small high, h.as_long) in
          let less_one : cell 0 s d - 1 ≡ position dg n k = omega arith in
          rw
            (
              load-ok a (start + k) l,
              digits k high,
              fetch-ok 0 s d there,
              some_left,
              assign-ok s d (cell 0 s d - 1) there,
              less_one,
              store-ok r (position dg n k) (at a (start + k)) spot,
            )
            (
              _,
              refl,
              record {
                counted = record {
                  as_long = length-set s d _ ∙ h.counted.as_long;
                  holds = λ e m.
                      cell-set 0 s d e _ there
                      ∙ (unfold position in
                          ground (
                            arith,
                            h.counted.holds e m,
                            equal_below-next dg e k,
                            ap (equal_below dg e) next,
                          ));
                };
                as_long = length-set r (position dg n k) _ ∙ h.as_long;
                placed = λ i low m.
                    at-set r (position dg n k) (position dg n i) _ spot
                    ∙ placed-next k i r low m (h.placed i);
              },
            ))
        (record {
          counted = record { as_long = c.as_long; holds = λ d m. c.holds d m ∙ less-next dg n d };
          as_long = refl;
          placed = λ i low high. absurd (omega arith);
        })

  pub record Passed (room : ℕ) (s : List ℕ × Array) : Type 0 where
    pub counts_long : length s.0 ≡ size
    pub starts : (d : ℕ) → d < size → cell 0 s.0 d ≡ less dg n d
    pub as_long : length s.1 ≡ room
    pub placed : (i : ℕ) → i < n → at s.1 (position dg n i) ≡ at a (start + i)

  -- A counting pass ends without a fault. Entry `i` of the range stands at its position, and
  -- `count[d]` is the first position of the digit `d`.
  pub counting_pass-Passed :
      (result : Array)
      → n ≤ length result
      → 1 ≤ size
      → Returns (counting_pass digit size start n a result) (Passed (length result))
  unfolding counting_pass
  counting_pass-Passed result room some_digit =
      bind_rule _ _
        (tally-Counted (replicate size 0)
          (record { as_long = length-replicate size 0; holds = λ d m. cell-replicate 0 size d }))
        λ counts c. bind_rule _ _ (running_sums-Counted counts some_digit c) λ sums c'.
          weaken _ (scatter-Placed sums result room c') λ s h. record {
            counts_long = h.counted.as_long;
            starts = λ d m. h.counted.holds d m ∙ (unfold equal_below in omega arith);
            as_long = h.as_long;
            placed = λ i l. h.placed i (omega arith) l;
          }
