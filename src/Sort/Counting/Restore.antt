-- ===== src/Sort/Counting/Restore.antt =====
-- Sorting by a pass on the values, and adding the least entry back.
use my_little_tool.Prelude.{
  ℕ, ◌+◌, ◌^◌, ◌≤◌, ◌<◌, ◌≡◌, inl, inr, refl, ap, ◌∙◌, sym, subst, arith, true, false, Bool-cases,
  ltb_ℤ, eq_ℤ, not, lt_or_ge, if◌then◌else◌, ℤ, pos, pos_part, ◌≤ℤ◌, ◌<ℤ◌, IsInt, ok, Returns,
  bind_rule, weaken, length,
}
use my_little_tool.Prelude.Int.{eq_of_parts}
use my_little_tool.Sort.Array.{Array, at, Sorts}
use my_little_tool.Sort.Array.Rearrange.{Rearranges-refl}
use my_little_tool.Sort.Merge.Sorting.{memcpy_whole, at_outside}
use my_little_tool.Sort.Counting.{
  minus_ℤ, plus_ℤ, to_index, add_all, value_digit, counting_pass, count_values,
}
use my_little_tool.Sort.Counting.Signed.{
  minus_ℤ-parts, plus_ℤ-parts, plus_ℤ-minus_ℤ, to_int-ok, Mapped, add_all-Mapped, count-plus,
  count-minus,
}
use my_little_tool.Sort.Counting.Pass.{counting_pass-Passed}
use my_little_tool.Sort.Counting.Moved.{placed-Ordered, pass-Rearranges}
use my_little_tool.Sort.Counting.Tally.{Order, by_digit, by_index}

value_digit-ok :
    (min x : ℤ)
    → min ≤ℤ x
    → pos_part (minus_ℤ x min) < 2 ^ 31
    → value_digit min x ≡ ok (pos_part (minus_ℤ x min))
unfolding value_digit to_index
value_digit-ok min x h small =
    let e : minus_ℤ x min ≡ pos (pos_part (minus_ℤ x min)) = ground (arith, minus_ℤ-parts x min) in
    rw (to_int-ok (minus_ℤ x min) (ground (arith, minus_ℤ-parts x min)), e) refl

from_zero : (a : Array) (i : ℕ) → at a (0 + i) ≡ at a i
from_zero a i = let e : 0 + i ≡ i = omega arith in ap (at a) e

digits_ascend : (dg : ℕ → ℕ) (n i j : ℕ) → Order dg n i j → dg i ≤ dg j
digits_ascend dg n i j (by_digit h) = omega arith
digits_ascend dg n i j (by_index e h) = omega arith

values_ascend :
    (min x y u v : ℤ)
    → u ≡ x
    → v ≡ y
    → min ≤ℤ x
    → min ≤ℤ y
    → pos_part (minus_ℤ x min) ≤ pos_part (minus_ℤ y min)
    → u ≤ℤ v
values_ascend min x y u v e f l m h =
    rw (e, f) (ground (arith, minus_ℤ-parts x min, minus_ℤ-parts y min))

-- The pass on the values sorts.
values-Sorts :
    (result a : Array) (max min : ℤ)
    → length result ≡ length a
    → pos_part (minus_ℤ max min) < 2 ^ 31
    → ((i : ℕ) → i < length a → min ≤ℤ at a i)
    → ((i : ℕ) → i < length a → at a i ≤ℤ max)
    → Returns
        (counting_pass (value_digit min) (pos_part (minus_ℤ max min) + 1) 0 (length a) a result)
        (λ s. Sorts a s.1)
values-Sorts result a max min len spread low high =
    let dg : ℕ → ℕ = λ i. pos_part (minus_ℤ (at a i) min) in
    let size = pos_part (minus_ℤ max min) + 1 in
    let small : (i : ℕ) → i < length a → dg i < size =
      λ i l. ground (arith, minus_ℤ-parts (at a i) min, minus_ℤ-parts max min, low i l, high i l) in
    weaken _
      (counting_pass-Passed (value_digit min) dg size 0 (length a) a (omega arith)
        (λ i l.
          ap (value_digit min) (from_zero a i)
          ∙ value_digit-ok min (at a i) (low i l) (omega (arith, small i l)))
        small result (omega arith) (omega arith))
      λ s h.
        let moved = pass-Rearranges dg size a s.1 small h.placed (h.as_long ∙ len) in
        record {
          ascending = λ p q x y z. elim (lt_or_ge p q) [
            | inr same ↦
                let e : p ≡ q = omega arith in subst (λ k. at s.1 p ≤ℤ at s.1 k) e (omega arith)
            | inl less ↦
                let o =
                  placed-Ordered dg size 0 (length a) a s.1 small h.placed p q less
                    (omega (arith, moved.same_length)) in
                values_ascend min (at a o.i) (at a o.j) (at s.1 p) (at s.1 q)
                  (o.from_i ∙ from_zero a o.i) (o.from_j ∙ from_zero a o.j) (low o.i o.i_in)
                  (low o.j o.j_in) (digits_ascend dg (length a) o.i o.j o.order)
          ];
          rearranged = moved;
        }

-- `r` has the entries of the sorted `s`, with `m` added.
abbrev pub Restored : ℤ → Array → Array → Type 0
Restored m a r = (s : Array) × Sorts a s × Mapped (λ x. plus_ℤ x m) s r

pub plus_ℤ-zero : (x : ℤ) → plus_ℤ x (pos 0) ≡ x
plus_ℤ-zero x = eq_of_parts (plus_ℤ x (pos 0)) x (omega (arith, plus_ℤ-parts x (pos 0)))

restore :
    (m : ℤ) (a s : Array)
    → Sorts a s
    → ((i : ℕ) → i < length a → IsInt (plus_ℤ (at a i) m))
    → Returns (if not (eq_ℤ m (pos 0)) then add_all m s else ok s) (Restored m a)
unfolding eq_ℤ
restore m a s h fits =
    let len : length s ≡ length a = h.rearranged.same_length in
    elim (Bool-cases (eq_ℤ m (pos 0))) [
      | inl zero_m ↦
          let e : m ≡ pos 0 = ground arith in
          rw zero_m (
            s,
            refl,
            (
              s,
              h,
              record {
                as_long = refl;
                changed = λ i l. sym (ap (plus_ℤ (at s i)) e ∙ plus_ℤ-zero (at s i));
              },
            ),
          )
      | inr other ↦ rw other (
          weaken _
            (add_all-Mapped m s (λ i l.
              let (j, x, y, e) = h.rearranged.source i (omega arith) (omega arith) in
              subst (λ x. IsInt (plus_ℤ x m)) (sym e) (fits j y)))
            λ r mapped. (s, h, mapped))
    ]

module _ (result a : Array) (max min m : ℤ) (len : length result ≡ length a)
    (low : (i : ℕ) → i < length a → min ≤ℤ at a i)
    (high : (i : ℕ) → i < length a → at a i ≤ℤ max) where
  pub count_values-Restored :
      IsInt (minus_ℤ max min)
      → minus_ℤ max min ≤ℤ pos 10000
      → ((i : ℕ) → i < length a → IsInt (plus_ℤ (at a i) m))
      → Returns (count_values result a max min m) (Restored m a)
  unfolding count_values
  count_values-Restored int close fits =
      let near : ltb_ℤ (pos 10000) (minus_ℤ max min) ≡ false = ground arith in
      rw (to_int-ok (minus_ℤ max min) int, near)
        (bind_rule _ _ (values-Sorts result a max min len (ground arith) low high) λ s h.
          bind_rule _ _ (memcpy_whole (length a) s.1 a h.rearranged.same_length refl) λ r e.
            subst (λ r. Returns (if not (eq_ℤ m (pos 0)) then add_all m r else ok r) (Restored m a))
              (sym e) (restore m a s.1 h fits))

  pub count_values-far :
      IsInt (minus_ℤ max min)
      → pos 10000 <ℤ minus_ℤ max min
      → count_values result a max min m ≡ ok a
  unfolding count_values
  count_values-far int far =
      let wide : ltb_ℤ (pos 10000) (minus_ℤ max min) ≡ true = ground arith in
      rw (to_int-ok (minus_ℤ max min) int, wide) refl

-- Sorting the shifted array and shifting it back sorts the array.
pub shift-Sorts :
    (m : ℤ) (a b r : Array) → Mapped (λ x. minus_ℤ x m) a b → Restored m b r → Sorts a r
shift-Sorts m a b r down (s, h, up) =
    let len : length r ≡ length a = up.as_long ∙ (h.rearranged.same_length ∙ down.as_long) in
    record {
      ascending = λ i j x y z.
          let le = h.ascending i j x y (omega (arith, up.as_long)) in
          rw (up.changed i (omega (arith, up.as_long)), up.changed j (omega (arith, up.as_long)))
            (ground (arith, le, plus_ℤ-parts (at s i) m, plus_ℤ-parts (at s j) m));
      rearranged = record {
        same_length = len;
        same_counts = λ v.
            count-plus v m s r up
            ∙ (h.rearranged.same_counts (minus_ℤ v m) ∙ count-minus v m a b down);
        below = λ i l. absurd (omega arith);
        above = λ i l. at_outside r a i (omega arith) l;
        source = λ i x y.
            let (j, p, q, e) = h.rearranged.source i x (omega (arith, down.as_long)) in
            (
              j,
              p,
              omega (arith, down.as_long),
              up.changed i (omega (arith, h.rearranged.same_length, down.as_long))
                  ∙ (ap (λ x. plus_ℤ x m) (e ∙ down.changed j (omega (arith, down.as_long)))
                      ∙ plus_ℤ-minus_ℤ (at a j) m),
            );
      };
    }

pub zero-Sorts : (a r : Array) → Restored (pos 0) a r → Sorts a r
zero-Sorts a r (s, h, up) =
    shift-Sorts (pos 0) a a r
      (record {
        as_long = refl;
        changed = λ i l. sym (
            eq_of_parts (minus_ℤ (at a i) (pos 0)) (at a i)
              (omega (arith, minus_ℤ-parts (at a i) (pos 0))));
      })
      (s, h, up)

pub one-Sorts : (a : Array) → length a ≤ 1 → Sorts a a
one-Sorts a short = record {
  ascending =
      λ i j x y z. let e : i ≡ j = omega arith in subst (λ k. at a i ≤ℤ at a k) e (omega arith);
  rearranged = Rearranges-refl 0 (length a) a;
}
