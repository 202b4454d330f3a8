-- ===== src/Sort/Counting/Signed.antt =====
-- The loops over the whole array: its extremes, and adding to or subtracting from every entry.
use my_little_tool.Prelude.{
  ◌>>=◌, ℕ, suc, ◌+◌, ◌-◌, ◌^◌, ◌≤◌, ◌<◌, ◌≡◌, inl, inr, refl, ap, ◌∙◌, sym, arith, [], ◌∷◌, true,
  Bool-cases, ◌==◌, ◌&&◌, ltb, leb, ltb_ℤ, eq_ℤ, lt_or_ge, if◌then◌else◌, ℤ, pos_part, neg_part,
  ◌≤ℤ◌, IsInt, ok, Returns, weaken, length, length-set, for_up, for_up_rule,
}
use my_little_tool.Prelude.Int.{eq_of_parts}
use my_little_tool.Sort.Array.{Array, at, hit, count, load, store}
use my_little_tool.Sort.Array.Access.{load-ok, store-ok, at-set}
use my_little_tool.Sort.Counting.{diff, minus_ℤ, plus_ℤ, to_int, extremes, subtract_all, add_all}

pub minus_ℤ-parts :
    (x m : ℤ)
    → pos_part (minus_ℤ x m) + neg_part x + pos_part m
      ≡ neg_part (minus_ℤ x m) + pos_part x + neg_part m
unfolding minus_ℤ diff
minus_ℤ-parts x m = ground arith

pub plus_ℤ-parts :
    (x m : ℤ)
    → pos_part (plus_ℤ x m) + neg_part x + neg_part m
      ≡ neg_part (plus_ℤ x m) + pos_part x + pos_part m
unfolding plus_ℤ diff
plus_ℤ-parts x m = ground arith

pub one_part :
    (x : ℤ) → pos_part x + neg_part x ≡ (if pos_part x == 0 then neg_part x else pos_part x)
one_part x = ground arith

pub plus_ℤ-minus_ℤ : (x m : ℤ) → plus_ℤ (minus_ℤ x m) m ≡ x
plus_ℤ-minus_ℤ x m =
    eq_of_parts (plus_ℤ (minus_ℤ x m) m) x
      (omega (arith, plus_ℤ-parts (minus_ℤ x m) m, minus_ℤ-parts x m))

pub minus_ℤ-plus_ℤ : (x m : ℤ) → minus_ℤ (plus_ℤ x m) m ≡ x
minus_ℤ-plus_ℤ x m =
    eq_of_parts (minus_ℤ (plus_ℤ x m) m) x
      (omega (arith, minus_ℤ-parts (plus_ℤ x m) m, plus_ℤ-parts x m))

pub to_int-ok : (x : ℤ) → IsInt x → to_int x ≡ ok x
unfolding to_int
to_int-ok x (p, n) =
    let e : (ltb (pos_part x) (2 ^ 31) && leb (neg_part x) (2 ^ 31)) ≡ true = ground arith in
    rw e refl

-- `max` and `min` bound all entries and are entries.
pub record Extremes (a : Array) (n : ℕ) (s : ℤ × ℤ) : Type 0 where
  pub below_max : (i : ℕ) → i < n → at a i ≤ℤ s.0
  pub above_min : (i : ℕ) → i < n → s.1 ≤ℤ at a i
  pub max_at : ℕ
  pub max_in : max_at < n
  pub is_max : s.0 ≡ at a max_at
  pub min_at : ℕ
  pub min_in : min_at < n
  pub is_min : s.1 ≡ at a min_at

pub extremes-Extremes : (a : Array) → 1 ≤ length a → Returns (extremes a) (Extremes a (length a))
unfolding extremes
extremes-Extremes a some_entry = rw (load-ok a 0 some_entry) (
    for_up_rule (Extremes a) _ (length a - 1) 1 (length a) (at a 0, at a 0) (omega arith)
      (λ k (max, min) low high h. rw (load-ok a k high) (
        _,
        refl,
        record {
          below_max = λ i l. elim (lt_or_ge i k) [
            | inl u ↦ ground (arith, h.below_max i u)
            | inr u ↦ let e : i ≡ k = omega arith in rw e (ground arith)
          ];
          above_min = λ i l. elim (lt_or_ge i k) [
            | inl u ↦ ground (arith, h.above_min i u)
            | inr u ↦ let e : i ≡ k = omega arith in rw e (ground arith)
          ];
          max_at = if ltb_ℤ max (at a k) then k else h.max_at;
          max_in = ground (arith, h.max_in);
          is_max = elim (Bool-cases (ltb_ℤ max (at a k))) [
            | inl e ↦ rw e refl
            | inr e ↦ rw e h.is_max
          ];
          min_at = if ltb_ℤ (at a k) min then k else h.min_at;
          min_in = ground (arith, h.min_in);
          is_min = elim (Bool-cases (ltb_ℤ (at a k) min)) [
            | inl e ↦ rw e refl
            | inr e ↦ rw e h.is_min
          ];
        },
      ))
      (record {
        below_max = λ i l. let e : i ≡ 0 = omega arith in rw e (omega arith);
        above_min = λ i l. let e : i ≡ 0 = omega arith in rw e (omega arith);
        max_at = 0;
        max_in = omega arith;
        is_max = refl;
        min_at = 0;
        min_in = omega arith;
        is_min = refl;
      }))

-- `b` has the entries of `a`, each changed by `f`.
pub record Mapped (f : ℤ → ℤ) (a b : Array) : Type 0 where
  pub as_long : length b ≡ length a
  pub changed : (i : ℕ) → i < length a → at b i ≡ f (at a i)

record Partly (f : ℤ → ℤ) (a : Array) (k : ℕ) (b : Array) : Type 0 where
  as_long : length b ≡ length a
  changed : (i : ℕ) → i < k → at b i ≡ f (at a i)
  kept : (i : ℕ) → k ≤ i → at b i ≡ at a i

map_loop :
    (f : ℤ → ℤ) (a : Array)
    → ((i : ℕ) → i < length a → IsInt (f (at a i)))
    → Returns
        (for_up (length a) 0 (λ i b. do x ← load b i; y ← to_int (f x); store b i y) a)
        (Mapped f a)
map_loop f a fits =
    weaken _
      (for_up_rule (Partly f a) _ (length a) 0 (length a) a (omega arith)
        (λ k b low high h.
          let l : k < length b = omega (arith, h.as_long) in
          rw
            (
              load-ok b k l,
              h.kept k (omega arith),
              to_int-ok (f (at a k)) (fits k high),
              store-ok b k (f (at a k)) l,
            )
            (
              _,
              refl,
              record {
                as_long = length-set b k _ ∙ h.as_long;
                changed = λ i m. at-set b k i _ l ∙ (elim (lt_or_ge i k) [
                  | inl u ↦ ground (arith, h.changed i u)
                  | inr u ↦ let e : k ≡ i = omega arith in ground (arith, ap (λ j. f (at a j)) e)
                ]);
                kept = λ i m. at-set b k i _ l ∙ ground (arith, h.kept i (omega arith));
              },
            ))
        (record { as_long = refl; changed = λ i m. absurd (omega arith); kept = λ i m. refl }))
      λ b h. record { as_long = h.as_long; changed = h.changed }

pub subtract_all-Mapped :
    (m : ℤ) (a : Array)
    → ((i : ℕ) → i < length a → IsInt (minus_ℤ (at a i) m))
    → Returns (subtract_all m a) (Mapped (λ x. minus_ℤ x m) a)
unfolding subtract_all
subtract_all-Mapped m a fits = map_loop (λ x. minus_ℤ x m) a fits

pub add_all-Mapped :
    (m : ℤ) (a : Array)
    → ((i : ℕ) → i < length a → IsInt (plus_ℤ (at a i) m))
    → Returns (add_all m a) (Mapped (λ x. plus_ℤ x m) a)
unfolding add_all
add_all-Mapped m a fits = map_loop (λ x. plus_ℤ x m) a fits

count-pointwise :
    (v w : ℤ) (a b : Array)
    → length b ≡ length a
    → ((i : ℕ) → i < length a → hit v (at b i) ≡ hit w (at a i))
    → count v b ≡ count w a
unfolding count at
count-pointwise v w [] [] l h = refl
count-pointwise v w [] (y ∷ b) l h = absurd (omega arith)
count-pointwise v w (x ∷ a) [] l h = absurd (omega arith)
count-pointwise v w (x ∷ a) (y ∷ b) l h = omega (
  arith,
  h 0 (omega arith),
  count-pointwise v w a b (omega arith) (λ i m. h (suc i) (omega arith)),
)

hit-plus_ℤ : (v x m : ℤ) → hit v (plus_ℤ x m) ≡ hit (minus_ℤ v m) x
unfolding hit eq_ℤ
hit-plus_ℤ v x m = ground (arith, plus_ℤ-parts x m, minus_ℤ-parts v m)

-- How often a value occurs after adding `m` to every entry, and after subtracting it.
pub count-plus :
    (v m : ℤ) (a b : Array) → Mapped (λ x. plus_ℤ x m) a b → count v b ≡ count (minus_ℤ v m) a
count-plus v m a b h =
    count-pointwise v (minus_ℤ v m) a b h.as_long
      λ i l. ap (hit v) (h.changed i l) ∙ hit-plus_ℤ v (at a i) m

pub count-minus :
    (v m : ℤ) (a b : Array) → Mapped (λ x. minus_ℤ x m) a b → count (minus_ℤ v m) b ≡ count v a
count-minus v m a b h = count-pointwise (minus_ℤ v m) v a b h.as_long λ i l.
    ap (hit (minus_ℤ v m)) (h.changed i l)
    ∙ (sym (hit-plus_ℤ v (minus_ℤ (at a i) m) m) ∙ ap (hit v) (plus_ℤ-minus_ℤ (at a i) m))
