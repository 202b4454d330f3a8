-- ===== src/Sort/Quick/Repeated/Gather.antt =====
-- `deal_repeat` gathers the entries that equal the pivot, all of them, on both sides of it.
use my_little_tool.Prelude.{
  ℕ, suc, ◌+◌, ◌-◌, ◌≤◌, ◌<◌, ◌≡◌, ◌≢◌, sym, ◌∙◌, arith, ℤ, eq_ℤ, eq_ℤ_iff, false, ◌==◌, Bool-cases,
  inl, inr, length, Returns,
}
use my_little_tool.Sort.Array.{Array, at, Rearranges, AllOn}
use my_little_tool.Sort.Array.Access.{load-ok, swap_elems-ok, swap, at-swap}
use my_little_tool.Sort.Array.Rearrange.{Rearranges-trans, swap-Rearranges}
use my_little_tool.Sort.Quick.Repeated.{repeat_left, repeat_right}

not_eq_ℤ : (a b : ℤ) → eq_ℤ a b ≡ false → b ≢ a
not_eq_ℤ a b h e = ground (arith, eq_ℤ_iff a b)

-- Before the round for the index below `i`: `[e, pos)` equals the pivot and `[i, e)` differs.
pub record GatheredLeft (lo i pos : ℕ) (p : ℤ) (a : Array) (s : Array × ℕ) : Type 0 where
  pub room : i ≤ s.1
  pub bound : s.1 ≤ pos
  pub moved : Rearranges lo pos a s.0
  pub same : AllOn (λ x. x ≡ p) s.1 pos s.0
  pub other : AllOn (λ x. x ≢ p) i s.1 s.0

pub repeat_left_lem :
    (lo pos i : ℕ) (p : ℤ) (a : Array) (s : Array × ℕ)
    → lo ≤ i
    → i < pos
    → pos < length a
    → at a pos ≡ p
    → GatheredLeft lo (suc i) pos p a s
    → Returns (repeat_left pos i s) (GatheredLeft lo i pos p a)
unfolding repeat_left
repeat_left_lem lo pos i p a (b, e) l u len here g =
    let pp : pos < length b = omega (arith, g.moved.same_length) in
    let pi : i < length b = omega arith in
    let room : suc i ≤ e = g.room in
    let bound : e ≤ pos = g.bound in
    let pivot : at b pos ≡ p = g.moved.above pos (omega arith) ∙ here in
    elim (Bool-cases (eq_ℤ (at b pos) (at b i))) [
      | inr ne ↦ (
        (b, e),
        rw (load-ok b pos pp, load-ok b i pi, ne),
        record {
          room = omega arith;
          bound = bound;
          moved = g.moved;
          same = g.same;
          other = λ k m n. elim (Bool-cases (k == i)) [
            | inl eq ↦ λ q. not_eq_ℤ (at b pos) (at b i) ne (ground arith)
            | inr neq ↦ g.other k (ground arith) n
          ];
        },
      )
      | inl eq ↦
          let found : at b i ≡ p = sym ((eq_ℤ_iff _ _).0 eq) ∙ pivot in
          elim (Bool-cases (e - 1 == i)) [
            | inl stay ↦ (
              (b, e - 1),
              rw (load-ok b pos pp, load-ok b i pi, eq, stay),
              record {
                room = omega arith;
                bound = omega arith;
                moved = g.moved;
                same = λ k m n. ground (arith, g.same k);
                other = λ k m n. absurd (ground arith);
              },
            )
            | inr go ↦
                let pe : e - 1 < length b = omega arith in
                (
                  (swap b i (e - 1), e - 1),
                  rw (load-ok b pos pp, load-ok b i pi, eq, go, swap_elems-ok b i (e - 1) pi pe),
                  record {
                    room = omega arith;
                    bound = omega arith;
                    moved = Rearranges-trans g.moved (
                        swap-Rearranges lo pos b i (e - 1) l u (omega arith) (omega arith)
                          (omega arith));
                    same = λ k m n. at-swap b i (e - 1) k pi pe ∙ ground (arith, g.same k);
                    other = λ k m n.
                        rw (at-swap b i (e - 1) k pi pe)
                          (ground (arith, g.other k, g.other (e - 1)));
                  },
                )
          ]
    ]

pub record GatheredRight (pos i hi : ℕ) (p : ℤ) (a : Array) (t : Array × ℕ) : Type 0 where
  pub room : pos + 1 ≤ t.1
  pub bound : t.1 ≤ i
  pub moved : Rearranges (pos + 1) hi a t.0
  pub same : AllOn (λ x. x ≡ p) (pos + 1) t.1 t.0
  pub other : AllOn (λ x. x ≢ p) t.1 i t.0

pub repeat_right_lem :
    (pos i hi : ℕ) (p : ℤ) (a : Array) (t : Array × ℕ)
    → pos < i
    → i < hi
    → hi ≤ length a
    → at a pos ≡ p
    → GatheredRight pos i hi p a t
    → Returns (repeat_right pos i t) (GatheredRight pos (i + 1) hi p a)
unfolding repeat_right
repeat_right_lem pos i hi p a (b, s) l u len here g =
    let pp : pos < length b = omega (arith, g.moved.same_length) in
    let pi : i < length b = omega (arith, g.moved.same_length) in
    let room : pos + 1 ≤ s = g.room in
    let bound : s ≤ i = g.bound in
    let pivot : at b pos ≡ p = g.moved.below pos (omega arith) ∙ here in
    elim (Bool-cases (eq_ℤ (at b pos) (at b i))) [
      | inr ne ↦ (
        (b, s),
        rw (load-ok b pos pp, load-ok b i pi, ne),
        record {
          room = room;
          bound = omega arith;
          moved = g.moved;
          same = g.same;
          other = λ k m n. elim (Bool-cases (k == i)) [
            | inl eq ↦ λ q. not_eq_ℤ (at b pos) (at b i) ne (ground arith)
            | inr neq ↦ g.other k m (ground arith)
          ];
        },
      )
      | inl eq ↦
          let found : at b i ≡ p = sym ((eq_ℤ_iff _ _).0 eq) ∙ pivot in
          elim (Bool-cases (s == i)) [
            | inl stay ↦ (
              (b, s + 1),
              rw (load-ok b pos pp, load-ok b i pi, eq, stay),
              record {
                room = omega arith;
                bound = omega arith;
                moved = g.moved;
                same = λ k m n. ground (arith, g.same k);
                other = λ k m n. absurd (ground arith);
              },
            )
            | inr go ↦
                let ps : s < length b = omega arith in
                (
                  (swap b i s, s + 1),
                  rw (load-ok b pos pp, load-ok b i pi, eq, go, swap_elems-ok b i s pi ps),
                  record {
                    room = omega arith;
                    bound = ground arith;
                    moved = Rearranges-trans g.moved (
                        swap-Rearranges (pos + 1) hi b i s (omega arith) u room (omega arith)
                          (omega (arith, g.moved.same_length)));
                    same = λ k m n. at-swap b i s k pi ps ∙ ground (arith, g.same k);
                    other =
                        λ k m n. rw (at-swap b i s k pi ps) (ground (arith, g.other k, g.other s));
                  },
                )
          ]
    ]
