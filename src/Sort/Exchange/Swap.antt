-- ===== src/Sort/Exchange/Swap.antt =====
-- The exchange by exclusive ors: right for two places, and fatal for one.
use my_little_tool.Prelude.{
  ℕ, zero, suc, ◌<◌, ◌≡◌, ◌≢◌, refl, sym, ap, ◌∙◌, arith, ℤ, pos, [], ◌∷◌, length, set, length-set,
  set-set, ok, IsInt, xor_int, xor_int_second, xor_int_first, xor_int_self,
}
use my_little_tool.Sort.Array.{Array, at}
use my_little_tool.Sort.Array.Access.{load-ok, store-ok, at-set, swap}
use my_little_tool.Sort.Exchange.{xor_into, xor_swap}

xor_into-ok :
    (a : Array) (i j : ℕ)
    → i < length a
    → j < length a
    → xor_into a i j ≡ ok (set a i (xor_int (at a i) (at a j)))
unfolding xor_into
xor_into-ok a i j hi hj = rw (load-ok a i hi, load-ok a j hj) (store-ok a i _ hi)

-- Writes to two places may change their order.
set_comm : (a : Array) (i j : ℕ) (v w : ℤ) → i ≢ j → set (set a i v) j w ≡ set (set a j w) i v
set_comm [] i j v w ne = refl
set_comm (x ∷ a) zero zero v w ne = absurd (ne refl)
set_comm (x ∷ a) zero (suc j) v w ne = refl
set_comm (x ∷ a) (suc i) zero v w ne = refl
set_comm (x ∷ a) (suc i) (suc j) v w ne = ap (◌∷◌ x) (set_comm a i j v w (λ e. ne (ap suc e)))

-- At two different indices inside the array whose entries are 32-bit `int`s, the three exclusive
-- ors exchange the two entries and change nothing else.
pub xor_swap-swap :
    (a : Array) (i j : ℕ)
    → i < length a
    → j < length a
    → i ≢ j
    → IsInt (at a i)
    → IsInt (at a j)
    → xor_swap a i j ≡ ok (swap a i j)
unfolding xor_swap
xor_swap-swap a i j hi hj ne ii ij =
    let x = at a i in
    let y = at a j in
    let b = set a i (xor_int x y) in
    let bi : at b i ≡ xor_int x y = at-set a i i _ hi ∙ ground arith in
    let bj : at b j ≡ y = at-set a i j _ hi ∙ ground arith in
    let lb : j < length b = omega (arith, length-set a i (xor_int x y)) in
    let li : i < length b = omega (arith, length-set a i (xor_int x y)) in
    let c = set b j x in
    let ci : at c i ≡ xor_int x y = at-set b j i x lb ∙ ground arith in
    let cj : at c j ≡ x = at-set b j j x lb ∙ ground arith in
    let kc : i < length c = omega (arith, length-set b j x) in
    let lc : j < length c = omega (arith, length-set b j x) in
    rw
      (
        xor_into-ok a i j hi hj,
        xor_into-ok b j i lb li,
        bi,
        bj,
        xor_int_second x y ii ij,
        xor_into-ok c i j kc lc,
        ci,
        cj,
        xor_int_first x y ii ij,
      )
      (rw (set_comm b j i x y (λ e. ne (sym e)), set-set a i (xor_int x y) y))

-- At one index given twice, the three exclusive ors store 0 there, whatever the entry was.
pub xor_swap_same : (a : Array) (i : ℕ) → i < length a → xor_swap a i i ≡ ok (set a i (pos 0))
unfolding xor_swap
xor_swap_same a i h =
    let b = set a i (pos 0) in
    let bi : at b i ≡ pos 0 = at-set a i i (pos 0) h ∙ ground arith in
    let lb : i < length b = omega (arith, length-set a i (pos 0)) in
    let first : xor_into a i i ≡ ok b = xor_into-ok a i i h h ∙ rw (xor_int_self (at a i)) in
    let again : xor_into b i i ≡ ok b =
      xor_into-ok b i i lb lb ∙ rw (xor_int_self (at b i), set-set a i (pos 0) (pos 0)) in
    rw (first, again, again)
