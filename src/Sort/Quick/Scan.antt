-- ===== src/Sort/Quick/Scan.antt =====
-- The scans of the partition loops.
use my_little_tool.Prelude.{
  ℕ, zero, suc, ◌+◌, ◌-◌, ◌≤◌, ◌<◌, ◌≡◌, refl, arith, ℤ, ◌≤ℤ◌, leb_ℤ, Bool-cases, inl, inr, length,
  Returns, weaken,
}
use my_little_tool.Sort.Array.{Array, at}
use my_little_tool.Sort.Array.Access.{load-ok}
use my_little_tool.Sort.Quick.{scan_down, scan_up}

-- Everything strictly between the scan's end and its start is at least the pivot.
pub record ScannedDown (a : Array) (p : ℤ) (l r s : ℕ) : Type 0 where
  pub lower : l ≤ s
  pub upper : s ≤ r
  pub passed : (i : ℕ) → s < i → i ≤ r → p ≤ℤ at a i
  pub found : l < s → at a s ≤ℤ p

pub scan_down_lem :
    (n : ℕ) (a : Array) (p : ℤ) (l r : ℕ)
    → l + n ≡ r
    → r < length a
    → Returns (scan_down n a p r) (ScannedDown a p l r)
unfolding scan_down
scan_down_lem zero a p l r e h = (
  r,
  refl,
  record {
    lower = omega arith;
    upper = omega arith;
    passed = λ i u w. absurd (omega arith);
    found = λ u. absurd (omega arith);
  },
)
scan_down_lem (suc n) a p l r e h = elim (Bool-cases (leb_ℤ p (at a r))) [
  | inr less ↦ (
    r,
    rw (load-ok a r h, less),
    record {
      lower = omega arith;
      upper = omega arith;
      passed = λ i u w. absurd (omega arith);
      found = λ u. ground arith;
    },
  )
  | inl more ↦
      rw (load-ok a r h, more)
        (weaken _ (scan_down_lem n a p l (r - 1) (omega arith) (omega arith)) λ s t. record {
          lower = t.lower;
          upper = omega (arith, t.upper);
          passed = λ i u w. ground (arith, t.passed i u);
          found = t.found;
        })
]

pub record ScannedUp (a : Array) (p : ℤ) (l r s : ℕ) : Type 0 where
  pub lower : l ≤ s
  pub upper : s ≤ r
  pub passed : (i : ℕ) → l ≤ i → i < s → at a i ≤ℤ p
  pub found : s < r → p ≤ℤ at a s

pub scan_up_lem :
    (n : ℕ) (a : Array) (p : ℤ) (l r : ℕ)
    → l + n ≡ r
    → r < length a
    → Returns (scan_up n a p l) (ScannedUp a p l r)
unfolding scan_up
scan_up_lem zero a p l r e h = (
  l,
  refl,
  record {
    lower = omega arith;
    upper = omega arith;
    passed = λ i u w. absurd (omega arith);
    found = λ u. absurd (omega arith);
  },
)
scan_up_lem (suc n) a p l r e h = elim (Bool-cases (leb_ℤ (at a l) p)) [
  | inr more ↦ (
    l,
    rw (load-ok a l (omega arith), more),
    record {
      lower = omega arith;
      upper = omega arith;
      passed = λ i u w. absurd (omega arith);
      found = λ u. ground arith;
    },
  )
  | inl less ↦
      rw (load-ok a l (omega arith), less)
        (weaken _ (scan_up_lem n a p (l + 1) r (omega arith) (omega arith)) λ s t. record {
          lower = omega (arith, t.lower);
          upper = t.upper;
          passed = λ i u w. ground (arith, t.passed i);
          found = t.found;
        })
]
