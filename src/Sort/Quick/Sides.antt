-- ===== src/Sort/Quick/Sides.antt =====
-- What every quicksort does around its partition: the first hole, and the two recursive calls.
use my_little_tool.Prelude.{
  ℕ, ◌+◌, ◌-◌, ◌≤◌, ◌<◌, arith, ℤ, ltb, if◌then◌else◌, Bool-cases, inl, inr, length, Run, ok, ◌>>=◌,
  Returns, bind_rule, weaken,
}
use my_little_tool.Sort.Array.{Array, at, Rearranges}
use my_little_tool.Sort.Array.Access.{set-at}
use my_little_tool.Sort.Array.Rearrange.{Rearranges-refl}
use my_little_tool.Sort.Quick.Hole.{Holed}
use my_little_tool.Sort.Quick.Split.{
  SortsOn, IsSplit, IsSplit-left, IsSplit-right, IsSplit-IsSortedOn, IsSortedOn-below,
  IsSortedOn-above,
}

-- A range sorter that sorts every range of fewer than `n` entries.
abbrev pub SortsBelow : ℕ → (Array → ℕ → ℕ → Run Array) → Type 0
SortsBelow n sort =
    (a : Array) (lo hi : ℕ)
    → lo ≤ hi
    → hi < n + lo
    → hi ≤ length a
    → Returns (sort a lo hi) (SortsOn lo hi a)

-- Sorting the left side of a split, then the right side.
pub sort_sides :
    (n : ℕ) (sort : Array → ℕ → ℕ → Run Array)
    → SortsBelow n sort
    → (lo e s hi : ℕ) (p : ℤ) (a b : Array) → e < n + lo
    → hi < n + s
    → IsSplit lo e s hi p a b
    → Returns (sort b lo e >>= λ c. sort c s hi) (SortsOn lo hi a)
sort_sides n sort sorts lo e s hi p a b el sl v =
    bind_rule (sort b lo e) _ (sorts b lo e v.left el (omega (arith, v.middle, v.right, v.fits)))
      λ c l.
        let vc = IsSplit-left v l.moved in
        weaken (sort c s hi) (sorts c s hi v.right sl vc.fits) λ d r.
          IsSplit-IsSortedOn (IsSplit-right vc r.moved)
            (IsSortedOn-below r.moved v.middle l.ascending) r.ascending

-- Sorting the right side of a split, then the left side.
pub sort_sides_right :
    (n : ℕ) (sort : Array → ℕ → ℕ → Run Array)
    → SortsBelow n sort
    → (lo e s hi : ℕ) (p : ℤ) (a b : Array) → e < n + lo
    → hi < n + s
    → IsSplit lo e s hi p a b
    → Returns (sort b s hi >>= λ c. sort c lo e) (SortsOn lo hi a)
sort_sides_right n sort sorts lo e s hi p a b el sl v =
    bind_rule (sort b s hi) _ (sorts b s hi v.right sl v.fits) λ c r.
      let vc = IsSplit-right v r.moved in
      weaken (sort c lo e) (sorts c lo e v.left el (omega (arith, v.middle, v.right, vc.fits)))
        λ d l.
          IsSplit-IsSortedOn (IsSplit-left vc l.moved) l.ascending
            (IsSortedOn-above l.moved v.middle r.ascending)

-- A range sorter behind the test that the range has two entries at least.
abbrev pub guarded : (Array → ℕ → ℕ → Run Array) → Array → ℕ → ℕ → Run Array
guarded sort a lo hi = if ltb (lo + 1) hi then sort a lo hi else ok a

pub guarded-SortsBelow :
    (n : ℕ) (sort : Array → ℕ → ℕ → Run Array) → SortsBelow n sort → SortsBelow n (guarded sort)
guarded-SortsBelow n sort sorts a lo hi l f h = elim (Bool-cases (ltb (lo + 1) hi)) [
  | inl two ↦ rw two (sorts a lo hi l f h)
  | inr short ↦ (
    a,
    rw short,
    record { ascending = λ i j u w z. ground arith; moved = Rearranges-refl lo hi a },
  )
]

-- The hole starts where the pivot was taken from.
pub start_left :
    (lo hi : ℕ) (a : Array) → lo < hi → hi ≤ length a → Holed lo hi (at a lo) a a lo (hi - 1) lo
start_left lo hi a l h = record {
  lower = omega arith;
  ordered = omega arith;
  upper = omega arith;
  fits = h;
  hole_lower = omega arith;
  hole_upper = omega arith;
  moved = rw (set-at a lo) (Rearranges-refl lo hi a);
  small = λ i u w. absurd (omega arith);
  large = λ i u w. absurd (omega arith);
}

pub start_right :
    (lo hi : ℕ) (o a : Array)
    → lo < hi
    → hi ≤ length a
    → Rearranges lo hi o a
    → Holed lo hi (at a (hi - 1)) o a lo (hi - 1) (hi - 1)
start_right lo hi o a l h r = record {
  lower = omega arith;
  ordered = omega arith;
  upper = omega arith;
  fits = h;
  hole_lower = omega arith;
  hole_upper = omega arith;
  moved = rw (set-at a (hi - 1)) r;
  small = λ i u w. absurd (omega arith);
  large = λ i u w. absurd (omega arith);
}
