-- ===== src/Prelude/Cells.antt =====
-- Lists as arrays of cells: checked reading and writing, the total reading that statements use,
-- and sums over all cells.
use Prim.Native.Nat.{ℕ, zero, suc, ◌+◌, ◌≤◌, ◌<◌}
use mathlib.Core.Path.{◌≡◌, refl, ap}
use mathlib.Core.List.{List, [], ◌∷◌}
use native.Mathlib.Omega.{arith}
use my_little_tool.Prelude.Tests.{ltb, lt→ltb, ◌==◌, if◌then◌else◌}
use my_little_tool.Prelude.Lists.{length, set, replicate}
use my_little_tool.Prelude.Outcome.{Run, ok, fault, out_of_bounds}

module _ {ℓ} {A : Type ℓ} where
  -- `xs[i]` as a value
  unfoldable pub fetch : List A → ℕ → Run A
  fetch [] i = fault out_of_bounds
  fetch (x ∷ xs) zero = ok x
  fetch (x ∷ xs) (suc i) = fetch xs i

  -- `xs[i] = x`
  unfoldable pub assign : List A → ℕ → A → Run (List A)
  assign xs i x = if ltb i (length xs) then ok (set xs i x) else fault out_of_bounds

  -- The cell at an index, and `d` outside.
  unfoldable pub cell : A → List A → ℕ → A
  cell d [] i = d
  cell d (x ∷ xs) zero = x
  cell d (x ∷ xs) (suc i) = cell d xs i

  -- The sum of a measure over all cells.
  unfoldable pub sum_of : (A → ℕ) → List A → ℕ
  sum_of w [] = 0
  sum_of w (x ∷ xs) = w x + sum_of w xs

  pub fetch-ok : (d : A) (xs : List A) (i : ℕ) → i < length xs → fetch xs i ≡ ok (cell d xs i)
  unfolding fetch cell
  fetch-ok d [] i h = absurd (omega arith)
  fetch-ok d (x ∷ xs) zero h = refl
  fetch-ok d (x ∷ xs) (suc i) h = fetch-ok d xs i (omega arith)

  pub assign-ok : (xs : List A) (i : ℕ) (x : A) → i < length xs → assign xs i x ≡ ok (set xs i x)
  unfolding assign
  assign-ok xs i x h = rw (lt→ltb i (length xs) h)

  pub cell-set :
      (d : A) (xs : List A) (i j : ℕ) (x : A)
      → i < length xs
      → cell d (set xs i x) j ≡ (if i == j then x else cell d xs j)
  unfolding cell
  cell-set d [] i j x h = absurd (omega arith)
  cell-set d (y ∷ xs) zero zero x h = refl
  cell-set d (y ∷ xs) zero (suc j) x h = ground arith
  cell-set d (y ∷ xs) (suc i) zero x h = ground arith
  cell-set d (y ∷ xs) (suc i) (suc j) x h = ground (arith, cell-set d xs i j x)

  pub cell-replicate : (d : A) (n i : ℕ) → cell d (replicate n d) i ≡ d
  unfolding cell
  cell-replicate d zero i = refl
  cell-replicate d (suc n) zero = refl
  cell-replicate d (suc n) (suc i) = cell-replicate d n i

  pub sum_of-set :
      (w : A → ℕ) (d : A) (xs : List A) (i : ℕ) (x : A)
      → i < length xs
      → sum_of w (set xs i x) + w (cell d xs i) ≡ sum_of w xs + w x
  unfolding cell sum_of
  sum_of-set w d [] i x h = absurd (omega arith)
  sum_of-set w d (y ∷ xs) zero x h = omega arith
  sum_of-set w d (y ∷ xs) (suc i) x h = omega (arith, sum_of-set w d xs i x)

  pub sum_of-cell :
      (w : A → ℕ) (d : A) (xs : List A) (i : ℕ) → i < length xs → w (cell d xs i) ≤ sum_of w xs
  unfolding cell sum_of
  sum_of-cell w d [] i h = absurd (omega arith)
  sum_of-cell w d (y ∷ xs) zero h = omega arith
  sum_of-cell w d (y ∷ xs) (suc i) h = omega (arith, sum_of-cell w d xs i)

  pub sum_of-replicate : (w : A → ℕ) (n : ℕ) (d : A) → w d ≡ 0 → sum_of w (replicate n d) ≡ 0
  unfolding sum_of
  sum_of-replicate w zero d h = refl
  sum_of-replicate w (suc n) d h = omega (arith, sum_of-replicate w n d h)

  -- The sum over the first `n` cells.
  unfoldable pub sum_first : (A → ℕ) → ℕ → List A → ℕ
  sum_first w zero xs = 0
  sum_first w (suc n) [] = 0
  sum_first w (suc n) (x ∷ xs) = w x + sum_first w n xs

  pub sum_first-next :
      (w : A → ℕ) (d : A) (n : ℕ) (xs : List A)
      → n < length xs
      → sum_first w (n + 1) xs ≡ sum_first w n xs + w (cell d xs n)
  unfolding sum_first cell
  sum_first-next w d n [] h = absurd (omega arith)
  sum_first-next w d zero (x ∷ xs) h = omega arith
  sum_first-next w d (suc n) (x ∷ xs) h =
      let more : suc n + 1 ≡ suc (n + 1) = omega arith in
      omega (arith, ap (λ m. sum_first w m (x ∷ xs)) more, sum_first-next w d n xs (omega arith))

  pub sum_first-all : (w : A → ℕ) (xs : List A) → sum_first w (length xs) xs ≡ sum_of w xs
  unfolding sum_first sum_of
  sum_first-all w [] = refl
  sum_first-all w (x ∷ xs) = omega (arith, sum_first-all w xs)

  sum_of-zero :
      (w : A → ℕ) (d : A) (xs : List A)
      → ((i : ℕ) → i < length xs → w (cell d xs i) ≡ 0)
      → sum_of w xs ≡ 0
  unfolding sum_of cell
  sum_of-zero w d [] h = refl
  sum_of-zero w d (x ∷ xs) h =
      omega (arith, h 0 (omega arith), sum_of-zero w d xs (λ i l. h (suc i) (omega arith)))

  -- The sum where only one cell counts.
  pub sum_of-single :
      (w : A → ℕ) (d : A) (xs : List A) (s : ℕ)
      → s < length xs
      → ((i : ℕ) → i < length xs → 0 < w (cell d xs i) → s ≡ i)
      → sum_of w xs ≡ w (cell d xs s)
  unfolding sum_of cell
  sum_of-single w d [] s l h = absurd (omega arith)
  sum_of-single w d (x ∷ xs) zero l h =
      omega (arith, sum_of-zero w d xs (λ i m. ground (arith, h (suc i) (omega arith))))
  sum_of-single w d (x ∷ xs) (suc s) l h =
      let first : w x ≡ 0 = ground (arith, h 0 (omega arith)) in
      omega (
        arith,
        first,
        sum_of-single w d xs s (omega arith) (λ i m n. ground (arith, h (suc i) (omega arith) n)),
      )
