-- ===== src/Sort/Samples.antt =====
-- The arrays that the tests sort.
use my_little_tool.Prelude.{
  ℕ, zero, suc, ◌<◌, ◌≤◌, ◌≡◌, refl, arith, Bool, true, ◌&&◌, leb, pos, negsuc, pos_part, neg_part,
  [], ◌∷◌, length, IsInt,
}
use my_little_tool.Sort.Counting.{minus_ℤ}
use my_little_tool.Sort.Counting.Signed.{minus_ℤ-parts}
use my_little_tool.Sort.Array.{Array, at}

-- Some of the entries that `main` of Sort/main_sort.c sorts.
abbrev pub numbers : Array
numbers = pos 3 ∷ negsuc 122 ∷ pos 223 ∷ pos 3 ∷ pos 0 ∷ negsuc 18 ∷ pos 34 ∷ []

abbrev pub in_order : Array
in_order = negsuc 122 ∷ negsuc 18 ∷ pos 0 ∷ pos 3 ∷ pos 3 ∷ pos 34 ∷ pos 223 ∷ []

-- No entry lies further from 0 than `k`.
abbrev pub all_within : ℕ → Array → Bool
all_within k [] = true
all_within k (x ∷ a) = leb (pos_part x) k && (leb (neg_part x) k && all_within k a)

pub all_within-at :
    (k : ℕ) (a : Array)
    → all_within k a ≡ true
    → (i : ℕ) → i < length a
    → (pos_part (at a i) ≤ k) × (neg_part (at a i) ≤ k)
unfolding at
all_within-at k [] h i l = absurd (omega arith)
all_within-at k (x ∷ a) h zero l = (ground arith, ground arith)
all_within-at k (x ∷ a) h (suc i) l = all_within-at k a (ground arith) i (omega arith)

pub numbers_small :
    (i : ℕ)
    → i < length numbers
    → (pos_part (at numbers i) ≤ 1000) × (neg_part (at numbers i) ≤ 1000)
numbers_small = all_within-at 1000 numbers refl

pub numbers-fit : (i : ℕ) → i < length numbers → IsInt (at numbers i)
numbers-fit i h = (omega (arith, (numbers_small i h).0), omega (arith, (numbers_small i h).1))

pub numbers-differ :
    (i j : ℕ)
    → i < length numbers
    → j < length numbers
    → IsInt (minus_ℤ (at numbers i) (at numbers j))
numbers-differ i j h k = ground (
  arith,
  minus_ℤ-parts (at numbers i) (at numbers j),
  (numbers_small i h).0,
  (numbers_small i h).1,
  (numbers_small j k).0,
  (numbers_small j k).1,
)
