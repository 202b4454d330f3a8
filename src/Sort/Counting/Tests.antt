-- ===== src/Sort/Counting/Tests.antt =====
-- `count_sort` on small arrays, and the theorems on them.
use my_little_tool.Prelude.{
  ℕ, ◌<◌, ◌≤◌, refl, arith, [], ◌∷◌, pos, negsuc, ltb_ℤ, ◌≤ℤ◌, pos_part, neg_part, if◌then◌else◌,
  Returns,
}
use my_little_tool.Sort.Array.{Array, at, Sorts}
use my_little_tool.Sort.Samples.{numbers, numbers_small, all_within-at}
use my_little_tool.Sort.Counting.{diff, minus_ℤ, count_sort}
use my_little_tool.Sort.Counting.Signed.{minus_ℤ-parts, Mapped}
use my_little_tool.Sort.Counting.Sorting.{count_sort-Sorts, count_sort_far}

abbrev memory : Array
memory = pos 9 ∷ pos 9 ∷ pos 9 ∷ pos 9 ∷ pos 9 ∷ pos 9 ∷ pos 9 ∷ []

count_sort-Sorts_example : Returns (count_sort memory numbers) (Sorts numbers)
count_sort-Sorts_example =
    count_sort-Sorts memory numbers refl
      (λ i h. (omega (arith, (numbers_small i h).0), omega (arith, (numbers_small i h).1)))
      (λ i j h k. ground (
        arith,
        minus_ℤ-parts (at numbers i) (at numbers j),
        (numbers_small i h).0,
        (numbers_small i h).1,
        (numbers_small j k).0,
        (numbers_small j k).1,
      ))

abbrev far : Array
far = pos 20000 ∷ negsuc 0 ∷ []

far_small : (i : ℕ) → i < 2 → (pos_part (at far i) ≤ 20000) × (neg_part (at far i) ≤ 20000)
far_small = all_within-at 20000 far refl

count_sort_far_example : Returns (count_sort (pos 0 ∷ pos 0 ∷ []) far) (λ b.
    (k : ℕ) × (k < 2)
    × Mapped (λ y. minus_ℤ y (if ltb_ℤ (at far k) (pos 0) then at far k else pos 0)) far b
    × ((i : ℕ) → i < 2 → at far k ≤ℤ at far i))
unfolding at minus_ℤ diff
count_sort_far_example =
    count_sort_far (pos 0 ∷ pos 0 ∷ []) far refl
      (λ i h. (omega (arith, (far_small i h).0), omega (arith, (far_small i h).1))) 0 1
      (omega arith) (omega arith) (omega arith)
      (λ i j h k. ground (
        arith,
        minus_ℤ-parts (at far i) (at far j),
        (far_small i h).0,
        (far_small i h).1,
        (far_small j k).0,
        (far_small j k).1,
      ))
