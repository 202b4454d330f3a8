-- ===== src/Sort/Driver/Marks.antt =====
-- `Check` decides whether an array ascends, so `main` marks every sorting function as right.
use my_little_tool.Prelude.{
  ℕ, ◌^◌, ◌≤◌, ◌<◌, ◌≡◌, ◌↔◌, refl, arith, Bool, true, false, not, Bool-cases, inl, inr, List, [],
  ◌∷◌, subst, leb, ◌≤ℤ◌, IsInt, length, replicate, if◌then◌else◌, Run, ok, for_up, Returns, ◌>>=◌,
}
use my_little_tool.Sort.Array.{Array, at, IsSortedOn, Sorts}
use my_little_tool.Sort.Counting.{minus_ℤ}
use my_little_tool.Sort.Agreement.{same_result}
use my_little_tool.Sort.Insertion.Shell.{
  shell_insert_sort-Sorts, shell_insert_sort_partitionbyprime-Sorts,
}
use my_little_tool.Sort.Merge.Sorting.{recursive_merge_sort-Sorts}
use my_little_tool.Sort.Merge.Rounds.Blocks.{merge_sort-Sorts}
use my_little_tool.Sort.Heap.Sorting.{heap_sort-Sorts}
use my_little_tool.Sort.Quick.Sorting.{quick_sort-Sorts, quick_sort2-Sorts, better_quick_sort-Sorts}
use my_little_tool.Sort.Quick.Repeated.Sorting.{better_quick_sort2-Sorts, better_quick_sort3-Sorts}
use my_little_tool.Sort.Quick.Inward.Sorting.{quick_sort3-Sorts}
use my_little_tool.Sort.Radix.Sorting.{radix_sort_lsd-Sorts}
use my_little_tool.Sort.Radix.First.{radix_sort_msd-Sorts}
use my_little_tool.Sort.Driver.{
  check_counts, sample_counts, draw, Drawn, not_drawn, check, compare_drawn, mark_sorts, arry,
}
use my_little_tool.Sort.Driver.Ascends.{ascends_iff}
use my_little_tool.Sort.Driver.Drawing.{
  IsDrawn, not_drawn-IsDrawn, draw_all-IsDrawn, compare_drawn-true,
}

-- What `Check` does with an array that ascends.
draw_or_compare :
    (drawn : Bool) (random : ℕ → ℕ) (a : Array) (s : Drawn)
    → 0 < length a
    → IsDrawn a s
    → Returns {Value = Bool × Drawn}
        (if not drawn
          then (do
            s1 ← for_up (sample_counts (length a)) 0 (draw random a) s
            ok (true, record s1 { has_check_number = true }))
          else (do same ← compare_drawn check_counts 0 a s; ok (same, s)))
        (λ r. (r.0 ≡ true) × IsDrawn a r.1)
draw_or_compare true random a s full d =
    rw (compare_drawn-true 50 0 a s refl d) ((true, s), refl, (refl, d))
draw_or_compare false random a s full d =
    let (s1, f, d1) = draw_all-IsDrawn random a s full d in
    rw f (
      (true, record s1 { has_check_number = true }),
      refl,
      (refl, record { indices = d1.indices; numbers = d1.numbers; samples = d1.samples }),
    )

-- If nothing was drawn yet, or what was drawn are entries of the array, `Check` ends without a
-- fault and says 1 exactly if the array ascends; what is drawn then are entries of the array.
pub check_iff :
    (random : ℕ → ℕ) (a : Array) (s : Drawn)
    → IsDrawn a s
    → Returns (check random a s) (λ r. ((r.0 ≡ true) ↔ IsSortedOn 0 (length a) a) × IsDrawn a r.1)
unfolding check
check_iff random a s d = elim (Bool-cases (leb (length a) 1)) [
  | inl short ↦
      let few : length a ≤ 1 = ground arith in
      rw short (
        (true, s),
        refl,
        (
          (
            (λ u i j l m n.
                let same : i ≡ j = omega arith in subst (λ j. at a i ≤ℤ at a j) same (omega arith)),
            (λ u. refl),
          ),
          d,
        ),
      )
  | inr long ↦
      let (up, e, (sound, complete)) = ascends_iff a (ground arith) in
      rw (long, e)
        (elim (Bool-cases up) [
          | inl rises ↦
              let (r, f, (fine, d')) =
                draw_or_compare s.has_check_number random a s (ground arith) d in
              rw (rises, f) (r, refl, (((λ u. sound rises), (λ m. fine)), d'))
          | inr falls ↦ rw falls (
            (false, s),
            refl,
            (((λ u. absurd (ground arith)), (λ m. let y = complete m in absurd (ground arith))), d),
          )
        ])
]

-- Every function in the list ends without a fault and sorts `b`.
pub data AllSort (b : Array) : List (Array → Run Array) → Type 0 where
  none_left : AllSort b []
  one_more :
      {f : Array → Run Array} {fs : List (Array → Run Array)}
      → Returns (f b) (Sorts b)
      → AllSort b fs
      → AllSort b (f ∷ fs)

module _ (random : ℕ → ℕ) (b : Array) where
  -- What was drawn from one sorted array fits the next, since the two are the same.
  marks_from :
      (a : Array)
      → Sorts b a
      → (fs : List (Array → Run Array)) (s : Drawn) → AllSort b fs
      → IsDrawn a s
      → mark_sorts random b fs s ≡ ok (replicate (length fs) true)
  unfolding mark_sorts
  marks_from a sorts [] s none_left d = refl
  marks_from a sorts (f ∷ fs) s (one_more h all) d =
      let same : f b ≡ ok a = same_result b (f b) (ok a) h (a, refl, sorts) in
      let (r, e, (right, d')) = check_iff random a s d in
      let rises : r.0 ≡ true = right.1 sorts.ascending in
      rw (same, e, rises, marks_from a sorts fs r.1 all d') refl

  -- Functions that all sort the given numbers are all marked as right.
  pub mark_sorts-right :
      (fs : List (Array → Run Array))
      → AllSort b fs
      → mark_sorts random b fs not_drawn ≡ ok (replicate (length fs) true)
  unfolding mark_sorts
  mark_sorts-right [] all = refl
  mark_sorts-right (f ∷ fs) (one_more (a, e, s) all) =
      marks_from a s (f ∷ fs) not_drawn (one_more (a, e, s) all) (not_drawn-IsDrawn a)

-- For two to 2^29 ints of which no two differ by more than an int can hold, whatever `random()`
-- gives and whatever the memory holds that the functions allocate, and if `qsort` sorts these
-- numbers: no function of the list of `main` and no `Check` faults, and all fourteen functions are
-- marked as right.
pub arry-right :
    (random : ℕ → ℕ) (memory : ℕ → ℕ → Array) (msd_memory : ℕ → ℕ → ℕ → Array)
    (qsort : Array → Run Array) (b : Array)
    → ((k n : ℕ) → length (memory k n) ≡ n)
    → ((exp start n : ℕ) → length (msd_memory exp start n) ≡ n)
    → 2 ≤ length b
    → length b ≤ 2 ^ 29
    → ((i : ℕ) → i < length b → IsInt (at b i))
    → ((i j : ℕ) → i < length b → j < length b → IsInt (minus_ℤ (at b i) (at b j)))
    → Returns (qsort b) (Sorts b)
    → mark_sorts random b (arry memory msd_memory qsort) not_drawn ≡ ok (replicate 14 true)
unfolding arry
arry-right random memory msd_memory qsort b sizes msd_sizes two few ints differ sorted =
    mark_sorts-right random b (arry memory msd_memory qsort) (
      one_more sorted (
        one_more (merge_sort-Sorts _ b (sizes 1 (length b)) few) (
          one_more (recursive_merge_sort-Sorts _ b (sizes 2 (length b)) two) (
            one_more (quick_sort-Sorts b (omega arith)) (
              one_more (quick_sort2-Sorts b (omega arith)) (
                one_more (better_quick_sort-Sorts b (omega arith)) (
                  one_more (better_quick_sort2-Sorts b (omega arith)) (
                    one_more (better_quick_sort3-Sorts b (omega arith)) (
                      one_more (quick_sort3-Sorts b) (
                        one_more (shell_insert_sort-Sorts b (omega arith)) (
                          one_more (shell_insert_sort_partitionbyprime-Sorts b (omega arith)) (
                            one_more (heap_sort-Sorts b (omega arith)) (
                              one_more
                                (radix_sort_lsd-Sorts b ints differ (memory 12 (length b))
                                  (sizes 12 (length b)))
                                (one_more (radix_sort_msd-Sorts msd_memory msd_sizes b ints differ)
                                  none_left))))))))))))))
