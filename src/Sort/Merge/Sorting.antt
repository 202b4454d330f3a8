-- ===== src/Sort/Merge/Sorting.antt =====
-- The recursive merge sort sorts, but for the array of one entry.
use my_little_tool.Prelude.{
  ℕ, zero, suc, ◌+◌, ◌-◌, ◌/◌, ◌≤◌, ◌<◌, ◌≡◌, refl, sym, ap, ◌∙◌, subst, arith, ℤ, pos, [], ◌∷◌,
  leb, leb→le, leb→gt, ◌==◌, false, if◌then◌else◌, Bool-cases, inl, inr, length, set, length-set,
  ok, Returns, bind_rule, weaken,
}
use my_little_tool.Sort.Array.{Array, load, store, at, Rearranges, IsSortedOn, Sorts}
use my_little_tool.Sort.Array.Access.{load-ok, store-ok, at-set}
use my_little_tool.Sort.Array.Rearrange.{Rearranges-refl, Rearranges-trans, Rearranges-widen}
use my_little_tool.Sort.Merge.{copy_rest, memcpy, recursive_merge_range, recursive_merge_sort}
use my_little_tool.Sort.Merge.Prefix.{prefix_count, prefix_count-agree, counts-Rearranges}
use my_little_tool.Sort.Merge.Step.{IsMerged, merge_ranges-IsMerged}

record Copied (lo hi : ℕ) (from to r : Array) : Type 0 where
  same_length : length r ≡ length to
  inside : (i : ℕ) → lo ≤ i → i < hi → at r i ≡ at from i
  below : (i : ℕ) → i < lo → at r i ≡ at to i
  above : (i : ℕ) → hi ≤ i → at r i ≡ at to i

copy_rest_lem :
    (n lo : ℕ) (from to : Array)
    → lo + n ≤ length from
    → lo + n ≤ length to
    → Returns (copy_rest n from lo (to, lo)) λ s. Copied lo (lo + n) from to s.0
unfolding copy_rest
copy_rest_lem zero lo from to f t = (
  (to, lo),
  refl,
  record {
    same_length = refl;
    inside = λ i l u. absurd (omega arith);
    below = λ i l. refl;
    above = λ i l. refl;
  },
)
copy_rest_lem (suc n) lo from to f t =
    let here : lo < length to = omega arith in
    let w : (i : ℕ) → at (set to lo (at from lo)) i ≡ (if lo == i then at from lo else at to i) =
      λ i. at-set to lo i (at from lo) here in
    rw (load-ok from lo (omega arith), store-ok to lo (at from lo) here)
      (weaken _
        (copy_rest_lem n (lo + 1) from (set to lo (at from lo)) (omega arith)
          (omega (arith, length-set to lo (at from lo))))
        λ s c. record {
          same_length = c.same_length ∙ length-set to lo (at from lo);
          inside = λ i l u. elim (Bool-cases (lo == i)) [
            | inl y ↦ c.below i (ground arith) ∙ (w i ∙ ground arith)
            | inr m ↦ c.inside i (ground arith) (omega arith)
          ];
          below = λ i l. c.below i (omega arith) ∙ (w i ∙ ground arith);
          above = λ i l. c.above i (omega arith) ∙ (w i ∙ ground arith);
        })

memcpy_lem :
    (n lo hi : ℕ) (from to : Array)
    → lo + n ≡ hi
    → hi ≤ length from
    → hi ≤ length to
    → Returns (memcpy n from lo to) (Copied lo hi from to)
unfolding memcpy
memcpy_lem n lo hi from to e f t =
    bind_rule _ _ (copy_rest_lem n lo from to (omega arith) (omega arith))
      λ s c. (s.0, refl, subst (λ m. Copied lo m from to s.0) e c)

-- Copying a merged range back rearranges the range.
Copied-Rearranges :
    (lo mid hi : ℕ) (a r0 r b : Array)
    → lo ≤ hi
    → hi ≤ length a
    → IsMerged lo mid hi a r0 r
    → Copied lo hi r a b
    → Rearranges lo hi a b
unfolding prefix_count
Copied-Rearranges lo mid hi a r0 r b h u m c =
    counts-Rearranges lo hi a b h u c.same_length c.below c.above λ v. omega (
      arith,
      m.counted v,
      prefix_count-agree v lo hi b r h c.inside,
      prefix_count-agree v 0 lo r r0 (omega arith) (λ i x y. m.below i y),
    )

-- What a call on the range `[lo, hi)` leaves in `(ptr, result)`.
record IsSorted (lo hi : ℕ) (a : Array) (s : Array × Array) : Type 0 where
  ascending : IsSortedOn lo hi s.0
  moved : Rearranges lo hi a s.0
  memory : length s.1 ≡ length a
  copied : lo + 1 < hi → (i : ℕ) → lo ≤ i → i < hi → at s.1 i ≡ at s.0 i

recursive_merge_range_lem :
    (fuel : ℕ) (a r : Array) (lo hi : ℕ)
    → hi < lo + fuel
    → lo ≤ hi
    → hi ≤ length a
    → length r ≡ length a
    → Returns (recursive_merge_range fuel (a, r) lo hi) (IsSorted lo hi a)
unfolding recursive_merge_range
recursive_merge_range_lem zero a r lo hi f o u len = absurd (omega arith)
recursive_merge_range_lem (suc fuel) a r lo hi f o u len = elim (Bool-cases (leb hi (lo + 1))) [
  | inl short ↦ (
    (a, r),
    rw short refl,
    record {
      ascending = λ i j x y z. ground (arith, leb→le _ _ short);
      moved = Rearranges-refl lo hi a;
      memory = len;
      copied = λ x. absurd (ground (arith, leb→le _ _ short));
    },
  )
  | inr long ↦
      let two = leb→gt _ _ long in
      let mid = lo + (hi - 1 - lo) / 2 + 1 in
      rw long (
        bind_rule _ _
          (recursive_merge_range_lem fuel a r lo mid (omega arith) (omega arith) (omega arith) len)
          λ s1 x1.
            bind_rule _ _
              (recursive_merge_range_lem fuel s1.0 s1.1 mid hi (omega arith) (omega arith)
                (omega (arith, x1.moved.same_length))
                (omega (arith, x1.moved.same_length, x1.memory)))
              λ s2 x2.
                let len2 : length s2.0 ≡ length a = x2.moved.same_length ∙ x1.moved.same_length in
                let memory : length s2.1 ≡ length a = x2.memory ∙ x1.moved.same_length in
                bind_rule _ _
                  (merge_ranges-IsMerged lo mid hi s2.0 s2.1 (omega arith) (omega arith)
                    (λ i j p q w.
                      rw (x2.moved.below i (omega arith), x2.moved.below j w)
                        (x1.ascending i j p q w))
                    x2.ascending (omega arith) (omega arith))
                  λ r' m.
                    bind_rule _ _
                      (memcpy_lem (hi - lo) lo hi r' s2.0 (omega arith)
                        (omega (arith, m.same_length)) (omega arith))
                      λ p c. (
                        (p, r'),
                        refl,
                        record {
                          ascending = λ i j x y z.
                              rw (c.inside i x (omega arith), c.inside j (omega arith) z)
                                (m.ascending i j x y z);
                          moved =
                              Rearranges-trans
                                (Rearranges-widen lo hi (omega arith) (omega arith) x1.moved)
                                (Rearranges-trans
                                  (Rearranges-widen lo hi (omega arith) (omega arith) x2.moved)
                                  (Copied-Rearranges lo mid hi s2.0 s2.1 r' p (omega arith)
                                    (omega arith) m c));
                          memory = m.same_length ∙ memory;
                          copied = λ big i x y. sym (c.inside i x y);
                        },
                      ))
]

at-ext : (a b : Array) → length a ≡ length b → ((i : ℕ) → i < length a → at a i ≡ at b i) → a ≡ b
unfolding at
at-ext [] [] l h = refl
at-ext [] (y ∷ b) l h = absurd (omega arith)
at-ext (x ∷ a) [] l h = absurd (omega arith)
at-ext (x ∷ a) (y ∷ b) l h =
    ap (λ z. z ∷ a) (h 0 (omega arith))
    ∙ ap (◌∷◌ y) (at-ext a b (omega arith) (λ i m. h (suc i) (omega arith)))

-- A copy of a whole array is that array.
pub memcpy_whole :
    (n : ℕ) (from to : Array)
    → length from ≡ n
    → length to ≡ n
    → Returns (memcpy n from 0 to) λ r. r ≡ from
memcpy_whole n from to f t =
    weaken _ (memcpy_lem n 0 n from to (omega arith) (omega arith) (omega arith)) λ r c.
      at-ext r from (c.same_length ∙ (t ∙ sym f))
        (λ i l. c.inside i (omega arith) (omega (arith, c.same_length)))

at_end : (a : Array) (i : ℕ) → length a ≤ i → at a i ≡ pos 0
unfolding at
at_end [] i h = refl
at_end (x ∷ a) zero h = absurd (omega arith)
at_end (x ∷ a) (suc i) h = at_end a i (omega arith)

-- Behind their ends all arrays read alike.
pub at_outside : (a b : Array) (i : ℕ) → length a ≤ i → length b ≤ i → at a i ≡ at b i
at_outside a b i h k = at_end a i h ∙ sym (at_end b i k)

-- On an array of two entries or more, and whatever the memory that it allocates holds,
-- `recursive_merge_sort` ends without a fault (no access outside either array, no loop out of
-- fuel), and its result ascends and is a rearrangement of the array.
pub recursive_merge_sort-Sorts :
    (memory a : Array)
    → length memory ≡ length a
    → 2 ≤ length a
    → Returns (recursive_merge_sort memory a) (Sorts a)
unfolding recursive_merge_sort
recursive_merge_sort-Sorts memory a len two =
    let n = length a in
    let filled : (length a == 0) ≡ false = ground arith in
    rw filled (
      bind_rule _ _
        (recursive_merge_range_lem (n + 1) a memory 0 n (omega arith) (omega arith) (omega arith)
          len)
        λ s x.
          let size = x.moved.same_length in
          weaken _ (memcpy_lem n 0 n s.1 s.0 (omega arith) (omega (arith, x.memory)) (omega arith))
            λ r c.
              let same : s.0 ≡ r = at-ext s.0 r (sym c.same_length) (λ i l. sym (
                c.inside i (omega arith) (omega arith)
                ∙ x.copied (omega arith) i (omega arith) (omega arith))) in
              subst (Sorts a) same (record {
                ascending = λ i j l m o. x.ascending i j l m (omega arith);
                rearranged = x.moved;
              }))

-- On an array of one entry, `recursive_merge_sort` replaces the entry by what the memory that it
-- allocates happens to hold.
pub recursive_merge_sort_one : (m x : ℤ) → recursive_merge_sort (m ∷ []) (x ∷ []) ≡ ok (m ∷ [])
unfolding recursive_merge_sort recursive_merge_range memcpy copy_rest load store
recursive_merge_sort_one m x = refl
