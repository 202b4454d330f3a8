-- ===== src/Sort/Merge/Rounds/Blocks.antt =====
-- After a round every block of twice the size ascends, so the rounds sort.
use my_little_tool.Prelude.{
  int_result-ok, ℕ, zero, suc, ◌+◌, ◌-◌, ◌*◌, ◌^◌, ◌≤◌, ◌<◌, ◌≡◌, refl, sym, ◌∙◌, subst, arith, ℤ,
  Bool, false, not, Bool-cases, ltb, ltb→lt, ltb→ge, ◌==◌, if◌then◌else◌, inl, inr, length, Returns,
  bind_rule, weaken, lt_or_ge,
}
use my_little_tool.Sort.Array.{Array, IsSortedOn, Sorts}
use my_little_tool.Sort.Array.Rearrange.{Rearranges-refl}
use my_little_tool.Sort.Merge.Prefix.{prefix_count, counts-Rearranges}
use my_little_tool.Sort.Merge.Step.{IsMerged, merge_ranges-IsMerged}
use my_little_tool.Sort.Merge.Sorting.{memcpy_whole, at_outside}
use my_little_tool.Sort.Merge.Rounds.{min_of, merge_blocks, merge_rounds, merge_sort}

-- The end of the block that starts at `s`.
abbrev block_end : ℕ → ℕ → ℕ → ℕ
block_end n w s = if ltb (s + w) n then s + w else n

-- Each block of `w` entries ascends.
IsBlocky : ℕ → Array → Type 0
IsBlocky w a = (b : ℕ) → b * w < length a → IsSortedOn (b * w) (block_end (length a) w (b * w)) a

-- In a round, when the first `b` blocks of `w` entries are merged.
record Round (w b : ℕ) (a r : Array) : Type 0 where
  same_length : length r ≡ length a
  ascending : (c : ℕ) → c < b → IsSortedOn (c * w) (block_end (length a) w (c * w)) r
  counted :
      (v : ℤ)
      → prefix_count v (block_end (length a) 0 (b * w)) r
        ≡ prefix_count v (block_end (length a) 0 (b * w)) a

mul_next : (b w : ℕ) → (b + 1) * w ≡ b * w + w
mul_next b w = grind arith

mul_mono : (b c w : ℕ) → b ≤ c → b * w ≤ c * w
mul_mono b c w h = grind arith

-- The two halves of a block of the next round.
halves_ascend :
    (seg b : ℕ) (a : Array) (mid hi : ℕ)
    → 0 < seg
    → IsBlocky seg a
    → b * (2 * seg) < length a
    → mid ≡ min_of (b * (2 * seg) + seg) (length a - 1)
    → hi ≡ block_end (length a) (2 * seg) (b * (2 * seg))
    → IsSortedOn (b * (2 * seg)) mid a × IsSortedOn mid hi a
unfolding min_of IsBlocky
halves_ascend seg b a mid hi pos blocky low m h =
    let first : 2 * b * seg ≡ b * (2 * seg) = grind arith in
    let second : (2 * b + 1) * seg ≡ b * (2 * seg) + seg = grind arith in
    (
      (λ i j x y z. blocky (2 * b) (omega arith) i j (omega arith) y (ground arith)),
      λ i j x y z. elim (lt_or_ge (b * (2 * seg) + seg) (length a - 1)) [
        | inl two ↦ blocky (2 * b + 1) (omega arith) i j (ground arith) y (ground arith)
        | inr one ↦ ground arith
      ],
    )

-- What a round leaves in its result.
record IsRound (w : ℕ) (a r : Array) : Type 0 where
  same_length : length r ≡ length a
  blocks : IsBlocky w r
  counted : (v : ℤ) → prefix_count v (length a) r ≡ prefix_count v (length a) a

last_block : (w b : ℕ) (a r : Array) → length a ≤ b * w → Round w b a r → IsRound w a r
unfolding IsBlocky
last_block w b a r done m = record {
  same_length = m.same_length;
  blocks = λ c low. elim (lt_or_ge c b) [
    | inl before ↦
        subst (λ n. IsSortedOn (c * w) (block_end n w (c * w)) r) (sym m.same_length)
          (m.ascending c before)
    | inr after ↦ absurd (omega (arith, mul_mono b c w after, m.same_length))
  ];
  counted = λ v.
      let z : block_end (length a) 0 (b * w) ≡ length a = ground arith in
      subst (λ n. prefix_count v n r ≡ prefix_count v n a) z (m.counted v);
}

next_block :
    (w b mid hi : ℕ) (a r r' : Array)
    → b * w < length a
    → hi ≡ block_end (length a) w (b * w)
    → Round w b a r
    → IsMerged (b * w) mid hi a r r'
    → Round w (b + 1) a r'
next_block w b mid hi a r r' low h m n = record {
  same_length = n.same_length ∙ m.same_length;
  ascending = λ c u. elim (lt_or_ge c b) [
    | inl before ↦ λ i j x y z.
        let apart : c * w + w ≤ b * w =
          omega (arith, mul_next c w, mul_mono (c + 1) b w (omega arith)) in
        let jb : j < b * w = ground arith in
        rw (n.below i (omega arith), n.below j jb) (m.ascending c before i j x y z)
    | inr last ↦
        let e : b ≡ c = omega arith in
        subst (λ k. IsSortedOn (k * w) (block_end (length a) w (k * w)) r') e
          (subst (λ k. IsSortedOn (b * w) k r') h n.ascending)
  ];
  counted = λ v.
      let z : hi ≡ block_end (length a) 0 ((b + 1) * w) = ground (arith, mul_next b w) in
      let s : block_end (length a) 0 (b * w) ≡ b * w = ground arith in
      let before : prefix_count v (b * w) r ≡ prefix_count v (b * w) a =
        subst (λ k. prefix_count v k r ≡ prefix_count v k a) s (m.counted v) in
      subst (λ k. prefix_count v k r' ≡ prefix_count v k a) z (omega (arith, n.counted v, before));
}

merge_blocks_lem :
    (fuel seg b : ℕ) (a r : Array)
    → 0 < seg
    → seg < length a
    → length a ≤ 2 ^ 29
    → b ≤ length a
    → length a < b + fuel
    → IsBlocky seg a
    → Round (2 * seg) b a r
    → Returns (merge_blocks fuel seg a (b * (2 * seg)) r) (IsRound (2 * seg) a)
unfolding merge_blocks min_of
merge_blocks_lem zero seg b a r pos small big o f blocky m = absurd (omega arith)
merge_blocks_lem (suc fuel) seg b a r pos small big o f blocky m =
    let w = 2 * seg in
    let n = length a in
    elim (Bool-cases (ltb (b * w) n)) [
      | inr done ↦ (r, rw done refl, last_block w b a r (ltb→ge _ _ done) m)
      | inl more ↦
          let low : b * w < n = ltb→lt _ _ more in
          let early : b ≤ b * w = grind arith in
          let mid = min_of (b * w + seg) (n - 1) in
          let hi = block_end n w (b * w) in
          let left : min_of (mid - 1) (n - 1) + 1 ≡ mid = ground arith in
          let right : min_of (b * w + w - 1) (n - 1) + 1 ≡ hi = ground arith in
          let asc = halves_ascend seg b a mid hi pos blocky low refl refl in
          let fits : hi ≤ n = ground arith in
          rw (more, int_result-ok (b * w + w) (omega arith), left, right)
            (bind_rule _ _
              (merge_ranges-IsMerged (b * w) mid hi a r (ground arith) (ground arith) asc.0 asc.1
                fits (omega (arith, m.same_length)))
              λ r' x.
                subst (λ k. Returns (merge_blocks fuel seg a k r') (IsRound w a)) (mul_next b w)
                  (merge_blocks_lem fuel seg (b + 1) a r' pos small big (omega arith) (omega arith)
                    blocky (next_block w b mid hi a r r' low refl m x)))
    ]

whole-IsRound :
    (seg : ℕ) (a r : Array)
    → 0 < seg
    → seg < length a
    → length a ≤ 2 ^ 29
    → length r ≡ length a
    → IsBlocky seg a
    → Returns (merge_blocks (length a + 1) seg a 0 r) (IsRound (2 * seg) a)
unfolding prefix_count
whole-IsRound seg a r pos small big len blocky =
    let zero_start : 0 * (2 * seg) ≡ 0 = omega arith in
    let none_done : block_end (length a) 0 (0 * (2 * seg)) ≡ 0 = ground arith in
    subst (λ k. Returns (merge_blocks (length a + 1) seg a k r) (IsRound (2 * seg) a)) zero_start
      (merge_blocks_lem (length a + 1) seg 0 a r pos small big (omega arith) (omega arith) blocky
        (record {
          same_length = len;
          ascending = λ c u. absurd (omega arith);
          counted = λ v. subst (λ k. prefix_count v k r ≡ prefix_count v k a) (sym none_done) refl;
        }))

-- What holds of `(a, result, swapped)` between the rounds.
record Rounds (seg : ℕ) (ptr : Array) (s : Array × Array × Bool) : Type 0 where
  same_length : length s.0 ≡ length ptr
  memory : length s.1 ≡ length ptr
  blocks : IsBlocky seg s.0
  counted : (v : ℤ) → prefix_count v (length ptr) s.0 ≡ prefix_count v (length ptr) ptr

merge_rounds_lem :
    (fuel seg k : ℕ) (ptr a r : Array) (swapped : Bool)
    → length ptr ≤ 2 ^ 29
    → k < seg
    → k ≤ length ptr
    → k + fuel ≡ length ptr + 1
    → Rounds seg ptr (a, r, swapped)
    → Returns
        (merge_rounds fuel seg (a, r, swapped))
        λ s. (w : ℕ) × (length ptr ≤ w) × Rounds w ptr s
unfolding merge_rounds prefix_count
merge_rounds_lem zero seg k ptr a r swapped big ks kn f m = absurd (omega arith)
merge_rounds_lem (suc fuel) seg k ptr a r swapped big ks kn f m =
    elim (Bool-cases (ltb seg (length a))) [
      | inr done ↦
          ((a, r, swapped), rw done refl, (seg, omega (arith, ltb→ge _ _ done, m.same_length), m))
      | inl more ↦
          let small : seg < length a = ltb→lt _ _ more in
          let n = m.same_length in
          let twice : 2 * seg ≡ seg * 2 = omega arith in
          rw more (
            bind_rule _ _
              (whole-IsRound seg a r (omega arith) small (omega arith) (m.memory ∙ sym n) m.blocks)
              λ r' x. rw (int_result-ok (seg * 2) (omega arith)) (
                merge_rounds_lem fuel (seg * 2) (k + 1) ptr r' a (not swapped) big (omega arith)
                  (omega arith) (omega arith)
                  (record {
                    same_length = x.same_length ∙ n;
                    memory = n;
                    blocks = subst (λ w. IsBlocky w r') twice x.blocks;
                    counted = λ v.
                        subst (λ l. prefix_count v l r' ≡ prefix_count v l a) n (x.counted v)
                        ∙ m.counted v;
                  })))
    ]

-- Blocks of one entry ascend.
single_blocks : (a : Array) → IsBlocky 1 a
unfolding IsBlocky
single_blocks a b low i j x y z = ground arith

-- One block that is as long as the array ascends, and the counts make it a rearrangement.
Rounds-Sorts :
    (w : ℕ) (ptr a r : Array) (swapped : Bool)
    → 0 < length ptr
    → length ptr ≤ w
    → Rounds w ptr (a, r, swapped)
    → Sorts ptr a
unfolding IsBlocky prefix_count
Rounds-Sorts w ptr a r swapped filled wide m =
    let n = m.same_length in
    let zero_start : 0 * w ≡ 0 = omega arith in
    record {
      ascending = λ i j x y z. m.blocks 0 (omega arith) i j (omega arith) y (ground arith);
      rearranged =
          counts-Rearranges 0 (length ptr) ptr a (omega arith) (omega arith) n
            (λ i x. absurd (omega arith)) (λ i x. at_outside a ptr i (omega arith) x)
            (λ v. omega (arith, m.counted v));
    }

-- On an array of at most 2^29 entries, the empty one too, and whatever the memory that it
-- allocates holds, `merge_sort` ends without a fault (no access outside either array, no overflow
-- of the index arithmetic, no loop out of fuel), and its result ascends and is a rearrangement of
-- the array.
pub merge_sort-Sorts :
    (memory ptr : Array)
    → length memory ≡ length ptr
    → length ptr ≤ 2 ^ 29
    → Returns (merge_sort memory ptr) (Sorts ptr)
unfolding merge_sort
merge_sort-Sorts memory ptr len big = elim (Bool-cases (length ptr == 0)) [
  | inl empty ↦ (
    ptr,
    rw empty refl,
    record { ascending = λ i j l m n. ground arith; rearranged = Rearranges-refl _ _ ptr },
  )
  | inr some_left ↦ rw some_left (
      bind_rule _ _
        (merge_rounds_lem (length ptr + 1) 1 0 ptr ptr memory false big (omega arith) (omega arith)
          (omega arith)
          (record {
            same_length = refl;
            memory = len;
            blocks = single_blocks ptr;
            counted = λ v. refl;
          }))
        λ s p.
          let (w, wide, m) = p in
          let done : Sorts ptr s.0 = Rounds-Sorts w ptr s.0 s.1 s.2 (ground arith) wide m in
          elim (Bool-cases s.2) [
            | inr kept ↦ (s.0, rw kept refl, done)
            | inl copied ↦ rw copied (
                weaken _ (memcpy_whole (length ptr) s.0 s.1 m.same_length m.memory)
                  λ r e. subst (Sorts ptr) (sym e) done)
          ])
]
