-- ===== src/Sort/Radix.antt =====
-- Sort/radix_sort.c: radix sort from the last digit and from the first.
-- The memory that is allocated is an argument, of any content: `result` of the first version, and
-- what `malloc` gives for a length in the second. Ends of ranges are exclusive.
pub mod Digits
pub mod Sorting
pub mod First
pub mod Ranges
pub mod Buckets
mod Tests
use my_little_tool.Prelude.{
  ◌>>=◌, ℕ, zero, suc, ◌+◌, ◌-◌, ◌*◌, ◌/◌, ◌%◌, ℤ, pos, negsuc, pos_part, Bool, false, ltb, leb,
  ltb_ℤ, ◌==◌, not, if◌then◌else◌, List, length, Run, ok, fault, out_of_bounds, out_of_fuel, fetch,
  for_up,
}
use my_little_tool.Sort.Array.{Array, load, store, swap_elems}
use my_little_tool.Sort.Merge.{memcpy}
use my_little_tool.Sort.Counting.{minus_ℤ, to_int, extremes, subtract_all, add_all, counting_pass}

abbrev pub radix_size : ℕ
radix_size = 10

-- `(x / n) % RadixSize` as an index, with C's division towards 0
unfoldable pub radix_digit : ℕ → ℤ → Run ℕ
radix_digit n (pos x) = ok ((x / n) % radix_size)
radix_digit n (negsuc x) = if (suc x / n) % radix_size == 0 then ok 0 else fault out_of_bounds

-- `while (max/n > 0) { ... n *= 10; }` on the arrays that `a` and `result` point to, and whether
-- `a` is not `ptr`
unfoldable pub lsd_loop : ℕ → ℤ → ℕ → Array × Array × Bool → Run (Array × Array × Bool)
lsd_loop zero max n s = fault out_of_fuel
lsd_loop (suc fuel) max n (a, result, away) =
    let round : Run (Array × Array × Bool) = do
      (counts, filled) ← counting_pass (radix_digit n) radix_size 0 (length a) a result
      lsd_loop fuel max (n * radix_size) (filled, a, not away)
    in if ltb 0 (pos_part max / n) then round else ok (a, result, away)

-- The loop, and the copy back into `ptr`.
unfoldable pub lsd_digits : Array → Array → ℤ → Run Array
lsd_digits result ptr max = do
  (a, other, away) ← lsd_loop 11 max 1 (ptr, result, false)
  if away then memcpy (length ptr) a 0 other else ok a

unfoldable pub radix_sort_lsd : Array → Array → Run Array
radix_sort_lsd result ptr = if leb (length ptr) 1 then ok ptr else do
  (max, min) ← extremes ptr
  let shifted : Run Array = do
    max' ← to_int (minus_ℤ max min)
    b ← subtract_all min ptr
    c ← lsd_digits result b max'
    add_all min c
  if ltb_ℤ min (pos 0) then shifted else lsd_digits result ptr max

-- `memcpy(ptr+start, bucket, n)`
unfoldable pub copy_back : ℕ → ℕ → Array → Array → Run Array
copy_back start n bucket ptr = for_up n 0 (λ i p. do x ← load bucket i; store p (start + i) x) ptr

-- The range that has digit `i`, from the counts of the pass: `start+count[i]` and
-- `(i+1)<RadixSize ? start+count[i+1] : end`.
unfoldable pub digit_end : ℕ → ℕ → List ℕ → ℕ → Run ℕ
digit_end start end counts i =
    let next : Run ℕ = fetch counts (i + 1) >>= λ c. ok (start + c) in
    if ltb (i + 1) radix_size then next else ok end

-- `if (start1 < end1) recursive(ptr, start1, end1, exp/RadixSize)` for digit `i`
unfoldable pub msd_digit : (ℕ → ℕ → Array → Run Array) → ℕ → ℕ → List ℕ → ℕ → Array → Run Array
msd_digit recursive start end counts i ptr = do
  c ← fetch counts i
  end1 ← digit_end start end counts i
  if ltb (start + c + 1) end1 then recursive (start + c) end1 ptr else ok ptr

-- `malloc exp start n` is what the `n` entries hold that the call for `exp` and `start` allocates; a
-- `malloc` that fails is not modelled.
unfoldable pub msd_range : (ℕ → ℕ → ℕ → Array) → ℕ → ℕ → ℕ → ℕ → Array → Run Array
msd_range malloc zero exp start end ptr = fault out_of_fuel
msd_range malloc (suc fuel) exp start end ptr =
    let two : Run Array = do
      x ← load ptr start
      y ← load ptr (start + 1)
      if ltb_ℤ y x then swap_elems ptr start (start + 1) else ok ptr
    in let many : Run Array = do
      (counts, bucket) ←
          counting_pass (radix_digit exp) radix_size start (end - start) ptr
            (malloc exp start (end - start))
      p ← copy_back start (end - start) bucket ptr
      for_up radix_size 0 (msd_digit (msd_range malloc fuel (exp / radix_size)) start end counts) p
      in if exp == 0
        then ok ptr
        else if leb (end - start) 1
        then ok ptr
        else if end - start == 2
        then two
        else many

-- `while (max = max/10) n *= 10;`
unfoldable pub top_digit : ℕ → ℕ → ℕ → Run ℕ
top_digit zero max n = fault out_of_fuel
top_digit (suc fuel) max n =
    let next = top_digit fuel (max / 10) (n * 10) in if max / 10 == 0 then ok n else next

unfoldable pub msd_digits : (ℕ → ℕ → ℕ → Array) → Array → ℤ → Run Array
msd_digits malloc ptr max = do
  n ← top_digit 11 (pos_part max) 1
  msd_range malloc 12 n 0 (length ptr) ptr

unfoldable pub radix_sort_msd : (ℕ → ℕ → ℕ → Array) → Array → Run Array
radix_sort_msd malloc ptr = if leb (length ptr) 1 then ok ptr else do
  (max, min) ← extremes ptr
  let shifted : Run Array = do
    max' ← to_int (minus_ℤ max min)
    b ← subtract_all min ptr
    c ← msd_digits malloc b max'
    add_all min c
  if ltb_ℤ min (pos 0) then shifted else msd_digits malloc ptr max
