-- ===== src/Sort/Counting.antt =====
-- Sort/count_sort.c, and the loops that it shares with Sort/radix_sort.c: counting digits, summing
-- the counts, and placing the entries from the back.
-- The memory for `result` is an argument, of any content. Ends of ranges are exclusive.
pub mod Signed
pub mod Tally
pub mod Pass
pub mod Moved
pub mod Restore
pub mod Sorting
mod Tests
use my_little_tool.Prelude.{
  ◌>>=◌, ℕ, ◌+◌, ◌-◌, ◌^◌, ℤ, pos, negsuc, pos_part, neg_part, ltb, leb, ltb_ℤ, eq_ℤ, ◌==◌, ◌&&◌,
  not, if◌then◌else◌, List, length, replicate, Run, ok, fault, out_of_bounds, overflow, fetch,
  assign, for_up, for_down,
}
use my_little_tool.Sort.Array.{Array, load, store}
use my_little_tool.Sort.Merge.{memcpy}

-- `m - n` as an integer
unfoldable pub diff : ℕ → ℕ → ℤ
diff m n = if ltb m n then negsuc (n - m - 1) else pos (m - n)

unfoldable pub minus_ℤ : ℤ → ℤ → ℤ
minus_ℤ x y = diff (pos_part x + neg_part y) (neg_part x + pos_part y)

unfoldable pub plus_ℤ : ℤ → ℤ → ℤ
plus_ℤ x y = diff (pos_part x + pos_part y) (neg_part x + neg_part y)

-- A result that must fit into an `int`.
unfoldable pub to_int : ℤ → Run ℤ
to_int x = if ltb (pos_part x) (2 ^ 31) && leb (neg_part x) (2 ^ 31) then ok x else fault overflow

-- An `int` as an index.
unfoldable pub to_index : ℤ → Run ℕ
to_index (pos n) = ok n
to_index (negsuc n) = fault out_of_bounds

-- `for (int i=1; i<len; i++) { if (ptr[i]>max) max=ptr[i]; if (ptr[i]<min) min=ptr[i]; }` on
-- `(max, min)`
unfoldable pub extremes : Array → Run (ℤ × ℤ)
extremes a = do
  first ← load a 0
  for_up (length a - 1) 1
      (λ i (max, min). do
        x ← load a i
        ok ((if ltb_ℤ max x then x else max), (if ltb_ℤ x min then x else min)))
      (first, first)

-- `for (int i=0; i<len; i++) ptr[i]-=min;`
unfoldable pub subtract_all : ℤ → Array → Run Array
subtract_all min a =
    for_up (length a) 0 (λ i b. do x ← load b i; y ← to_int (minus_ℤ x min); store b i y) a

-- `for (int i=0; i<len; i++) ptr[i]+=min;`
unfoldable pub add_all : ℤ → Array → Run Array
add_all min a =
    for_up (length a) 0 (λ i b. do x ← load b i; y ← to_int (plus_ℤ x min); store b i y) a

-- `for (int i=start; i<start+n; i++) count[digit(ptr[i])]++;`
unfoldable pub tally : (ℤ → Run ℕ) → ℕ → ℕ → Array → List ℕ → Run (List ℕ)
tally digit start n a counts =
    for_up n 0
      (λ i counts. do
        x ← load a (start + i)
        d ← digit x
        c ← fetch counts d
        assign counts d (c + 1))
      counts

-- `for (int i=1; i<size; i++) count[i]+=count[i-1];`
unfoldable pub running_sums : ℕ → List ℕ → Run (List ℕ)
running_sums size counts =
    for_up (size - 1) 1
      (λ i counts. do
        before ← fetch counts (i - 1)
        c ← fetch counts i
        assign counts i (c + before))
      counts

-- `for (int i=start+n-1; i>=start; i--) result[--count[digit(ptr[i])]] = ptr[i];`
unfoldable pub scatter : (ℤ → Run ℕ) → ℕ → ℕ → Array → List ℕ × Array → Run (List ℕ × Array)
scatter digit start n a s =
    for_down n
      (λ i (counts, result). do
        x ← load a (start + i)
        d ← digit x
        c ← fetch counts d
        if c == 0 then fault out_of_bounds else do
          counts' ← assign counts d (c - 1)
          result' ← store result (c - 1) x
          ok (counts', result'))
      s

-- The three loops in a row, with `count` zeroed before.
unfoldable pub counting_pass : (ℤ → Run ℕ) → ℕ → ℕ → ℕ → Array → Array → Run (List ℕ × Array)
counting_pass digit size start n a result = do
  counts ← tally digit start n a (replicate size 0)
  sums ← running_sums size counts
  scatter digit start n a (sums, result)

-- `count[ptr[i]-min]`
unfoldable pub value_digit : ℤ → ℤ → Run ℕ
value_digit min x = do d ← to_int (minus_ℤ x min); to_index d

-- From the test for the spread to the end of the function, with the entries as they are then.
unfoldable pub count_values : Array → Array → ℤ → ℤ → ℤ → Run Array
count_values result a max min has_negtive = do
  spread ← to_int (minus_ℤ max min)
  if ltb_ℤ (pos 10000) spread then ok a else do
    (counts, sorted) ← counting_pass (value_digit min) (pos_part spread + 1) 0 (length a) a result
    b ← memcpy (length a) sorted 0 a
    if not (eq_ℤ has_negtive (pos 0)) then add_all has_negtive b else ok b

unfoldable pub count_sort : Array → Array → Run Array
count_sort result a = if leb (length a) 1 then ok a else do
  (max, min) ← extremes a
  let shifted : Run Array = do
    max' ← to_int (minus_ℤ max min)
    b ← subtract_all min a
    count_values result b max' (pos 0) min
  if ltb_ℤ min (pos 0) then shifted else count_values result a max min (pos 0)
