-- ===== src/Sort/Radix/Tests.antt =====
-- The radix sorts on small arrays, and the theorems on them.
use my_little_tool.Prelude.{ℕ, refl, pos, length-replicate, replicate, Returns}
use my_little_tool.Sort.Array.{Array, Sorts}
use my_little_tool.Sort.Samples.{numbers, numbers-fit, numbers-differ}
use my_little_tool.Sort.Radix.{radix_sort_lsd, radix_sort_msd}
use my_little_tool.Sort.Radix.Sorting.{radix_sort_lsd-Sorts}
use my_little_tool.Sort.Radix.First.{radix_sort_msd-Sorts}

abbrev memory : ℕ → Array
memory n = replicate n (pos 7)

radix_sort_lsd-Sorts_example : Returns (radix_sort_lsd (memory 7) numbers) (Sorts numbers)
radix_sort_lsd-Sorts_example =
    radix_sort_lsd-Sorts numbers numbers-fit numbers-differ (memory 7) refl

radix_sort_msd-Sorts_example :
    Returns (radix_sort_msd (λ exp start. memory) numbers) (Sorts numbers)
radix_sort_msd-Sorts_example =
    radix_sort_msd-Sorts (λ exp start. memory) (λ exp start n. length-replicate n (pos 7)) numbers
      numbers-fit numbers-differ
