-- ===== src/Hash/Iterate/Tests.antt =====
-- The iterator on a table with one entry.
use my_little_tool.Prelude.{
  ℕ, ◌≡◌, refl, arith, List, [], ◌∷◌, set, replicate, ok, true, fault, no_result, fetch, Returns,
  int_result,
}
use my_little_tool.Hash.{TableEntry, bucket}
use my_little_tool.Hash.Clear.{IsFreed}
use my_little_tool.Hash.Example.{functions, one, one-IsValid}
use my_little_tool.Hash.Iterate.{
  set_iterator, hash_table_get_iterator, advance, answer, hash_table_next,
}
use my_little_tool.Hash.Iterate.Visit.{visit, prepend, visit-IsFreed}

visit_runs : visit 2 34 (set_iterator one) ≡ ok (record { key_ = 7; val_ = 70 } ∷ [])
unfolding bucket fetch int_result set_iterator advance answer hash_table_next prepend visit
visit_runs = refl

visit-IsFreed_example : Returns (visit 2 34 (set_iterator one)) (IsFreed functions one)
visit-IsFreed_example = visit-IsFreed functions one one-IsValid (omega arith) (omega arith)

abbrev chains : List (List (TableEntry ℕ ℕ))
chains = set (replicate 32 []) 8 (record { key_ = 7; val_ = 70 } ∷ [])

get_iterator_faults : hash_table_get_iterator true one ≡ fault no_result
unfolding hash_table_get_iterator
get_iterator_faults = refl
