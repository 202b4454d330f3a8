-- ===== src/Hash/Tests.antt =====
-- Runs of the table with integer keys, and its theorems at a table with one entry.
use my_little_tool.Prelude.{
  ℕ, ◌≡◌, refl, arith, true, false, List, [], ◌∷◌, none, some, if◌then◌else◌, replicate, fetch,
  assign, ok, fault, null_pointer, ◌>>=◌, Returns, for_up,
}
use my_little_tool.Hash.{
  uint32, bucket, set_bucket, hash_table_construct, hash_slot, hash_table_find, hash_table_growup,
  hash_table_insert, unlink, remove_found, hash_table_del, hash_table_clear,
}
use my_little_tool.Hash.Chain.{value_of}
use my_little_tool.Hash.Valid.{contents, hash_table_find-contents}
use my_little_tool.Hash.Growth.{IsGrown, hash_table_growup-IsGrown}
use my_little_tool.Hash.Insert.{IsInserted, hash_table_insert-IsInserted, hash_table_insert-null}
use my_little_tool.Hash.Del.{IsDeleted, hash_table_del-IsDeleted}
use my_little_tool.Hash.Example.{functions, law, empty, one, empty-IsValid, one-IsValid}
use my_little_tool.Hash.Clear.{IsFreed, hash_table_clear-IsFreed}
use my_little_tool.Hash.Trace.{
  Call, insert, del, find, call_all, Implements, IsRun, construct-IsRun,
}
use my_little_tool.Hash.Roundtrip.{insert-find}
use my_little_tool.Hash.Functions.{socket_fd_hash, interger_compare}

empty_is_constructed : hash_table_construct true ≡ some empty
unfolding hash_table_construct
empty_is_constructed = refl

del_runs :
    hash_table_del functions one 7
    ≡ ok (
      record one { table_ = some (replicate 32 []); use_ = 0 },
      some (record { key_ = 7; val_ = 70 }),
    )
unfolding uint32 bucket set_bucket fetch assign hash_slot unlink remove_found hash_table_del
    socket_fd_hash interger_compare
del_runs = refl

clear_runs : hash_table_clear one ≡ ok (record { key_ = 7; val_ = 70 } ∷ [])
unfolding bucket fetch for_up hash_table_clear
clear_runs = refl

hash_table_find-contents_example :
    Returns (hash_table_find functions one 7) λ o. value_of functions o ≡ contents functions one 7
hash_table_find-contents_example = hash_table_find-contents functions one 7 one-IsValid

hash_table_insert-IsInserted_example :
    Returns (hash_table_insert functions true true one 39 5) (IsInserted functions law one 39 5)
hash_table_insert-IsInserted_example =
    hash_table_insert-IsInserted functions law one 39 5 one-IsValid (omega arith)

hash_table_growup-IsGrown_example :
    Returns (hash_table_growup functions true one) (IsGrown functions law one)
hash_table_growup-IsGrown_example =
    hash_table_growup-IsGrown functions law one one-IsValid (omega arith)

hash_table_del-IsDeleted_example :
    Returns (hash_table_del functions one 7) (IsDeleted functions law one 7)
hash_table_del-IsDeleted_example =
    hash_table_del-IsDeleted functions law one 7 one-IsValid (omega arith)

hash_table_clear-IsFreed_example : Returns (hash_table_clear one) (IsFreed functions one)
hash_table_clear-IsFreed_example = hash_table_clear-IsFreed functions one one-IsValid

insert-find_example :
    Returns
      (hash_table_insert functions true true one 8 80 >>= λ r. hash_table_find functions r 7)
      (λ o.
        value_of functions o ≡ (if interger_compare 8 7 then some 80 else contents functions one 7))
insert-find_example = insert-find functions law one 8 7 80 one-IsValid (omega arith)

hash_table_insert-null_example :
    hash_table_insert functions false true empty 7 70 ≡ fault null_pointer
hash_table_insert-null_example = hash_table_insert-null functions law empty 7 70 empty-IsValid refl

abbrev a : List ℕ
a = 97 ∷ []

abbrev b : List ℕ
b = 98 ∷ []

abbrev calls : List (Call ℕ ℕ)
calls = find 7 ∷ insert true true 39 5 ∷ del 7 ∷ insert true false 7 6 ∷ find 7 ∷ find 39 ∷ []

construct-IsRun_example :
    Returns
      (call_all functions empty (insert true true 7 70 ∷ calls))
      (IsRun functions law (λ x. none) (insert true true 7 70 ∷ calls))
construct-IsRun_example =
    construct-IsRun functions law empty true 7 70 calls empty_is_constructed (omega arith)

one-Implements : Implements functions law (contents functions one) one
one-Implements = record { valid = one-IsValid; some_slots = omega arith; agrees = λ x. refl }
