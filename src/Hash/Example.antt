-- ===== src/Hash/Example.antt =====
-- A table with one entry, for the tests.
use my_little_tool.Prelude.{
  ℕ, ◌≡◌, refl, arith, true, [], ◌∷◌, none, some, set, replicate, fetch, assign, ok, at_result,
  for_up,
}
use my_little_tool.Hash.{
  HashTypeFunction, HashTable, uint32, bucket, set_bucket, new_capcity, hash_slot, find_entry,
  hash_table_find, set_value, rehash_chain, grow_to, hash_table_growup, link_entry,
  hash_table_insert,
}
use my_little_tool.Hash.Chain.{IsLawful}
use my_little_tool.Hash.Valid.{IsValid, fresh}
use my_little_tool.Hash.Insert.{hash_table_insert-IsInserted}
use my_little_tool.Hash.Functions.{
  socket_fd_hash, interger_compare, interger_dump, socket_hash_functions, socket-IsLawful,
}

abbrev pub functions : HashTypeFunction ℕ ℕ
functions = socket_hash_functions ℕ

abbrev pub law : IsLawful functions
law = socket-IsLawful ℕ

abbrev pub empty : HashTable ℕ ℕ
empty = record { table_ = none; size_ = 0; use_ = 0 }

-- The table after an insertion of the descriptor 7 with the value 70.
abbrev pub one : HashTable ℕ ℕ
one = record {
  table_ = some (set (replicate 32 []) 8 (record { key_ = 7; val_ = 70 } ∷ []));
  size_ = 32;
  use_ = 1;
}

insert_runs : hash_table_insert functions true true empty 7 70 ≡ ok one
unfolding uint32 bucket set_bucket fetch assign for_up new_capcity hash_slot find_entry
    hash_table_find set_value rehash_chain grow_to hash_table_growup link_entry hash_table_insert
    socket_fd_hash interger_compare interger_dump
insert_runs = refl

pub empty-IsValid : IsValid functions empty
empty-IsValid = fresh refl refl refl

pub one-IsValid : IsValid functions one
one-IsValid =
    (at_result _ one
      (hash_table_insert-IsInserted functions law empty 7 70 empty-IsValid (omega arith))
      insert_runs).valid
