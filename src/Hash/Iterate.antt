-- ===== src/Hash/Iterate.antt =====
-- The iterator of hash_table.c. `entry_` is the chain from the current entry on, `[]` for NULL,
-- and `next_index` is `index_ + 1`, so that the -1 of a new iterator is 0.
pub mod Visit
mod Tests
use my_little_tool.Prelude.{
  ◌>>=◌, ℕ, zero, suc, ◌+◌, Bool, true, false, List, [], ◌∷◌, Option, none, some, leb,
  if◌then◌else◌, int_result, Run, ok, fault, no_result, out_of_fuel,
}
use my_little_tool.Hash.{TableEntry, HashTable, bucket}

pub record HashTableIterator {ℓ} (K V : Type ℓ) : Type ℓ where
  pub entry_ : List (TableEntry K V)
  pub table_ : HashTable K V
  pub next_index : ℕ

module _ {ℓ} {K V : Type ℓ} where
  -- The fields that `hash_table_get_iterator` sets.
  unfoldable pub set_iterator : HashTable K V → HashTableIterator K V
  set_iterator t = record { entry_ = []; table_ = t; next_index = 0 }

  -- `none` is NULL. Where `malloc` succeeds the function sets the fields and ends without a `return`,
  -- so that a caller that uses its value is at fault.
  unfoldable pub hash_table_get_iterator :
      Bool → HashTable K V → Run (Option (HashTableIterator K V))
  hash_table_get_iterator got_iterator t = if got_iterator then fault no_result else ok none

  -- One pass of the `while (1)` up to its last `if`, and whether it broke off.
  unfoldable pub advance : HashTableIterator K V → Run (HashTableIterator K V × Bool)
  advance it = elim it.entry_ [
    | [] ↦ do
      index ← int_result it.next_index
      let past : HashTableIterator K V = record it { next_index = index + 1 }
      let enter : Run (HashTableIterator K V × Bool) = do
        chain ← bucket it.table_ index
        ok (record past { entry_ = chain }, false)
      if leb it.table_.size_ index then ok (past, true) else enter
    | e ∷ rest ↦ ok (record it { entry_ = rest }, false)
  ]

  -- The last `if` of the loop, and the end after a `break`.
  unfoldable pub answer :
      Run (HashTableIterator K V × Option (TableEntry K V))
      → HashTableIterator K V × Bool
      → Run (HashTableIterator K V × Option (TableEntry K V))
  answer again (it, true) = ok (it, none)
  answer again (it, false) = elim it.entry_ [ [] ↦ again | e ∷ rest ↦ ok (it, some e) ]

  unfoldable pub hash_table_next :
      ℕ → HashTableIterator K V → Run (HashTableIterator K V × Option (TableEntry K V))
  hash_table_next zero it = fault out_of_fuel
  hash_table_next (suc fuel) it = do
    r ← advance it
    let again = hash_table_next fuel r.0
    answer again r
