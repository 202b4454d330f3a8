-- ===== src/Hash.antt =====
-- hash_table.c and hash_table.h: a hash table with chains, over functions for its keys.
-- An entry is a record, a chain the list of its entries, and `table_` the list of the chains,
-- with `none` for NULL. Whether a `malloc` of an operation on a table succeeds is an argument of
-- the operation.
pub mod Chain
pub mod Valid
pub mod Del
pub mod Growth
pub mod Insert
pub mod Clear
pub mod Roundtrip
pub mod Trace
pub mod Iterate
pub mod Functions
pub mod Example
mod Tests
use my_little_tool.Prelude.{
  ℕ, ◌+◌, ◌-◌, ◌*◌, ◌^◌, ◌%◌, bit_and, Bool, true, false, ◌||◌, List, [], ◌∷◌, ◌++◌, Option, none,
  some, leb, ◌==◌, if◌then◌else◌, length, replicate, fetch, assign, Run, ok, fault, null_pointer,
  assert_failed, ◌>>=◌, for_up,
}

pub record TableEntry {ℓ} (K V : Type ℓ) : Type ℓ where
  pub key_ : K
  pub val_ : V

-- `none` is a NULL function pointer. `free_key_` and `free_val_` only release memory.
pub record HashTypeFunction {ℓ} (K V : Type ℓ) : Type ℓ where
  pub hash_ : K → ℕ
  pub comp_ : K → K → Bool
  pub key_dump_ : Option (K → K)
  pub value_dump_ : Option (V → V)

pub record HashTable {ℓ} (K V : Type ℓ) : Type ℓ where
  pub table_ : Option (List (List (TableEntry K V)))
  pub size_ : ℕ
  pub use_ : ℕ

-- What a dump function makes of a pointer, or the pointer itself.
abbrev pub dumped {ℓ} : {A : Type ℓ} → Option (A → A) → A → A
dumped none a = a
dumped (some dump) a = dump a

abbrev pub is_null {ℓ} : {A : Type ℓ} → Option A → Bool
is_null none = true
is_null (some a) = false

pub uint32 : ℕ → ℕ
uint32 n = n % 2 ^ 32

module _ {ℓ} {K V : Type ℓ} where
  -- `t->table_[i]`
  unfoldable pub bucket : HashTable K V → ℕ → Run (List (TableEntry K V))
  bucket t i = elim t.table_ [ none ↦ fault null_pointer | some chains ↦ fetch chains i ]

  -- `t->table_[i] = chain`
  unfoldable pub set_bucket : HashTable K V → ℕ → List (TableEntry K V) → Run (HashTable K V)
  set_bucket t i chain = elim t.table_ [
    | none ↦ fault null_pointer
    | some chains ↦ do chains' ← assign chains i chain; ok (record t { table_ = some chains' })
  ]

  -- `none` is NULL. The `assert` that `hash_` and `comp_` are not NULL holds, since they are
  -- functions here.
  unfoldable pub hash_table_construct : Bool → Option (HashTable K V)
  hash_table_construct got_table =
      if got_table then some (record { table_ = none; size_ = 0; use_ = 0 }) else none

  -- `capcity` in `hash_table_growup`: `none` where the table is not due to grow. The quotient of
  -- `double`s is exact, since `size_` is a power of two.
  unfoldable pub new_capcity : HashTable K V → Option ℕ
  unfolding uint32
  new_capcity t =
      if t.size_ == 0
      then some 32
      else if leb (3 * t.size_) (4 * t.use_)
      then some (uint32 (t.size_ * 2))
      else none

  -- The two loops of `hash_table_clear`; the list is of the entries freed, in order.
  pub hash_table_clear : HashTable K V → Run (List (TableEntry K V))
  hash_table_clear t = do
    freed ← for_up t.size_ 0 (λ idx freed. bucket t idx >>= λ chain. ok (freed ++ chain)) []
    if length freed == t.use_ then ok freed else fault assert_failed

module _ {ℓ} {K V : Type ℓ} (f : HashTypeFunction K V) where
  -- `HashSlot(t, key)`, with `t->size_ - 1` in `uint32_t`
  unfoldable pub hash_slot : ℕ → K → ℕ
  hash_slot size key = bit_and (f.hash_ key) ((size + 2 ^ 32 - 1) % 2 ^ 32)

  -- The `while (entry)` of `hash_table_find`.
  unfoldable pub find_entry : K → List (TableEntry K V) → Option (TableEntry K V)
  find_entry key [] = none
  find_entry key (e ∷ es) = if f.comp_ key e.key_ then some e else find_entry key es

  pub hash_table_find : HashTable K V → K → Run (Option (TableEntry K V))
  hash_table_find t key =
      let search : Run (Option (TableEntry K V)) = do
        chain ← bucket t (hash_slot t.size_ key)
        ok (find_entry key chain)
      in if is_null t.table_ || t.size_ == 0 then ok none else search

  -- `HashSetValue` at the entry that `hash_table_find` points to.
  unfoldable pub set_value : K → V → List (TableEntry K V) → List (TableEntry K V)
  set_value key val [] = []
  set_value key val (e ∷ es) =
      if f.comp_ key e.key_
      then record e { val_ = dumped f.value_dump_ val } ∷ es
      else e ∷ set_value key val es

  -- The inner loop of `hash_table_growup`: each entry goes to the head of its new chain.
  unfoldable pub rehash_chain :
      ℕ → List (TableEntry K V) → List (List (TableEntry K V)) → Run (List (List (TableEntry K V)))
  rehash_chain capcity [] new_table = ok new_table
  rehash_chain capcity (e ∷ es) new_table = do
    let hash_key = bit_and (f.hash_ e.key_) ((capcity + 2 ^ 64 - 1) % 2 ^ 64)
    next ← fetch new_table hash_key
    new_table' ← assign new_table hash_key (e ∷ next)
    rehash_chain capcity es new_table'

  -- The rest of `hash_table_growup`, from its first `malloc` on.
  unfoldable pub grow_to : Bool → HashTable K V → Option ℕ → Run (HashTable K V)
  grow_to got_memory t none = ok t
  grow_to got_memory t (some capcity) =
      let rehash : Run (HashTable K V) = do
        new_table ←
            for_up t.size_ 0 (λ idx new. bucket t idx >>= λ chain. rehash_chain capcity chain new)
              (replicate capcity [])
        ok (record t { table_ = some new_table; size_ = uint32 capcity })
      in if got_memory then rehash else ok t

  -- Its argument `size` is not used in the source.
  pub hash_table_growup : Bool → HashTable K V → Run (HashTable K V)
  hash_table_growup got_memory t = grow_to got_memory t (new_capcity t)

  -- The end of `hash_table_insert`: the new entry becomes the head of its chain.
  unfoldable pub link_entry : HashTable K V → K → V → Run (HashTable K V)
  link_entry t key val = do
    let hash_key = hash_slot t.size_ key
    let entry : TableEntry K V = record {
      key_ = dumped f.key_dump_ key;
      val_ = dumped f.value_dump_ val;
    }
    next ← bucket t hash_key
    t' ← set_bucket t hash_key (entry ∷ next)
    ok (record t' { use_ = uint32 (t'.use_ + 1) })

  -- `got_table` and `got_entry` say whether the two `malloc`s succeed.
  pub hash_table_insert : Bool → Bool → HashTable K V → K → V → Run (HashTable K V)
  hash_table_insert got_table got_entry t key val = do
    en ← hash_table_find t key
    let overwrite : Run (HashTable K V) = do
      chain ← bucket t (hash_slot t.size_ key)
      set_bucket t (hash_slot t.size_ key) (set_value key val chain)
    let add : Run (HashTable K V) = do
      t' ← hash_table_growup got_table t
      if got_entry then link_entry t' key val else ok t'
    if is_null en then add else overwrite

  -- The `while (en)` of `hash_table_del`: the entry found, and the chain without it.
  unfoldable pub unlink :
      K → List (TableEntry K V) → Option (TableEntry K V × List (TableEntry K V))
  unlink key [] = none
  unlink key (e ∷ es) =
      let rest : Option (TableEntry K V × List (TableEntry K V)) = elim (unlink key es) [
        | none ↦ none
        | some (en, es') ↦ some (en, e ∷ es')
      ] in
      if f.comp_ e.key_ key then some (e, es) else rest

  -- The rest of `hash_table_del`, at what its loop found in the chain of a slot.
  unfoldable pub remove_found :
      HashTable K V
      → ℕ
      → Option (TableEntry K V × List (TableEntry K V))
      → Run (HashTable K V × Option (TableEntry K V))
  remove_found t hash_key none = ok (t, none)
  remove_found t hash_key (some (en, rest)) = do
    t' ← set_bucket t hash_key rest
    ok (record t' { use_ = uint32 (t'.use_ + 2 ^ 32 - 1) }, some en)

  -- Also the entry whose key, value and memory are freed.
  pub hash_table_del : HashTable K V → K → Run (HashTable K V × Option (TableEntry K V))
  hash_table_del t key = do
    let hash_key = hash_slot t.size_ key
    chain ← bucket t hash_key
    remove_found t hash_key (unlink key chain)
