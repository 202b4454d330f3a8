-- ===== src/Hash/Roundtrip.antt =====
-- What `hash_table_find` answers after an insertion and after a deletion.
use my_little_tool.Prelude.{
  ◌*◌, ◌^◌, ◌<◌, ◌≡◌, refl, sym, ap, ◌∙◌, true, none, some, if◌then◌else◌, ◌>>=◌, Returns,
  bind_rule, weaken,
}
use my_little_tool.Hash.{
  HashTypeFunction, HashTable, dumped, hash_table_find, hash_table_insert, hash_table_del,
}
use my_little_tool.Hash.Chain.{IsLawful, value_of, key_cases, same, apart}
use my_little_tool.Hash.Valid.{IsValid, contents, hash_table_find-contents}
use my_little_tool.Hash.Insert.{hash_table_insert-IsInserted}
use my_little_tool.Hash.Del.{hash_table_del-IsDeleted}

module _ {ℓ} {K V : Type ℓ} (f : HashTypeFunction K V) (law : IsLawful f) where
  -- On a well-formed table of fewer than 3 * 2^29 entries, with memory granted: a search after an
  -- insertion ends without a fault, and finds the inserted (dumped) value if the keys are equal,
  -- else what the table gave to the key before.
  pub insert-find :
      (t : HashTable K V) (k x : K) (v : V)
      → IsValid f t
      → t.use_ < 3 * 2 ^ 29
      → Returns (hash_table_insert f true true t k v >>= λ r. hash_table_find f r x) (λ o.
        value_of f o ≡ (if f.comp_ k x then some (dumped f.value_dump_ v) else contents f t x))
  insert-find t k x v valid room =
      bind_rule _ _ (hash_table_insert-IsInserted f law t k v valid room) λ r i.
        weaken _ (hash_table_find-contents f r x i.valid) λ o found. elim (key_cases f law k x) [
          | same y z eq ↦ found ∙ (ap (contents f r) (sym eq) ∙ (i.stored ∙ rw y refl))
          | apart y z ne ↦ found ∙ (i.others x ne ∙ rw y refl)
        ]

  -- On a well-formed table with chains, a search after a deletion ends without a fault, and finds
  -- nothing if the keys are equal, else what the table gave to the key before.
  pub del-find :
      (t : HashTable K V) (k x : K)
      → IsValid f t
      → 0 < t.size_
      → Returns
          (hash_table_del f t k >>= λ r. hash_table_find f r.0 x)
          (λ o. value_of f o ≡ (if f.comp_ k x then none else contents f t x))
  del-find t k x valid some_slots =
      bind_rule _ _ (hash_table_del-IsDeleted f law t k valid some_slots) λ r d.
        weaken _ (hash_table_find-contents f r.0 x d.valid) λ o found. elim (key_cases f law k x) [
          | same y z eq ↦ found ∙ (ap (contents f r.0) (sym eq) ∙ (d.gone ∙ rw y refl))
          | apart y z ne ↦ found ∙ (d.others x ne ∙ rw y refl)
        ]
