-- ===== src/Hash/Valid.antt =====
-- When a hash table is well formed, the map it stands for, and `hash_table_find`.
use my_little_tool.Prelude.{
  ℕ, ◌+◌, ◌-◌, ◌*◌, ◌^◌, ◌%◌, ◌≤◌, ◌<◌, ◌≡◌, inl, inr, refl, ap, ◌∙◌, arith, bit_and_le, Bool-cases,
  false, List, [], Option, none, some, ◌==◌, ==_iff, length, set, length-set, cell, fetch-ok,
  assign-ok, cell-set, sum_of, sum_of-set, ok, Returns,
}
use my_little_tool.Hash.{
  TableEntry, HashTypeFunction, HashTable, bucket, set_bucket, hash_slot, find_entry,
  hash_table_find,
}
use my_little_tool.Hash.Chain.{times, lookup, value_of, find_entry-lookup}

module _ {ℓ} {K V : Type ℓ} (f : HashTypeFunction K V) where
  abbrev pub Chains : Type ℓ
  Chains = List (List (TableEntry K V))

  -- A table with chains: every key stands in the chain of its slot, once, and `use_` counts the
  -- entries.
  pub record IsFilled (size count : ℕ) (chains : Chains) : Type ℓ where
    pub some_slots : 0 < size
    pub size_fits : size < 2 ^ 32
    pub power : (k : ℕ) × (size ≡ 32 * 2 ^ k)
    pub slots : length chains ≡ size
    pub placed : (i : ℕ) (x : K) → 0 < times f x (cell [] chains i) → hash_slot f size x ≡ i
    pub distinct : (i : ℕ) (x : K) → times f x (cell [] chains i) ≤ 1
    pub counted : sum_of length chains ≡ count
    pub use_fits : count < 2 ^ 32

  -- A well-formed table: as constructed, or with chains.
  pub data IsValid (t : HashTable K V) : Type ℓ where
    fresh : t.table_ ≡ none → t.size_ ≡ 0 → t.use_ ≡ 0 → IsValid t
    filled : (chains : Chains) → t.table_ ≡ some chains → IsFilled t.size_ t.use_ chains → IsValid t

  -- The map that a table stands for: the value of each key, if it has one.
  unfoldable pub contents : HashTable K V → K → Option V
  contents t x = elim t.table_ [
    | none ↦ none
    | some chains ↦ lookup f x (cell [] chains (hash_slot f t.size_ x))
  ]

  pub hash_slot-lt : (size : ℕ) (x : K) → 0 < size → size < 2 ^ 32 → hash_slot f size x < size
  unfolding hash_slot
  hash_slot-lt size x h u = omega (arith, bit_and_le (f.hash_ x) ((size + 2 ^ 32 - 1) % 2 ^ 32))

  pub bucket-ok :
      (t : HashTable K V) (chains : Chains) (i : ℕ)
      → t.table_ ≡ some chains
      → i < length chains
      → bucket t i ≡ ok (cell [] chains i)
  unfolding bucket
  bucket-ok t chains i e h = rw e (fetch-ok [] chains i h)

  pub set_bucket-ok :
      (t : HashTable K V) (chains : Chains) (i : ℕ) (c : List (TableEntry K V))
      → t.table_ ≡ some chains
      → i < length chains
      → set_bucket t i c ≡ ok (record t { table_ = some (set chains i c) })
  unfolding set_bucket
  set_bucket-ok t chains i c e h = rw (e, assign-ok chains i c h) refl

  -- A chain may be replaced by one whose keys belong to its slot and are distinct.
  pub IsFilled-set :
      (size count count' i : ℕ) (chains : Chains) (c : List (TableEntry K V))
      → i < size
      → ((x : K) → 0 < times f x c → hash_slot f size x ≡ i)
      → ((x : K) → times f x c ≤ 1)
      → count' + length (cell [] chains i) ≡ count + length c
      → count' < 2 ^ 32
      → IsFilled size count chains
      → IsFilled size count' (set chains i c)
  IsFilled-set size count count' i chains c h own once sum fits v =
      let here : i < length chains = omega (arith, v.slots) in
      record {
        some_slots = v.some_slots;
        size_fits = v.size_fits;
        power = v.power;
        slots = length-set chains i c ∙ v.slots;
        placed = λ j x. rw (cell-set [] chains i j c here) (elim (Bool-cases (i == j)) [
          | inl y ↦ rw y (λ n. own x n ∙ (==_iff i j).0 y)
          | inr n ↦ rw n (v.placed j x)
        ]);
        distinct = λ j x.
            rw (cell-set [] chains i j c here) (elim (Bool-cases (i == j)) [
              | inl y ↦ rw y (once x)
              | inr n ↦ rw n (v.distinct j x)
            ]);
        counted = omega (arith, sum_of-set length [] chains i c here, v.counted);
        use_fits = fits;
      }

  -- A new chain that gives a key the value the old one gave leaves the key's value as it was.
  pub lookup_replaced :
      (chains : Chains) (i j : ℕ) (c : List (TableEntry K V)) (x : K)
      → i < length chains
      → lookup f x c ≡ lookup f x (cell [] chains i)
      → lookup f x (cell [] (set chains i c) j) ≡ lookup f x (cell [] chains j)
  lookup_replaced chains i j c x h e = rw (cell-set [] chains i j c h) (elim (Bool-cases (i == j)) [
    | inl y ↦ rw y (e ∙ ap (λ m. lookup f x (cell [] chains m)) ((==_iff i j).0 y))
    | inr n ↦ rw n refl
  ])

  pub find-filled :
      (t : HashTable K V) (chains : Chains) (x : K)
      → t.table_ ≡ some chains
      → IsFilled t.size_ t.use_ chains
      → hash_table_find f t x ≡ ok (find_entry f x (cell [] chains (hash_slot f t.size_ x)))
  unfolding hash_table_find
  find-filled t chains x e v =
      let some_slots : (t.size_ == 0) ≡ false = ground (arith, v.some_slots) in
      let here : hash_slot f t.size_ x < length chains =
        omega (arith, v.slots, hash_slot-lt t.size_ x v.some_slots v.size_fits) in
      rw (some_slots, bucket-ok t chains (hash_slot f t.size_ x) e here) (rw e refl)

  pub find-fresh : (t : HashTable K V) (x : K) → t.table_ ≡ none → hash_table_find f t x ≡ ok none
  unfolding hash_table_find
  find-fresh t x e = rw e refl

  -- `hash_table_find` on a well-formed table ends without a fault and returns the entry of the
  -- key, if the key is present: its value is the one that the table's map gives to the key.
  pub hash_table_find-contents :
      (t : HashTable K V) (x : K)
      → IsValid t
      → Returns (hash_table_find f t x) λ o. value_of f o ≡ contents t x
  unfolding contents
  hash_table_find-contents t x (fresh e s u) = (none, find-fresh t x e, rw e refl)
  hash_table_find-contents t x (filled chains e v) = (
    _,
    find-filled t chains x e v,
    rw e (find_entry-lookup f x (cell [] chains (hash_slot f t.size_ x))),
  )
