-- ===== src/Hash/Growth/Moving.antt =====
-- The loops of `hash_table_growup`: every chain moves to the new table.
use my_little_tool.Prelude.{
  ℕ, ◌+◌, ◌-◌, ◌^◌, ◌%◌, ◌≤◌, ◌<◌, ◌≡◌, inl, inr, refl, sym, ap, ◌∙◌, arith, bit_and, true, false,
  Bool-cases, List, [], ◌∷◌, Option, none, some, ◌==◌, ==_iff, if◌then◌else◌, ltb, length, set,
  replicate, length-set, length-replicate, cell, cell-set, cell-replicate, fetch-ok, assign-ok,
  sum_of, sum_of-set, sum_of-replicate, sum_first, sum_first-next, ◌>>=◌, Returns, weaken, for_up,
  for_up_rule,
}
use my_little_tool.Hash.{TableEntry, HashTypeFunction, HashTable, bucket, hash_slot, rehash_chain}
use my_little_tool.Hash.Chain.{
  IsLawful, same_key, times, lookup, lookup_absent, key_cases, same, apart,
}
use my_little_tool.Hash.Valid.{IsFilled, contents, hash_slot-lt, bucket-ok}

abbrev or_else {ℓ} : {A : Type ℓ} → Option A → Option A → Option A
or_else none b = b
or_else (some a) b = some a

or_else-none {ℓ} : {A : Type ℓ} (a : Option A) → or_else a none ≡ a
or_else-none none = refl
or_else-none (some a) = refl

module _ {ℓ} {K V : Type ℓ} (f : HashTypeFunction K V) (law : IsLawful f) where
  -- A new table under way: `n` entries, at most `w x` with the key `x`, and the values `look`.
  pub record IsPartial (size : ℕ) (w : K → ℕ) (n : ℕ) (look : K → Option V)
      (chains : List (List (TableEntry K V))) : Type ℓ where
    pub slots : length chains ≡ size
    pub placed : (i : ℕ) (x : K) → 0 < times f x (cell [] chains i) → hash_slot f size x ≡ i
    pub bounded : (i : ℕ) (x : K) → times f x (cell [] chains i) ≤ w x
    pub counted : sum_of length chains ≡ n
    pub looks : (x : K) → lookup f x (cell [] chains (hash_slot f size x)) ≡ look x

  IsPartial-map :
      {size : ℕ} {w w' : K → ℕ} {n n' : ℕ} {look look' : K → Option V}
      {chains : List (List (TableEntry K V))}
      → ((x : K) → w x ≤ w' x)
      → n ≡ n'
      → ((x : K) → look x ≡ look' x)
      → IsPartial size w n look chains
      → IsPartial size w' n' look' chains
  IsPartial-map h e l p = record {
    slots = p.slots;
    placed = p.placed;
    bounded = λ i x. omega (arith, p.bounded i x, h x);
    counted = p.counted ∙ e;
    looks = λ x. p.looks x ∙ l x;
  }

  -- One entry more, at the head of its chain.
  push_entry :
      (size : ℕ) (w : K → ℕ) (n : ℕ) (look : K → Option V) (chains : List (List (TableEntry K V)))
      (e : TableEntry K V) (i : ℕ)
      → hash_slot f size e.key_ ≡ i
      → i < size
      → IsPartial size w n look chains
      → IsPartial size
          (λ x. w x + same_key f x e.key_)
          (n + 1)
          (λ x. if f.comp_ x e.key_ then some e.val_ else look x)
          (set chains i (e ∷ cell [] chains i))
  unfolding times same_key lookup
  push_entry size w n look chains e i slot low p =
      let here : i < length chains = omega (arith, p.slots) in
      let c = e ∷ cell [] chains i in
      record {
        slots = length-set chains i c ∙ p.slots;
        placed = λ j x. rw (cell-set [] chains i j c here) (elim (Bool-cases (i == j)) [
          | inl y ↦ rw y (elim (key_cases f law x e.key_) [
            | same u z eq ↦ λ m. ap (hash_slot f size) eq ∙ (slot ∙ (==_iff i j).0 y)
            | apart u z ne ↦ rw u (λ m. p.placed i x (omega arith) ∙ (==_iff i j).0 y)
          ])
          | inr m ↦ rw m (p.placed j x)
        ]);
        bounded = λ j x. rw (cell-set [] chains i j c here) (elim (Bool-cases (i == j)) [
          | inl y ↦ rw y (omega (arith, p.bounded i x))
          | inr m ↦ rw m (omega (arith, p.bounded j x))
        ]);
        counted = omega (arith, sum_of-set length [] chains i c here, p.counted);
        looks = λ x.
            rw (cell-set [] chains i (hash_slot f size x) c here) (elim (key_cases f law x e.key_) [
              | same u z eq ↦
                  rw ((==_iff i (hash_slot f size x)).1 (sym (ap (hash_slot f size) eq ∙ slot)), u)
                    refl
              | apart u z ne ↦ rw u (elim (Bool-cases (i == hash_slot f size x)) [
                | inl y ↦
                    rw (y, u)
                      (ap (λ m. lookup f x (cell [] chains m)) ((==_iff i (hash_slot f size x)).0 y)
                        ∙ p.looks x)
                | inr m ↦ rw m (p.looks x)
              ])
            ]);
      }

  -- `rehash_chain` adds all entries of a chain whose keys are distinct.
  rehash_chain_lem :
      (size : ℕ) (es : List (TableEntry K V)) (w : K → ℕ) (n : ℕ) (look : K → Option V)
      (chains : List (List (TableEntry K V)))
      → 0 < size
      → size < 2 ^ 32
      → ((x : K) → times f x es ≤ 1)
      → IsPartial size w n look chains
      → Returns (rehash_chain f size es chains) (
          IsPartial size
            (λ x. w x + times f x es)
            (n + length es)
            (λ x. or_else (lookup f x es) (look x)))
  unfolding rehash_chain times lookup hash_slot same_key
  rehash_chain_lem size [] w n look chains h u once p =
      (chains, refl, IsPartial-map (λ x. omega arith) (omega arith) (λ x. refl) p)
  rehash_chain_lem size (e ∷ es) w n look chains h u once p =
      let i = bit_and (f.hash_ e.key_) ((size + 2 ^ 64 - 1) % 2 ^ 64) in
      let slot : hash_slot f size e.key_ ≡ i = ap (bit_and (f.hash_ e.key_)) (omega arith) in
      let low : i < size = omega (arith, slot, hash_slot-lt f size e.key_ h u) in
      let here : i < length chains = omega (arith, p.slots) in
      rw (fetch-ok [] chains i here, assign-ok chains i (e ∷ cell [] chains i) here)
        (weaken _
          (rehash_chain_lem size es _ _ _ _ h u (λ x. omega (arith, once x))
            (push_entry size w n look chains e i slot low p))
          (λ r.
            IsPartial-map (λ x. omega arith) (omega arith)
              (λ x. elim (Bool-cases (f.comp_ x e.key_)) [
                | inl y ↦ rw (y, lookup_absent f x es (ground (arith, once x))) refl
                | inr m ↦ rw m refl
              ])))

  -- After the chains below `idx`.
  abbrev pub Moved :
      HashTable K V → List (List (TableEntry K V)) → ℕ → ℕ → List (List (TableEntry K V)) → Type ℓ
  Moved t chains capcity idx =
      IsPartial capcity (λ x. if ltb (hash_slot f t.size_ x) idx then 1 else 0)
        (sum_first length idx chains)
        (λ x. if ltb (hash_slot f t.size_ x) idx then contents f t x else none)

  looks_after :
      (t : HashTable K V) (chains : List (List (TableEntry K V))) (idx : ℕ) (x : K)
      → t.table_ ≡ some chains
      → IsFilled f t.size_ t.use_ chains
      → or_else
          (lookup f x (cell [] chains idx))
          (if ltb (hash_slot f t.size_ x) idx then contents f t x else none)
        ≡ (if ltb (hash_slot f t.size_ x) (idx + 1) then contents f t x else none)
  unfolding contents
  looks_after t chains idx x e v =
      let s = hash_slot f t.size_ x in
      let c = cell [] chains idx in
      elim (Bool-cases (s == idx)) [
        | inl y ↦
            let eq : s ≡ idx = (==_iff _ _).0 y in
            let no : ltb s idx ≡ false = ground arith in
            let yes : ltb s (idx + 1) ≡ true = ground arith in
            let found : contents f t x ≡ lookup f x c =
              rw e (ap (λ m. lookup f x (cell [] chains m)) eq) in
            rw (no, yes) (or_else-none (lookup f x c) ∙ sym found)
        | inr m ↦
            let absent : lookup f x c ≡ none =
              lookup_absent f x c (ground (arith, v.placed idx x)) in
            let as_before : ltb s (idx + 1) ≡ ltb s idx = ground arith in
            rw (absent, as_before) refl
      ]

  move_one :
      (t : HashTable K V) (chains new : List (List (TableEntry K V))) (capcity idx : ℕ)
      → t.table_ ≡ some chains
      → IsFilled f t.size_ t.use_ chains
      → 0 < capcity
      → capcity < 2 ^ 32
      → idx < t.size_
      → Moved t chains capcity idx new
      → Returns
          (bucket t idx >>= λ chain. rehash_chain f capcity chain new)
          (Moved t chains capcity (idx + 1))
  unfolding contents
  move_one t chains new capcity idx e v h u low p =
      let here : idx < length chains = omega (arith, v.slots) in
      let c = cell [] chains idx in
      rw (bucket-ok f t chains idx e here) (
        weaken _ (rehash_chain_lem capcity c _ _ _ new h u (v.distinct idx) p) (λ r.
          IsPartial-map (λ x. ground (arith, v.placed idx x, v.distinct idx x))
            (sym (sum_first-next length [] idx chains here)) (λ x. looks_after t chains idx x e v)))

  start :
      (t : HashTable K V) (chains : List (List (TableEntry K V))) (capcity : ℕ)
      → Moved t chains capcity 0 (replicate capcity [])
  unfolding times lookup sum_first
  start t chains capcity = record {
    slots = length-replicate capcity [];
    placed = λ i x.
        rw (cell-replicate {A = List (TableEntry K V)} [] capcity i) (λ n. absurd (omega arith));
    bounded = λ i x. rw (cell-replicate {A = List (TableEntry K V)} [] capcity i) (omega arith);
    counted = sum_of-replicate length capcity [] refl;
    looks = λ x.
        rw (cell-replicate {A = List (TableEntry K V)} [] capcity (hash_slot f capcity x))
          (ground arith);
  }

  -- All chains of a table moved to a new one of `capcity` slots.
  pub move_all :
      (t : HashTable K V) (chains : List (List (TableEntry K V))) (capcity : ℕ)
      → t.table_ ≡ some chains
      → IsFilled f t.size_ t.use_ chains
      → 0 < capcity
      → capcity < 2 ^ 32
      → Returns
          (for_up t.size_ 0
            (λ idx new. bucket t idx >>= λ chain. rehash_chain f capcity chain new)
            (replicate capcity []))
          (Moved t chains capcity t.size_)
  move_all t chains capcity e v h u =
      for_up_rule (Moved t chains capcity) _ t.size_ 0 t.size_ (replicate capcity []) (omega arith)
        (λ idx new l low p. move_one t chains new capcity idx e v h u low p)
        (start t chains capcity)
