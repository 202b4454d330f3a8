-- ===== src/Hash/Chain.antt =====
-- What the walks along one chain do: `find_entry`, `set_value` and `unlink`, against `lookup`.
use my_little_tool.Prelude.{
  ℕ, suc, ◌+◌, ◌≡◌, ◌≢◌, ◌↔◌, inl, inr, refl, sym, ap, ◌∙◌, arith, true, false, Bool-cases, List,
  [], ◌∷◌, Option, none, some, if◌then◌else◌, length,
}
use my_little_tool.Hash.{TableEntry, HashTypeFunction, dumped, find_entry, set_value, unlink}

-- What the table relies on: `comp_` decides equality of keys, and a copied key is equal.
pub record IsLawful {ℓ} {K V : Type ℓ} (f : HashTypeFunction K V) : Type ℓ where
  pub compares : (x y : K) → (f.comp_ x y ≡ true) ↔ (x ≡ y)
  pub copies : (x : K) → dumped f.key_dump_ x ≡ x

module _ {ℓ} {K V : Type ℓ} (f : HashTypeFunction K V) where
  -- 1 if the keys are equal, else 0
  unfoldable pub same_key : K → K → ℕ
  same_key x y = if f.comp_ x y then 1 else 0

  -- How many entries have the key.
  unfoldable pub times : K → List (TableEntry K V) → ℕ
  times k [] = 0
  times k (e ∷ es) = same_key k e.key_ + times k es

  -- The value that a chain gives to a key.
  unfoldable pub lookup : K → List (TableEntry K V) → Option V
  lookup k [] = none
  lookup k (e ∷ es) = if f.comp_ k e.key_ then some e.val_ else lookup k es

  abbrev pub value_of : Option (TableEntry K V) → Option V
  value_of none = none
  value_of (some e) = some e.val_

  pub find_entry-lookup :
      (k : K) (es : List (TableEntry K V)) → value_of (find_entry f k es) ≡ lookup k es
  unfolding find_entry lookup
  find_entry-lookup k [] = refl
  find_entry-lookup k (e ∷ es) = elim (Bool-cases (f.comp_ k e.key_)) [
    | inl y ↦ rw y refl
    | inr n ↦ rw n (find_entry-lookup k es)
  ]

  pub find_entry-none :
      (k : K) (es : List (TableEntry K V)) → find_entry f k es ≡ none → times k es ≡ 0
  unfolding find_entry times same_key
  find_entry-none k [] h = refl
  find_entry-none k (e ∷ es) h = elim (Bool-cases (f.comp_ k e.key_)) [
    | inl y ↦ ground arith
    | inr n ↦ ground (arith, find_entry-none k es (ground arith))
  ]

  pub lookup_absent : (k : K) (es : List (TableEntry K V)) → times k es ≡ 0 → lookup k es ≡ none
  unfolding lookup times same_key
  lookup_absent k [] h = refl
  lookup_absent k (e ∷ es) h = elim (Bool-cases (f.comp_ k e.key_)) [
    | inl y ↦ absurd (ground arith)
    | inr n ↦ rw n (lookup_absent k es (ground arith))
  ]

  pub lookup-none : (k : K) (es : List (TableEntry K V)) → lookup k es ≡ none → times k es ≡ 0
  unfolding lookup times same_key
  lookup-none k [] h = refl
  lookup-none k (e ∷ es) h = elim (Bool-cases (f.comp_ k e.key_)) [
    | inl y ↦ ground arith
    | inr n ↦ ground (arith, lookup-none k es (ground arith))
  ]

  module _ (law : IsLawful f) where
    pub data Keys (x y : K) : Type ℓ where
      same : f.comp_ x y ≡ true → f.comp_ y x ≡ true → x ≡ y → Keys x y
      apart : f.comp_ x y ≡ false → f.comp_ y x ≡ false → x ≢ y → Keys x y

    pub key_cases : (x y : K) → Keys x y
    key_cases x y = elim (Bool-cases (f.comp_ x y)) [
      | inl e ↦ let eq = (law.compares x y).0 e in same e ((law.compares y x).1 (sym eq)) eq
      | inr n ↦ elim (Bool-cases (f.comp_ y x)) [
        | inl e ↦ absurd (ground (arith, (law.compares x y).1 (sym ((law.compares y x).0 e))))
        | inr m ↦ apart n m (λ eq. ground (arith, (law.compares x y).1 eq))
      ]
    ]

    pub times-set_value :
        (k x : K) (v : V) (es : List (TableEntry K V)) → times x (set_value f k v es) ≡ times x es
    unfolding times set_value
    times-set_value k x v [] = refl
    times-set_value k x v (e ∷ es) = elim (Bool-cases (f.comp_ k e.key_)) [
      | inl y ↦ rw y refl
      | inr n ↦ rw n (omega (arith, times-set_value k x v es))
    ]

    pub length-set_value :
        (k : K) (v : V) (es : List (TableEntry K V)) → length (set_value f k v es) ≡ length es
    unfolding set_value
    length-set_value k v [] = refl
    length-set_value k v (e ∷ es) = elim (Bool-cases (f.comp_ k e.key_)) [
      | inl y ↦ rw y refl
      | inr n ↦ rw n (ap suc (length-set_value k v es))
    ]

    pub lookup-set_value :
        (k : K) (v : V) (e : TableEntry K V) (es : List (TableEntry K V))
        → find_entry f k es ≡ some e
        → lookup k (set_value f k v es) ≡ some (dumped f.value_dump_ v)
    unfolding find_entry lookup set_value
    lookup-set_value k v d [] h = ground arith
    lookup-set_value k v d (e ∷ es) h = elim (Bool-cases (f.comp_ k e.key_)) [
      | inl y ↦ rw (y, y) refl
      | inr n ↦ rw (n, n) (lookup-set_value k v d es (ground arith))
    ]

    pub lookup-set_value_other :
        (k x : K) (v : V) (es : List (TableEntry K V))
        → k ≢ x
        → lookup x (set_value f k v es) ≡ lookup x es
    unfolding lookup set_value
    lookup-set_value_other k x v [] ne = refl
    lookup-set_value_other k x v (e ∷ es) ne = elim (key_cases k e.key_) [
      | same y z eq ↦ elim (key_cases x e.key_) [
        | same u w eq' ↦ absurd (ne (eq ∙ sym eq'))
        | apart u w ne' ↦ rw (y, u) refl
      ]
      | apart y z ne' ↦ rw y (
          ap (λ r. if f.comp_ x e.key_ then some e.val_ else r)
            (lookup-set_value_other k x v es ne))
    ]

    -- `unlink` took the entry `en` of the key `k` out of `es`.
    pub record IsUnlinked (k : K) (es : List (TableEntry K V)) (en : TableEntry K V)
        (rest : List (TableEntry K V)) : Type ℓ where
      pub shorter : length rest + 1 ≡ length es
      pub key : en.key_ ≡ k
      pub value : lookup k es ≡ some en.val_
      pub others : (x : K) → k ≢ x → lookup x rest ≡ lookup x es
      pub fewer : (x : K) → times x rest + same_key x k ≡ times x es

    -- Either no entry has the key, or `unlink` takes out the first one that has.
    pub data Unlinking (k : K) (es : List (TableEntry K V)) : Type ℓ where
      missing : unlink f k es ≡ none → times k es ≡ 0 → Unlinking k es
      taken :
          (en : TableEntry K V) (rest : List (TableEntry K V))
          → unlink f k es ≡ some (en, rest)
          → IsUnlinked k es en rest
          → Unlinking k es

    unlink_head :
        (k : K) (e : TableEntry K V) (es : List (TableEntry K V))
        → f.comp_ k e.key_ ≡ true
        → k ≡ e.key_
        → IsUnlinked k (e ∷ es) e es
    unfolding times same_key lookup
    unlink_head k e es y eq = record {
      shorter = omega arith;
      key = sym eq;
      value = rw y refl;
      others = λ x ne. elim (key_cases x e.key_) [
        | same u w eq' ↦ absurd (ne (eq ∙ sym eq'))
        | apart u w ne' ↦ rw u refl
      ];
      fewer = λ x. omega (arith, ap (same_key x) eq);
    }

    unlink_tail :
        (k : K) (e en : TableEntry K V) (es rest : List (TableEntry K V))
        → f.comp_ k e.key_ ≡ false
        → IsUnlinked k es en rest
        → IsUnlinked k (e ∷ es) en (e ∷ rest)
    unfolding times same_key lookup
    unlink_tail k e en es rest y u = record {
      shorter = omega (arith, u.shorter);
      key = u.key;
      value = rw y u.value;
      others = λ x ne. ap (λ r. if f.comp_ x e.key_ then some e.val_ else r) (u.others x ne);
      fewer = λ x. omega (arith, u.fewer x);
    }

    pub unlink_cases : (k : K) (es : List (TableEntry K V)) → Unlinking k es
    unfolding unlink times same_key
    unlink_cases k [] = missing refl refl
    unlink_cases k (e ∷ es) = elim (key_cases k e.key_) [
      | same y z eq ↦ taken e es (rw z refl) (unlink_head k e es y eq)
      | apart y z ne ↦ elim (unlink_cases k es) [
        | missing gone none_left ↦ missing (rw (z, gone) refl) (ground arith)
        | taken en rest found u ↦
            taken en (e ∷ rest) (rw (z, found) refl) (unlink_tail k e en es rest y u)
      ]
    ]
