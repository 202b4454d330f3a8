-- ===== src/Hash/Iterate/Visit.antt =====
-- What the iterator of hash_table.c visits: every entry, once.
use my_little_tool.Prelude.{
  ℕ, zero, suc, ◌+◌, ◌^◌, ◌≤◌, ◌<◌, ◌≡◌, refl, sym, ap, ◌∙◌, subst, arith, Bool-cases, ◌⊎◌, inl,
  inr, List, [], ◌∷◌, ◌++◌, Option, none, some, leb, leb→le, leb→gt, length, cell, int_result-ok,
  Run, ok, fault, out_of_fuel, ◌>>=◌, Returns, bind_rule, weaken, sum_of, length-append,
}
use my_little_tool.Hash.{TableEntry, HashTypeFunction, HashTable}
use my_little_tool.Hash.Chain.{times}
use my_little_tool.Hash.Valid.{IsValid, fresh, filled, contents, bucket-ok}
use my_little_tool.Hash.Clear.{IsFreed, times-append, times_filled}
use my_little_tool.Hash.Iterate.{HashTableIterator, set_iterator, advance, answer, hash_table_next}

module _ {ℓ} {K V : Type ℓ} where
  -- The entries of the chains from an index on.
  unfoldable pub entries_from : ℕ → List (List (TableEntry K V)) → List (TableEntry K V)
  entries_from i [] = []
  entries_from zero (c ∷ chains) = c ++ entries_from zero chains
  entries_from (suc i) (c ∷ chains) = entries_from i chains

  entries_from-cell :
      (i : ℕ) (chains : List (List (TableEntry K V)))
      → i < length chains
      → entries_from i chains ≡ cell [] chains i ++ entries_from (i + 1) chains
  unfolding entries_from cell
  entries_from-cell i [] h = absurd (omega arith)
  entries_from-cell zero (c ∷ chains) h = refl
  entries_from-cell (suc i) (c ∷ chains) h =
      let e' : suc i + 1 ≡ suc (i + 1) = omega arith in
      entries_from-cell i chains (omega arith)
      ∙ ap (λ n. cell [] chains i ++ entries_from n (c ∷ chains)) (sym e')

  entries_from-end :
      (i : ℕ) (chains : List (List (TableEntry K V)))
      → length chains ≤ i
      → entries_from i chains ≡ []
  unfolding entries_from
  entries_from-end i [] h = refl
  entries_from-end zero (c ∷ chains) h = absurd (omega arith)
  entries_from-end (suc i) (c ∷ chains) h = entries_from-end i chains (omega arith)

  abbrev after_current : List (TableEntry K V) → List (TableEntry K V)
  after_current [] = []
  after_current (e ∷ rest) = rest

  -- What an iterator still has to return.
  unfoldable pub pending :
      List (List (TableEntry K V)) → HashTableIterator K V → List (TableEntry K V)
  pending chains it = after_current it.entry_ ++ entries_from it.next_index chains

  -- An entry that was returned, before those of the calls to come.
  unfoldable pub prepend :
      Run (List (TableEntry K V)) → Option (TableEntry K V) → Run (List (TableEntry K V))
  prepend others none = ok []
  prepend others (some e) = others >>= λ es. ok (e ∷ es)

  -- A loop that calls `hash_table_next` until it returns NULL, with the entries it has seen.
  unfoldable pub visit : ℕ → ℕ → HashTableIterator K V → Run (List (TableEntry K V))
  visit zero fuel it = fault out_of_fuel
  visit (suc n) fuel it = do
    r ← hash_table_next fuel it
    let others = visit n fuel r.0
    prepend others r.1

  List-cases :
      (es : List (TableEntry K V))
      → (es ≡ []) ⊎ ((e : TableEntry K V) × (rest : List (TableEntry K V)) × (es ≡ e ∷ rest))
  List-cases [] = inl refl
  List-cases (e ∷ rest) = inr (e, rest, refl)

  -- A call returns the first of the entries still to come, and NULL only if there is none.
  pub data IsNext (t : HashTable K V) (chains : List (List (TableEntry K V)))
      (left : List (TableEntry K V)) (r : HashTableIterator K V × Option (TableEntry K V))
      : Type ℓ where
    ended : left ≡ [] → r.1 ≡ none → IsNext t chains left r
    found :
        (e : TableEntry K V) (rest : List (TableEntry K V))
        → left ≡ e ∷ rest
        → r.1 ≡ some e
        → pending chains r.0 ≡ rest
        → r.0.table_ ≡ t
        → r.0.next_index ≤ t.size_
        → IsNext t chains left r

module _ {ℓ} {K V : Type ℓ} (f : HashTypeFunction K V) (t : HashTable K V)
    (chains : List (List (TableEntry K V))) (e : t.table_ ≡ some chains)
    (slots : length chains ≡ t.size_) (fits : t.size_ < 2 ^ 31) where
  IsNext-null :
      (fuel i : ℕ)
      → i ≤ t.size_
      → t.size_ < i + fuel
      → Returns
          (hash_table_next fuel (record { entry_ = []; table_ = t; next_index = i }))
          (IsNext t chains (entries_from i chains))
  unfolding hash_table_next advance answer pending
  IsNext-null zero i h u = absurd (omega arith)
  IsNext-null (suc fuel) i h u =
      rw (int_result-ok i (omega arith)) (elim (Bool-cases (leb t.size_ i)) [
        | inl past ↦ (
          (record { entry_ = []; table_ = t; next_index = i + 1 }, none),
          rw past refl,
          ended (entries_from-end i chains (omega (arith, leb→le _ _ past))) refl,
        )
        | inr more ↦
            let here : i < length chains = omega (arith, leb→gt _ _ more) in
            let c = cell [] chains i in
            let split = entries_from-cell i chains here in
            elim (List-cases c) [
              | inl none_here ↦
                  let same : entries_from (i + 1) chains ≡ entries_from i chains =
                    sym (split ∙ ap (λ d. d ++ entries_from (i + 1) chains) none_here) in
                  rw (more, bucket-ok f t chains i e here, none_here)
                    (subst
                      (λ left.
                        Returns
                          (hash_table_next fuel
                            (record { entry_ = []; table_ = t; next_index = i + 1 }))
                          (IsNext t chains left))
                      same (IsNext-null fuel (i + 1) (omega arith) (omega arith)))
              | inr (x, rest, some_here) ↦ (
                (record { entry_ = x ∷ rest; table_ = t; next_index = i + 1 }, some x),
                rw (more, bucket-ok f t chains i e here, some_here) refl,
                found x (rest ++ entries_from (i + 1) chains)
                    (split ∙ ap (λ d. d ++ entries_from (i + 1) chains) some_here) refl refl refl
                    (omega arith),
              )
            ]
      ])

  IsNext-entry :
      (fuel i : ℕ) (es : List (TableEntry K V))
      → i ≤ t.size_
      → t.size_ + 1 < i + fuel
      → Returns
          (hash_table_next fuel (record { entry_ = es; table_ = t; next_index = i }))
          (IsNext t chains (pending chains (record { entry_ = es; table_ = t; next_index = i })))
  unfolding hash_table_next advance answer pending
  IsNext-entry zero i es h u = absurd (omega arith)
  IsNext-entry (suc fuel) i [] h u = IsNext-null (suc fuel) i h (omega arith)
  IsNext-entry (suc fuel) i (x ∷ []) h u = IsNext-null fuel i h (omega arith)
  IsNext-entry (suc fuel) i (x ∷ y ∷ ys) h u = (
    (record { entry_ = y ∷ ys; table_ = t; next_index = i }, some y),
    refl,
    found y (ys ++ entries_from i chains) refl refl refl refl h,
  )

  -- For an iterator over a table with chains and fewer than 2^31 slots, that has not run past the
  -- last slot: `hash_table_next` ends without a fault. It returns the first of the entries still
  -- to come and leaves the others to come, or NULL if there is none.
  pub hash_table_next-IsNext :
      (fuel : ℕ) (it : HashTableIterator K V)
      → it.table_ ≡ t
      → it.next_index ≤ t.size_
      → t.size_ + 1 < it.next_index + fuel
      → Returns (hash_table_next fuel it) (IsNext t chains (pending chains it))
  unfolding pending
  hash_table_next-IsNext fuel it same h u =
      subst
        (λ s.
          Returns
            (hash_table_next fuel
              (record { entry_ = it.entry_; table_ = s; next_index = it.next_index }))
            (IsNext t chains (pending chains it)))
        (sym same) (IsNext-entry fuel it.next_index it.entry_ h u)

  visit_lem :
      (n fuel : ℕ) (it : HashTableIterator K V)
      → it.table_ ≡ t
      → it.next_index ≤ t.size_
      → t.size_ + 1 < fuel
      → length (pending chains it) < n
      → Returns (visit n fuel it) λ es. es ≡ pending chains it
  unfolding visit prepend
  visit_lem zero fuel it same h u room = absurd (omega arith)
  visit_lem (suc n) fuel it same h u room =
      bind_rule _ _ (hash_table_next-IsNext fuel it same h (omega arith)) λ r next. elim next [
        | ended done null ↦ ([], rw null refl, sym done)
        | found x rest left here more same' h' ↦
            let shorter : length rest < n = omega (arith, ap length left) in
            let (es, rec, all) = visit_lem n fuel r.0 same' h' u (omega (arith, ap length more)) in
            (x ∷ es, rw (here, rec) refl, ap (◌∷◌ x) (all ∙ more) ∙ sym left)
      ]

  times_from :
      (x : K) (cs : List (List (TableEntry K V)))
      → times f x (entries_from 0 cs) ≡ sum_of (times f x) cs
  unfolding entries_from sum_of times
  times_from x [] = refl
  times_from x (c ∷ cs) = omega (arith, times-append f x c (entries_from 0 cs), times_from x cs)

  length_from : (cs : List (List (TableEntry K V))) → length (entries_from 0 cs) ≡ sum_of length cs
  unfolding entries_from sum_of
  length_from [] = refl
  length_from (c ∷ cs) = omega (arith, length-append c (entries_from 0 cs), length_from cs)

-- `hash_table_next` called until it returns NULL, with enough fuel, on a well-formed table with
-- chains and fewer than 2^31 slots, from an iterator that has the fields that
-- `hash_table_get_iterator` sets (but then does not return): the calls end without a fault, after
-- `use_` entries, exactly one for each key that has a value and none for another key.
pub visit-IsFreed {ℓ} :
    {K V : Type ℓ} (f : HashTypeFunction K V) (t : HashTable K V)
    → IsValid f t
    → 0 < t.size_
    → t.size_ < 2 ^ 31
    → Returns (visit (t.use_ + 1) (t.size_ + 2) (set_iterator t)) (IsFreed f t)
unfolding set_iterator pending contents
visit-IsFreed f t (fresh e s u) h fits = absurd (omega arith)
visit-IsFreed f t (filled chains e v) h fits =
    let number : length (entries_from 0 chains) ≡ t.use_ =
      length_from f t chains e v.slots fits chains ∙ v.counted in
    weaken _
      (visit_lem f t chains e v.slots fits (t.use_ + 1) (t.size_ + 2) (set_iterator t) refl
        (omega arith) (omega arith) (omega (arith, number)))
      λ es all. record {
        all = ap length all ∙ number;
        once = λ x.
            ap (times f x) all
            ∙ (times_from f t chains e v.slots fits x chains ∙ times_filled f t chains e v x);
      }
