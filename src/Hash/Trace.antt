-- ===== src/Hash/Trace.antt =====
-- Sequences of calls on a hash table of hash_table.c, against the same calls on a map from keys
-- to values. An insertion carries the outcomes of its two `malloc`s.
use my_little_tool.Prelude.{
  Bool, false, not, ◌||◌, ◌⊎◌, subst, Option-cases, ◌+◌, ◌*◌, ◌^◌, ◌≤◌, ◌<◌, ◌≡◌, refl, sym, ap,
  ◌∙◌, arith, true, Bool-cases, inl, inr, List, [], ◌∷◌, Option, none, some, if◌then◌else◌, length,
  Run, ok, ◌>>=◌, Returns, bind_rule,
}
use my_little_tool.Hash.{
  HashTypeFunction, HashTable, dumped, is_null, hash_table_construct, hash_table_find,
  hash_table_insert, hash_table_del,
}
use my_little_tool.Hash.Chain.{IsLawful, value_of, key_cases, same, apart}
use my_little_tool.Hash.Valid.{IsValid, fresh, filled, contents, hash_table_find-contents}
use my_little_tool.Hash.Insert.{
  IsInserted, hash_table_insert-IsInserted, hash_table_insert_kept, hash_table_insert_present,
  hash_table_insert_refused,
}
use my_little_tool.Hash.Del.{hash_table_del-IsDeleted}

pub data Call {ℓ} (K V : Type ℓ) : Type ℓ where
  insert : Bool → Bool → K → V → Call K V
  del : K → Call K V
  find : K → Call K V

module _ {ℓ} {K V : Type ℓ} (f : HashTypeFunction K V) where
  -- One call on the table, with the value found or freed.
  abbrev pub call : HashTable K V → Call K V → Run (HashTable K V × Option V)
  call t (insert got_table got_entry k v) =
      hash_table_insert f got_table got_entry t k v >>= λ r. ok (r, none)
  call t (del k) = hash_table_del f t k >>= λ r. ok (r.0, value_of f r.1)
  call t (find k) = hash_table_find f t k >>= λ o. ok (t, value_of f o)

  -- The calls in turn, with their answers.
  unfoldable pub call_all : HashTable K V → List (Call K V) → Run (HashTable K V × List (Option V))
  call_all t [] = ok (t, [])
  call_all t (c ∷ cs) = do
    (t', answer) ← call t c
    (t'', answers) ← call_all t' cs
    ok (t'', answer ∷ answers)

  -- The same on a map. An insertion is lost if its key is absent and it gets no memory for an entry.
  abbrev pub on_map : (K → Option V) → Call K V → (K → Option V) × Option V
  on_map m (insert got_table got_entry k v) = (
    (if got_entry || not (is_null (m k))
        then (λ x. if f.comp_ k x then some (dumped f.value_dump_ v) else m x)
        else m),
    none,
  )
  on_map m (del k) = ((λ x. if f.comp_ k x then none else m x), m k)
  on_map m (find k) = (m, m k)

  unfoldable pub all_on_map : (K → Option V) → List (Call K V) → (K → Option V) × List (Option V)
  all_on_map m [] = (m, [])
  all_on_map m (c ∷ cs) =
      let (m', answer) = on_map m c in
      let (m'', answers) = all_on_map m' cs in (m'', answer ∷ answers)

  module _ (law : IsLawful f) where
    -- The table stands for the map, and has chains.
    pub record Implements (m : K → Option V) (t : HashTable K V) : Type ℓ where
      pub valid : IsValid f t
      pub some_slots : 0 < t.size_
      pub agrees : (x : K) → contents f t x ≡ m x

    has_slots :
        (t : HashTable K V) (k : K) (v : V) → IsValid f t → contents f t k ≡ some v → 0 < t.size_
    unfolding contents
    has_slots t k v (filled chains e w) h = w.some_slots
    has_slots t k v (fresh e s u) h =
        let z : contents f t k ≡ none = rw e refl in absurd (ground (arith, z, h))

    -- What one call leaves, against the map.
    record IsStep (m : K → Option V) (t : HashTable K V) (c : Call K V)
        (r : HashTable K V × Option V) : Type ℓ where
      after : Implements (on_map m c).0 r.0
      answer : r.1 ≡ (on_map m c).1
      bound : r.0.use_ ≤ t.use_ + 1

    -- An insertion that took place, and one that did not.
    module _ (m : K → Option V) (t : HashTable K V) (got_table got_entry : Bool) (k : K) (v : V)
        (agrees : (x : K) → contents f t x ≡ m x) where
      inserted-IsStep :
          (r : HashTable K V)
          → (got_entry || not (is_null (m k))) ≡ true
          → IsInserted f law t k v r
          → IsStep m t (insert got_table got_entry k v) (r, none)
      inserted-IsStep r took j = record {
        after = record {
          valid = j.valid;
          some_slots = has_slots r k _ j.valid j.stored;
          agrees = λ x. rw took (elim (key_cases f law k x) [
            | same y z eq ↦ ap (contents f r) (sym eq) ∙ (j.stored ∙ rw y refl)
            | apart y z ne ↦ j.others x ne ∙ (agrees x ∙ rw y refl)
          ]);
        };
        answer = refl;
        bound = elim (Bool-cases (is_null (contents f t k))) [
          | inl y ↦ ground (arith, j.counted)
          | inr n ↦ ground (arith, j.counted)
        ];
      }

      refused-IsStep :
          (r : HashTable K V)
          → (got_entry || not (is_null (m k))) ≡ false
          → IsValid f r
          → ((x : K) → contents f r x ≡ contents f t x)
          → r.use_ ≡ t.use_
          → 0 < r.size_
          → IsStep m t (insert got_table got_entry k v) (r, none)
      refused-IsStep r lost valid same_map same_use slots = record {
        after = record {
          valid = valid;
          some_slots = slots;
          agrees = λ x. rw lost (same_map x ∙ agrees x);
        };
        answer = refl;
        bound = omega arith;
      }

    -- An insertion may also be the first call on a table without chains, if it gets them.
    insert-IsStep :
        (m : K → Option V) (t : HashTable K V) (got_table got_entry : Bool) (k : K) (v : V)
        → IsValid f t
        → ((x : K) → contents f t x ≡ m x)
        → t.use_ < 3 * 2 ^ 29
        → (got_table ≡ true) ⊎ (0 < t.size_)
        → Returns
            (call t (insert got_table got_entry k v))
            (IsStep m t (insert got_table got_entry k v))
    insert-IsStep m t true true k v valid agrees room slots =
        bind_rule _ _ (hash_table_insert-IsInserted f law t k v valid room)
          λ r j. ((r, none), refl, inserted-IsStep m t true true k v agrees r refl j)
    insert-IsStep m t false true k v valid agrees room slots =
        bind_rule _ _ (hash_table_insert_kept f law t k v valid (ground (arith, slots)) room)
          λ r j. ((r, none), refl, inserted-IsStep m t false true k v agrees r refl j)
    insert-IsStep m t got_table false k v valid agrees room slots =
        elim (Option-cases (contents f t k)) [
          | inl gone ↦
              bind_rule _ _ (hash_table_insert_refused f law got_table t k v valid room slots gone)
                λ r (valid', same_map, same_use, slots').
                  let lost : (false || not (is_null (m k))) ≡ false =
                    rw (sym (agrees k) ∙ gone) refl in
                  (
                    (r, none),
                    refl,
                    refused-IsStep m t got_table false k v agrees r lost valid' same_map same_use
                        slots',
                  )
          | inr (u, there) ↦
              bind_rule _ _
                (hash_table_insert_present f law got_table false t k v valid (rw there refl))
                λ r j.
                  let took : (false || not (is_null (m k))) ≡ true =
                    rw (sym (agrees k) ∙ there) refl in
                  ((r, none), refl, inserted-IsStep m t got_table false k v agrees r took j)
        ]

    call-IsStep :
        (m : K → Option V) (t : HashTable K V) (c : Call K V)
        → Implements m t
        → t.use_ < 3 * 2 ^ 29
        → Returns (call t c) (IsStep m t c)
    call-IsStep m t (insert got_table got_entry k v) i room =
        insert-IsStep m t got_table got_entry k v i.valid i.agrees room (inr i.some_slots)
    call-IsStep m t (del k) i room =
        bind_rule _ _ (hash_table_del-IsDeleted f law t k i.valid i.some_slots) λ r j. (
          (r.0, value_of f r.1),
          refl,
          record {
            after = record {
              valid = j.valid;
              some_slots = omega (arith, i.some_slots, j.same_size);
              agrees = λ x. elim (key_cases f law k x) [
                | same y z eq ↦ ap (contents f r.0) (sym eq) ∙ (j.gone ∙ rw y refl)
                | apart y z ne ↦ j.others x ne ∙ (i.agrees x ∙ rw y refl)
              ];
            };
            answer = j.freed ∙ i.agrees k;
            bound = omega (arith, j.counted);
          },
        )
    call-IsStep m t (find k) i room =
        bind_rule _ _ (hash_table_find-contents f t k i.valid) λ o found. (
          (t, value_of f o),
          refl,
          record { after = i; answer = found ∙ i.agrees k; bound = omega arith },
        )

    -- What a sequence of calls leaves, against the map.
    pub record IsRun (m : K → Option V) (cs : List (Call K V)) (r : HashTable K V × List (Option V))
        : Type ℓ where
      pub after : Implements (all_on_map m cs).0 r.0
      pub answers : r.1 ≡ (all_on_map m cs).1

    -- On a table with chains that stands for a map, with fewer than 3 * 2^29 entries even if every
    -- call adds one: any sequence of insertions, deletions and searches ends without a fault,
    -- gives the answers that the map gives, and leaves a table that stands for the map after the
    -- same calls.
    pub call_all-IsRun :
        (cs : List (Call K V)) (m : K → Option V) (t : HashTable K V)
        → Implements m t
        → t.use_ + length cs < 3 * 2 ^ 29
        → Returns (call_all t cs) (IsRun m cs)
    unfolding call_all all_on_map
    call_all-IsRun [] m t i room = ((t, []), refl, record { after = i; answers = refl })
    call_all-IsRun (c ∷ cs) m t i room = bind_rule _ _ (call-IsStep m t c i (omega arith)) λ r step.
        bind_rule _ _ (call_all-IsRun cs (on_map m c).0 r.0 step.after (omega (arith, step.bound)))
          λ q rest. (
            (q.0, r.1 ∷ q.1),
            refl,
            record {
              after = rest.after;
              answers = ap (λ a. a ∷ q.1) step.answer ∙ ap (◌∷◌ (on_map m c).1) rest.answers;
            },
          )

    -- With key functions that are lawful (`IsLawful`): from a constructed table, a first insertion
    -- that gets memory for the chains, and then any sequence of fewer than 3 * 2^29 - 1 insertions,
    -- deletions and searches, whatever the other `malloc`s give, end without a fault and give the
    -- answers that a map gives that is empty at first; the table then stands for the map after the
    -- same calls. On the map an insertion of an absent key does nothing if it gets no memory for
    -- its entry.
    pub construct-IsRun :
        (t : HashTable K V) (got_entry : Bool) (k : K) (v : V) (cs : List (Call K V))
        → hash_table_construct true ≡ some t
        → length cs + 1 < 3 * 2 ^ 29
        → Returns
            (call_all t (insert true got_entry k v ∷ cs))
            (IsRun (λ x. none) (insert true got_entry k v ∷ cs))
    unfolding call_all all_on_map hash_table_construct contents
    construct-IsRun t got_entry k v cs new room =
        let empty : HashTable K V = record { table_ = none; size_ = 0; use_ = 0 } in
        let same : empty ≡ t = ap (λ o. elim o [ none ↦ t | some x ↦ x ]) new in
        subst
          (λ t.
            Returns (call_all t (insert true got_entry k v ∷ cs))
              (IsRun (λ x. none) (insert true got_entry k v ∷ cs)))
          same
          (bind_rule _ _
            (insert-IsStep (λ x. none) empty true got_entry k v (fresh refl refl refl) (λ x. refl)
              (omega arith) (inl refl))
            λ r step.
              bind_rule _ _ (call_all-IsRun cs _ r.0 step.after (omega (arith, step.bound)))
                λ q rest. (
                  (q.0, r.1 ∷ q.1),
                  refl,
                  record {
                    after = rest.after;
                    answers =
                        ap (λ a. a ∷ q.1) step.answer
                        ∙ ap (◌∷◌ (on_map (λ x. none) (insert true got_entry k v)).1) rest.answers;
                  },
                ))
