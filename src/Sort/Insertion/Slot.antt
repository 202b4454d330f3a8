-- ===== src/Sort/Insertion/Slot.antt =====
-- One insertion into an ascending prefix.
use my_little_tool.Prelude.{
  ℕ, zero, suc, ◌+◌, ◌-◌, ◌≤◌, ◌<◌, ◌≡◌, ◌≢◌, refl, sym, ◌∙◌, subst, arith, ℤ, ◌≤ℤ◌, ◌<ℤ◌, ltb_ℤ,
  Bool-cases, inl, inr, length, set, length-set, ◌>>=◌, Returns, bind_rule, weaken,
}
use my_little_tool.Sort.Array.{Array, store, at, Rearranges, IsSortedOn}
use my_little_tool.Sort.Array.Access.{load-ok, store-ok, at-set, set-at, swap, at-swap}
use my_little_tool.Sort.Array.Rearrange.{
  Rearranges-refl, Rearranges-trans, Rearranges-widen, swap-Rearranges, fill-swap,
}
use my_little_tool.Sort.Insertion.{shift, insert_step}

-- `[0, hi)` ascends but for the slot `k`, whose entry is below all that follow.
pub record HasSlot (hi k : ℕ) (v : Array) : Type 0 where
  pub rest : (x y : ℕ) → x ≤ y → y < hi → x ≢ k → y ≢ k → at v x ≤ℤ at v y
  pub after : (y : ℕ) → k < y → y < hi → at v k ≤ℤ at v y

pub HasSlot-swap :
    (hi k : ℕ) (v : Array)
    → suc k < hi
    → hi ≤ length v
    → at v (suc k) <ℤ at v k
    → HasSlot hi (suc k) v
    → HasSlot hi k (swap v (suc k) k)
HasSlot-swap hi k v h len lt s =
    let p : suc k < length v = omega arith in
    let q : k < length v = omega arith in
    record {
      rest = λ x y l u nx ny.
          rw (at-swap v (suc k) k x p q, at-swap v (suc k) k y p q)
            (ground (arith, s.rest x y, s.rest x k, s.rest k y, s.after y));
      after = λ y l u.
          rw (at-swap v (suc k) k k p q, at-swap v (suc k) k y p q)
            (ground (arith, s.after y, s.rest k y));
    }

-- What a shift that began in the slot `k` of `v` ends with.
pub record Shifted (hi k : ℕ) (temp : ℤ) (v : Array) (r : Array × ℕ) : Type 0 where
  pub room : r.1 ≤ k
  pub size : length r.0 ≡ length v
  pub moved : Rearranges 0 hi v (set r.0 r.1 temp)
  pub slot : HasSlot hi k v → HasSlot hi r.1 (set r.0 r.1 temp)
  pub stop : (x : ℕ) → suc x ≡ r.1 → at (set r.0 r.1 temp) x ≤ℤ temp

Shifted-stop :
    (hi k : ℕ) (temp : ℤ) (a : Array)
    → ((x : ℕ) → suc x ≡ k → at (set a k temp) x ≤ℤ temp)
    → Shifted hi k temp (set a k temp) (a, k)
Shifted-stop hi k temp a stop = record {
  room = omega arith;
  size = sym (length-set a k temp);
  moved = Rearranges-refl 0 hi _;
  slot = λ s. s;
  stop = stop;
}

-- A round that moves the slot down is a swap of the slot and the entry below it.
Shifted-step :
    (hi k : ℕ) (temp : ℤ) (v : Array) (r : Array × ℕ)
    → suc k < hi
    → hi ≤ length v
    → at v (suc k) <ℤ at v k
    → Shifted hi k temp (swap v (suc k) k) r
    → Shifted hi (suc k) temp v r
Shifted-step hi k temp v r h len lt s =
    let room : r.1 ≤ k = s.room in
    record {
      room = omega arith;
      size =
          s.size
          ∙ (length-set (set v (suc k) (at v k)) k (at v (suc k)) ∙ length-set v (suc k) (at v k));
      moved =
          Rearranges-trans
            (swap-Rearranges 0 hi v (suc k) k (omega arith) h (omega arith) (omega arith) len)
            s.moved;
      slot = λ t. s.slot (HasSlot-swap hi k v h len lt t);
      stop = s.stop;
    }

pub shift_lem :
    (hi : ℕ) (temp : ℤ) (k : ℕ) (a : Array)
    → k < hi
    → hi ≤ length a
    → Returns (shift a temp k) (Shifted hi k temp (set a k temp))
unfolding shift
shift_lem hi temp zero a h len =
    ((a, 0), refl, Shifted-stop hi 0 temp a (λ x e. absurd (omega arith)))
shift_lem hi temp (suc k) a h len =
    let p : k < length a = omega arith in
    let q : suc k < length a = omega arith in
    elim (Bool-cases (ltb_ℤ temp (at a k))) [
      | inr e ↦ (
        (a, suc k),
        rw (load-ok a k p, e),
        Shifted-stop hi (suc k) temp a λ x e'. ground (arith, at-set a (suc k) x temp q),
      )
      | inl e ↦
          let b = set a (suc k) (at a k) in
          let v = set a (suc k) temp in
          let wide : hi ≤ length b = omega (arith, length-set a (suc k) (at a k)) in
          let wide' : hi ≤ length v = omega (arith, length-set a (suc k) temp) in
          let same : set b k temp ≡ swap v (suc k) k = fill-swap a (suc k) k temp q (omega arith) in
          let lt : at v (suc k) <ℤ at v k =
            ground (arith, at-set a (suc k) (suc k) temp q, at-set a (suc k) k temp q) in
          rw (load-ok a k p, e, store-ok a (suc k) (at a k) q)
            (weaken (shift b temp k) (shift_lem hi temp k b (omega arith) wide) λ r s.
              Shifted-step hi k temp v r h wide' lt (subst (λ w. Shifted hi k temp w r) same s))
    ]

-- After `i` rounds the first `i` entries ascend, and nothing was lost.
pub record Prefix (a : Array) (i : ℕ) (b : Array) : Type 0 where
  pub ascends : IsSortedOn 0 i b
  pub moved : Rearranges 0 (length a) a b

HasSlot-IsSortedOn :
    (hi k : ℕ) (v : Array)
    → HasSlot hi k v
    → ((x : ℕ) → suc x ≡ k → at v x ≤ℤ at v k)
    → IsSortedOn 0 hi v
HasSlot-IsSortedOn hi k v s stop x y _ l u =
    ground (arith, s.after y, s.rest x y, s.rest x (k - 1), stop (k - 1))

-- Shifting the entry at `i` down to its place lets the prefix grow.
pub place_lem :
    (a : Array) (i : ℕ) (b : Array)
    → i < length a
    → Prefix a i b
    → Returns (shift b (at b i) i >>= λ r. store r.0 r.1 (at b i)) (Prefix a (i + 1))
place_lem a i b u inv =
    let p : i < length b = omega (arith, inv.moved.same_length) in
    let x = at b i in
    let start : HasSlot (i + 1) i b = record {
      rest = λ j k m n nj nk. inv.ascends j k (omega arith) m (omega arith);
      after = λ k m n. absurd (omega arith);
    } in
    bind_rule (shift b x i) _ (shift_lem (i + 1) x i b (omega arith) (omega arith)) λ r s.
      let room : r.1 ≤ i = s.room in
      let size : r.1 < length r.0 = omega (arith, s.size, length-set b i x) in
      let s' : Shifted (i + 1) i x b r = subst (λ w. Shifted (i + 1) i x w r) (set-at b i) s in
      let c = set r.0 r.1 x in
      let here : at c r.1 ≡ x = at-set r.0 r.1 r.1 x size ∙ ground arith in
      (
        c,
        store-ok r.0 r.1 x size,
        record {
          ascends = HasSlot-IsSortedOn (i + 1) r.1 c (s'.slot start) λ k m. rw here (s'.stop k m);
          moved =
              Rearranges-trans inv.moved
                (Rearranges-widen 0 (length a) (omega arith) (omega arith) s'.moved);
        },
      )

-- The prefix grows by one entry, whether the new entry has to move or not.
pub insert_step_lem :
    (a : Array) (i : ℕ) (b : Array)
    → 1 ≤ i
    → i < length a
    → Prefix a i b
    → Returns (insert_step i b) (Prefix a (i + 1))
unfolding insert_step
insert_step_lem a i b l u inv =
    let p : i < length b = omega (arith, inv.moved.same_length) in
    let q : i - 1 < length b = omega arith in
    elim (Bool-cases (ltb_ℤ (at b i) (at b (i - 1)))) [
      | inr e ↦ (
        b,
        rw (load-ok b i p, load-ok b (i - 1) q, e),
        record {
          ascends = λ j k m n w. ground (arith, inv.ascends j k, inv.ascends j (i - 1));
          moved = inv.moved;
        },
      )
      | inl e ↦ rw (load-ok b i p, load-ok b (i - 1) q, e) (place_lem a i b u inv)
    ]
