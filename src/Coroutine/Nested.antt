-- ===== src/Coroutine/Nested.antt =====
-- Coroutines that create and start others, to any depth that the scheduler's array allows.
use my_little_tool.Prelude.{
  ℕ, ◌+◌, ◌≤◌, ◌<◌, ◌≡◌, ◌≢◌, ◌⊎◌, inl, inr, Bool-cases, true, false, refl, sym, ap, ◌∙◌, arith,
  some, none, ◌==◌, length, length-set, cell-set, Run, ok, Returns, ◌>>=◌, bind_rule, weaken,
  if◌then◌else◌, lt_or_ge,
}
use my_little_tool.Coroutine.{
  Ptr, null, Context, ProcessScheduler, World, put, malloc, set_context, set_scheduler, co_create,
  co_start, routine_end,
}
use my_little_tool.Coroutine.Switch.{
  entry, Own, get_current_some, left, pushed, popped, inside, outside, co_start-Own,
  routine_end-Own, Own-new,
}
use my_little_tool.Coroutine.Create.{IsNew, co_create-IsNew}

-- What a routine does with the library: it returns, or it creates a coroutine for a routine with its own script,
-- starts it, and goes on when that has ended. `rsp` and `rsp'` are addresses of locals.
pub data Script : Type 0 where
  ends : Script
  starts : (rsp rsp' routine args : ℕ) → Script → Script → Script

unfoldable pub run_script : Script → World → Run World
run_script ends w = ok w
run_script (starts rsp rsp' routine args body after) w = do
  let (co, w1) = co_create routine args w
  w2 ← co_start rsp co w1
  w3 ← run_script body w2
  w4 ← routine_end rsp' co w3
  run_script after w4

-- With the index at `i`, an array of `n` has room for the script.
abbrev pub Fits : ℕ → ℕ → Script → Type 0
Fits n i ends = Unit
Fits n i (starts rsp rsp' routine args body after) =
    (i + 1 < n) × Fits n (i + 1) body × Fits n i after

-- Coroutine `cur`, with a stack of its own, runs at index `i` of an array of `n`.
pub record Running (n : ℕ) (w : World) (s : ProcessScheduler) (i : ℕ) (cur : Ptr) (c : Context)
    : Type 0 where
  pub at : w.scheduler ≡ some s
  pub size : length s.allcos_ ≡ n
  pub stack : 24 ≤ s.co_stack_size
  pub index : s.co_index_ ≡ i
  pub now : entry s i ≡ cur
  pub own : Own w cur c
  pub old : cur < w.fresh

-- What `cur` finds when the coroutines that it started have ended: it runs at the same index, the
-- coroutines below it in the array are the same, no coroutine changed that was there before but the
-- place in `cur`, and every coroutine made since has begun and has ended.
pub record Ran (n : ℕ) (w : World) (s : ProcessScheduler) (i : ℕ) (cur : Ptr) (c : Context)
    (v : World) : Type 0 where
  pub after : ProcessScheduler
  pub place : Context
  pub running : Running n v after i cur place
  pub below : (j : ℕ) → j ≤ i → entry after j ≡ entry s j
  pub self : left place ≡ left c
  pub others : (p : Ptr) → p < w.fresh → p ≢ cur → v.contexts p ≡ w.contexts p
  pub grows : w.fresh ≤ v.fresh
  pub new :
      (p : Ptr) (d : Context)
      → w.fresh ≤ p
      → v.contexts p ≡ some d
      → (w.contexts p ≡ some d) ⊎ ((d.is_beg ≡ true) × (d.is_end ≡ true))

Ran-refl :
    (n : ℕ) (w : World) (s : ProcessScheduler) (i : ℕ) (cur : Ptr) (c : Context)
    → Running n w s i cur c
    → Ran n w s i cur c w
Ran-refl n w s i cur c r = record {
  after = s;
  place = c;
  running = r;
  below = λ j l. refl;
  self = refl;
  others = λ p l u. refl;
  grows = omega arith;
  new = λ p d l e. inl e;
}

Ran-trans :
    (n : ℕ) (w : World) (s : ProcessScheduler) (i : ℕ) (cur : Ptr) (c : Context) (v u : World)
    → cur < w.fresh
    → (r : Ran n w s i cur c v) → Ran n v r.after i cur r.place u
    → Ran n w s i cur c u
Ran-trans n w s i cur c v u old r q = record {
  after = q.after;
  place = q.place;
  running = q.running;
  below = λ j l. q.below j l ∙ r.below j l;
  self = q.self ∙ r.self;
  others = λ p l ne. q.others p (omega (arith, r.grows)) ne ∙ r.others p l ne;
  grows = omega (arith, r.grows, q.grows);
  new = λ p d l e. elim (lt_or_ge p v.fresh) [
    | inl there ↦ r.new p d l (sym (q.others p there (λ f. omega arith)) ∙ e)
    | inr later ↦ elim (q.new p d later e) [ inl f ↦ r.new p d l f | inr ended ↦ inr ended ]
  ];
}

create_others :
    (routine args : ℕ) (w : World) (s : ProcessScheduler)
    → w.scheduler ≡ some s
    → ((p : Ptr) → p ≢ w.fresh → (co_create routine args w).1.contexts p ≡ w.contexts p)
      × (w.fresh < (co_create routine args w).1.fresh)
unfolding co_create set_context put malloc
create_others routine args w s at =
    rw (get_current_some w s at)
      ((λ p ne. let other : (p == w.fresh) ≡ false = ground arith in rw other refl), omega arith)

module _ (n : ℕ) (routine args : ℕ) (w : World) (s : ProcessScheduler) (i : ℕ) (cur : Ptr)
    (c d : Context) (r : Running n w s i cur c) (room : i + 1 < n)
    (new : IsNew s.co_stack_size routine args w
      (co_create routine args w).0
      (co_create routine args w).1
      d) where
  abbrev co : Ptr
  co = (co_create routine args w).0

  abbrev begun_world : World
  begun_world = inside (co_create routine args w).1 s cur c co d

  abbrev d' : Context
  d' = record d { is_beg = true }

  cur_apart : cur ≢ co
  cur_apart e = let f = new.address in let o = r.old in omega arith

  fresh_grows : w.fresh < (co_create routine args w).1.fresh
  fresh_grows = (create_others routine args w s r.at).1

  pushed-entry : (j : ℕ) → entry (pushed s co) j ≡ (if s.co_index_ + 1 == j then co else entry s j)
  pushed-entry j = cell-set null s.allcos_ (s.co_index_ + 1) j co (omega (arith, r.size, r.index))

  below-entry : (j : ℕ) → j ≤ i → entry (pushed s co) j ≡ entry s j
  below-entry j l =
      let other : (s.co_index_ + 1 == j) ≡ false = ground (arith, r.index) in
      pushed-entry j ∙ rw other refl

  begun_contexts : (p : Ptr) → p ≢ co → p ≢ cur → begun_world.contexts p ≡ w.contexts p
  unfolding set_context set_scheduler put
  begun_contexts p ne ne' =
      let other : (p == co) ≡ false = ground arith in
      let other' : (p == cur) ≡ false = ground arith in
      let away : p ≢ w.fresh = λ e. ne (e ∙ sym new.address) in
      rw (other, other') ((create_others routine args w s r.at).0 p away)

  begun-Running : Running n begun_world (pushed s co) (i + 1) co d'
  unfolding set_context set_scheduler put
  begun-Running =
      let top : (s.co_index_ + 1 == i + 1) ≡ true = ground (arith, r.index) in
      record {
        at = refl;
        size = length-set s.allcos_ (s.co_index_ + 1) co ∙ r.size;
        stack = r.stack;
        index = ap (λ k. k + 1) r.index;
        now = pushed-entry (i + 1) ∙ rw top refl;
        own = Own-new co d' _ new.own.ne new.own.own;
        old = omega (arith, fresh_grows, new.address);
      }

  module _ (w3 : World) (q : Ran n begun_world (pushed s co) (i + 1) co d' w3) where
    starter_waits : Own w3 cur (left c)
    unfolding set_context set_scheduler put
    starter_waits =
        let far : (cur == co) ≡ false = let a = cur_apart in ground arith in
        let same : (cur == cur) ≡ true = ground arith in
        let there : begun_world.contexts cur ≡ some (left c) = rw (far, same) refl in
        record {
          ne = r.own.ne;
          at = q.others cur (omega (arith, fresh_grows, r.old)) cur_apart ∙ there;
          own = r.own.own;
        }

    ended-ok : (rsp' : ℕ) → routine_end rsp' co w3 ≡ ok (outside w3 q.after co q.place)
    ended-ok rsp' =
        routine_end-Own rsp' w3 q.after i cur co (left c) q.place q.running.at q.running.index
          (omega (arith, q.running.size, room))
          (q.below i (omega arith) ∙ (below-entry i (omega arith) ∙ r.now)) q.running.now
          (λ e. cur_apart (sym e)) starter_waits refl q.running.own

    ended-Ran : Ran n w s i cur c (outside w3 q.after co q.place)
    unfolding set_context set_scheduler put
    ended-Ran =
        let v = outside w3 q.after co q.place in
        let same : (co == co) ≡ true = ground arith in
        let at_co : v.contexts co ≡ some (left (record q.place { is_end = true })) = rw same refl in
        let other_place : (p : Ptr) → p ≢ co → v.contexts p ≡ w3.contexts p =
          λ p ne. let other : (p == co) ≡ false = ground arith in rw other refl in
        let begun : q.place.is_beg ≡ true = ap (λ x. x.is_beg) q.self in
        record {
          after = popped q.after;
          place = left c;
          running = record {
            at = refl;
            size = q.running.size;
            stack = q.running.stack;
            index = omega (arith, q.running.index);
            now = q.below i (omega arith) ∙ (below-entry i (omega arith) ∙ r.now);
            own = record {
              ne = r.own.ne;
              at = other_place cur cur_apart ∙ starter_waits.at;
              own = r.own.own;
            };
            old = omega (arith, r.old, fresh_grows, q.grows);
          };
          below = λ j l. q.below j (omega arith) ∙ below-entry j l;
          self = refl;
          others = λ p l ne.
              let away : p ≢ co = λ e. let f = new.address in omega arith in
              other_place p away
              ∙ (q.others p (omega (arith, fresh_grows)) away ∙ begun_contexts p away ne);
          grows = omega (arith, fresh_grows, q.grows);
          new = λ p x l e. elim (Bool-cases (p == co)) [
            | inl here ↦
                let there : p ≡ co = ground arith in
                let one : some (left (record q.place { is_end = true })) ≡ some x =
                  sym at_co ∙ (ap v.contexts (sym there) ∙ e) in
                inr (
                  ap (λ o. elim o [ none ↦ true | some y ↦ y.is_beg ]) (sym one) ∙ begun,
                  ap (λ o. elim o [ none ↦ true | some y ↦ y.is_end ]) (sym one),
                )
            | inr other ↦
                let away : p ≢ co = ground arith in
                let not_cur : p ≢ cur = λ f. let o = r.old in omega arith in
                let e' : w3.contexts p ≡ some x = sym (other_place p away) ∙ e in
                elim (lt_or_ge p begun_world.fresh) [
                  | inl early ↦
                      inl (sym (q.others p early away ∙ begun_contexts p away not_cur) ∙ e')
                  | inr late ↦ elim (q.new p x late e') [
                    | inl f ↦ inl (sym (begun_contexts p away not_cur) ∙ f)
                    | inr ended ↦ inr ended
                  ]
                ]
          ];
        }

-- Where coroutine `cur`, with a stack of its own, runs at index `i` of the scheduler's array, the
-- array of `n` has room for the depth of the script, and the scheduler's stacks have at least 24
-- bytes: the coroutines that the script creates and starts, and those that these start in turn, run
-- and end without a fault, and control is back in `cur`. The index is as before and so is the array
-- up to it; no coroutine that was there before has changed, but for the place that is saved in `cur`;
-- and every coroutine made since has begun and has ended.
pub run_script-Ran :
    (script : Script) (n : ℕ) (w : World) (s : ProcessScheduler) (i : ℕ) (cur : Ptr) (c : Context)
    → Running n w s i cur c
    → Fits n i script
    → Returns (run_script script w) (Ran n w s i cur c)
unfolding run_script
run_script-Ran ends n w s i cur c r fits = (w, refl, Ran-refl n w s i cur c r)
run_script-Ran (starts rsp rsp' routine args body after) n w s i cur c r (room, fits, fits') =
    let co = (co_create routine args w).0 in
    let w1 = (co_create routine args w).1 in
    let (d, new) =
      co_create-IsNew routine args w s r.at r.stack (λ e. let o = r.old in omega arith) in
    let apart : cur ≢ co = λ e. let f = new.address in let o = r.old in omega arith in
    let own : Own w1 cur c = record {
      ne = r.own.ne;
      at = new.others cur r.old ∙ r.own.at;
      own = r.own.own;
    } in
    let room' : s.co_index_ + 1 < length s.allcos_ = omega (arith, room, r.size, r.index) in
    let now : entry s s.co_index_ ≡ cur = ap (entry s) r.index ∙ r.now in
    rw
      (co_start-Own w1 s cur co c d (new.scheduler ∙ r.at) room' now apart own new.own rsp
        new.begins.0 new.begins.1)
      (bind_rule _ _
        (run_script-Ran body n _ _ (i + 1) co _
          (begun-Running n routine args w s i cur c d r room new) fits)
        λ w3 q.
          let child = ended-Ran n routine args w s i cur c d r room new w3 q in
          rw (ended-ok n routine args w s i cur c d r room new w3 q rsp') (
            weaken _ (run_script-Ran after n _ child.after i cur child.place child.running fits')
              λ u last. Ran-trans n w s i cur c _ u r.old child last))
