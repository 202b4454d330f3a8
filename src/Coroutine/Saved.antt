-- ===== src/Coroutine/Saved.antt =====
-- No call enters a coroutine into `cur_co`, so the contents of a shared stack are never saved.
use my_little_tool.Prelude.{
  ltb, ◌&&◌, ◌<◌, ◌≤◌, ◌⊎◌, leb, ℕ, ◌+◌, ◌-◌, ◌≡◌, inl, inr, refl, sym, ap, ◌∙◌, subst, arith,
  Option, some, none, true, false, Bool, Bool-cases, Option-cases, ◌==◌, not, if◌then◌else◌, Run,
  ok, fault, Fault, ◌>>=◌, fetch, assign, out_of_bounds,
}
use my_little_tool.Coroutine.{
  Ptr, null, Place, nowhere, routine_start, behind_jump, Context, SharedStack, CommonSharedStack,
  World, deref, put, malloc, free, set_context, set_shared, set_scheduler, memcpy_bytes,
  process_scheduler_init, get_current_process_scheduler, create_shared_stack, shared_stack_free,
  resume_shared_stack, swap_out, swap_in, routine_begin, go_on, jump_2_context, coroutine_swap,
  co_yield, routine_end, co_create, co_start, co_create_shared_stack, clear_stack, Call, start,
  yield, finish, create, create_stack, create_on, clear, free_stack, perform, Reach, begun, called,
}

-- If the call ends normally, its result satisfies `P`.
data After {A : Type 0} (P : A → Type 0) : Run A → Type 0 where
  ended : {a : A} → P a → After P (ok a)
  stopped : {e : Fault} → After P (fault e)

After-bind :
    {A : Type 0} {B : Type 0} {Q : A → Type 0} {P : B → Type 0} (m : Run A) (f : A → Run B)
    → After Q m
    → ((a : A) → Q a → After P (f a))
    → After P (m >>= f)
After-bind m f (ended h) next = next _ h
After-bind m f stopped next = stopped

After-mono :
    {A : Type 0} {P Q : A → Type 0} {m : Run A} → ((a : A) → P a → Q a) → After P m → After Q m
After-mono f (ended h) = ended (f _ h)
After-mono f stopped = stopped

After-if :
    {A : Type 0} {P : A → Type 0} (b : Bool) (m n : Run A)
    → After P m
    → After P n
    → After P (if b then m else n)
After-if true m n h k = h
After-if false m n h k = k

-- What is read from a call is what it ended with.
value_or : {A : Type 0} → A → Run A → A
value_or d (ok a) = a
value_or d (fault e) = d

ok_injective : {A : Type 0} {a b : A} → ok a ≡ ok b → a ≡ b
unfolding value_or
ok_injective {a = a} e = ap (value_or a) e

result_of : {A : Type 0} (m : Run A) → After (λ a. m ≡ ok a) m
result_of (ok a) = ended refl
result_of (fault e) = stopped

deref-some :
    {A : Type 0} (table : Ptr → Option A) (p : Ptr) → After (λ x. table p ≡ some x) (deref table p)
unfolding deref
deref-some table p = elim (Bool-cases (p == null)) [
  | inl e ↦ rw e stopped
  | inr n ↦
      rw n (elim (Option-cases (table p)) [ inl e ↦ rw e stopped | inr (x, e) ↦ rw e (ended refl) ])
]

-- The shared stacks name no coroutine in `cur_co`.
abbrev pub NoOwner : World → Type 0
NoOwner w = (p : Ptr) (m : CommonSharedStack) → w.commons p ≡ some m → m.cur_co ≡ null

-- What is recorded of a shared stack beside `rsp`.
abbrev pub without_rsp : Option SharedStack → Option SharedStack
without_rsp none = none
without_rsp (some s) = some (record s { rsp = 0 })

-- The byte at `a` lies in no range that `resume_shared_stack` writes.
abbrev pub Spared : World → ℕ → Type 0
Spared v a =
    (p : Ptr) (s : SharedStack) (m : CommonSharedStack)
    → v.shareds p ≡ some s
    → v.commons s.common_stack ≡ some m
    → (a < m.co_shared_rbp) ⊎ (m.co_shared_rbp + s.len ≤ a)

-- What is recorded and what is saved of the shared stacks is as in `v`.
abbrev pub SameSaved : World → World → Type 0
SameSaved v w =
    ((p : Ptr) → without_rsp (w.shareds p) ≡ without_rsp (v.shareds p))
    × ((a : ℕ) → Spared v a → w.bytes a ≡ v.bytes a)

abbrev Kept : World → World → Type 0
Kept v w =
    NoOwner w
    × (w.commons ≡ v.commons)
    × ((p : Ptr) → without_rsp (w.shareds p) ≡ without_rsp (v.shareds p))
    × ((a : ℕ) → Spared v a → w.bytes a ≡ v.bytes a)

Kept-refl : (w : World) → NoOwner w → Kept w w
Kept-refl w h = (h, refl, (λ p. refl), (λ a s. refl))

stored_before :
    (o : Option SharedStack) (s' : SharedStack)
    → without_rsp (some s') ≡ without_rsp o
    → (s : SharedStack) × (o ≡ some s) × (s.len ≡ s'.len) × (s.common_stack ≡ s'.common_stack)
stored_before none s' e = absurd (ground (arith, e))
stored_before (some s) s' e = (
  s,
  refl,
  ap (λ o. elim o [ none ↦ 0 | some x ↦ x.len ]) (sym e),
  ap (λ o. elim o [ none ↦ 0 | some x ↦ x.common_stack ]) (sym e),
)

get_current-same :
    (w : World)
    → ((get_current_process_scheduler w).1.commons ≡ w.commons)
      × ((get_current_process_scheduler w).1.shareds ≡ w.shareds)
      × ((get_current_process_scheduler w).1.bytes ≡ w.bytes)
unfolding get_current_process_scheduler process_scheduler_init set_context malloc
get_current-same w = elim (Option-cases w.scheduler) [
  | inl e ↦ rw e (refl, refl, refl)
  | inr (s, e) ↦ rw e (refl, refl, refl)
]

module _ (v : World) where
  get_current-Kept : (w : World) → Kept v w → Kept v (get_current_process_scheduler w).1
  get_current-Kept w (none_owns, commons, saved, bytes) =
      let (same_commons, same_shareds, same_bytes) = get_current-same w in
      (
        (λ p m e. none_owns p m (ap (λ t. t p) (sym same_commons) ∙ e)),
        same_commons ∙ commons,
        (λ p. ap (λ t. without_rsp (t p)) same_shareds ∙ saved p),
        (λ a s. ap (λ t. t a) same_bytes ∙ bytes a s),
      )

  -- Restoring a stack writes only where it may.
  memcpy_bytes-Kept :
      (w : World) (p : Ptr) (s : SharedStack) (m : CommonSharedStack)
      → Kept v w
      → w.shareds p ≡ some s
      → w.commons s.common_stack ≡ some m
      → Kept v (memcpy_bytes m.co_shared_rbp s.buf s.len w)
  unfolding memcpy_bytes
  memcpy_bytes-Kept w p s m (none_owns, commons, saved, bytes) at_s at_m =
      let (s0, at_v, len, common) =
        stored_before (v.shareds p) s (ap without_rsp (sym at_s) ∙ saved p) in
      let at_m' : v.commons s0.common_stack ≡ some m =
        ap v.commons common ∙ (ap (λ t. t s.common_stack) (sym commons) ∙ at_m) in
      (
        none_owns,
        commons,
        saved,
        (λ a spared.
            let out : (leb m.co_shared_rbp a && ltb a (m.co_shared_rbp + s.len)) ≡ false =
              elim (spared p s0 m at_v at_m') [
                | inl low ↦ ground arith
                | inr high ↦ ground arith
              ] in
            rw out (bytes a spared)),
      )

  swap_in-Kept : (w : World) → Kept v w → After (Kept v) (swap_in w)
  unfolding swap_in resume_shared_stack
  swap_in-Kept w k =
      let w1 = (get_current_process_scheduler w).1 in
      let k1 : Kept v w1 = get_current-Kept w k in
      let process = (get_current_process_scheduler w).0 in
      After-bind _ _ (result_of (fetch process.allcos_ process.co_index_)) λ cur_co u.
        After-bind _ _ (result_of (deref w1.contexts cur_co)) λ c u.
          After-if c.is_shared_stack _ _
            (After-bind _ _ (result_of (deref w1.shareds c.co_shared_stack)) λ s u.
              After-if _ _ _
                (After-bind _ _ (result_of (deref w1.contexts cur_co)) λ c' u.
                  After-bind _ _ (deref-some w1.shareds c'.co_shared_stack) λ s' at_s.
                    After-bind _ _ (deref-some w1.commons s'.common_stack)
                      λ m at_m. ended (memcpy_bytes-Kept w1 c'.co_shared_stack s' m k1 at_s at_m))
                (ended k1))
            (ended k1)

  swap_out-Kept :
      (rsp cur next : Ptr) (w : World) → Kept v w → After (Kept v) (swap_out rsp cur next w)
  unfolding swap_out set_shared put
  swap_out-Kept rsp cur next w k = After-bind _ _ (result_of (deref w.contexts cur)) λ c u.
      After-bind _ _
        (After-if c.is_shared_stack _ _
          (After-bind _ _ (deref-some w.shareds c.co_shared_stack) λ s at. ended (
            k.0,
            k.1,
            (λ p. elim (Bool-cases (p == c.co_shared_stack)) [
              | inl here ↦
                  let same : p ≡ c.co_shared_stack = ground arith in
                  rw here (
                    ap without_rsp (sym at)
                    ∙ (ap (λ q. without_rsp (w.shareds q)) (sym same) ∙ k.2 p))
              | inr other ↦ rw other (k.2 p)
            ]),
            k.3,
          ))
          (ended k))
        λ (w1 : World) k1. After-bind _ _ (result_of (deref w1.contexts next)) λ n u.
          After-if n.is_shared_stack _ _
            (After-bind _ _ (result_of (deref w1.shareds n.co_shared_stack)) λ s u.
              After-bind _ _ (deref-some w1.commons s.common_stack) λ m at.
                let nobody : (m.cur_co == null) ≡ true =
                  let e = k1.0 s.common_stack m at in ground arith in
                rw nobody (ended k1))
            (ended k1)

  go_on-Kept : (r : Place) (n : Context) (w : World) → Kept v w → After (Kept v) (go_on r n w)
  unfolding go_on routine_begin set_context
  go_on-Kept nowhere n w k = stopped
  go_on-Kept routine_start n w k =
      After-bind _ _ (result_of (deref w.contexts n.co_stack.reg_rdi)) λ c u. ended k
  go_on-Kept behind_jump n w k = swap_in-Kept w k

  jump_2_context-Kept :
      (cur next : Ptr) (w : World) → Kept v w → After (Kept v) (jump_2_context cur next w)
  unfolding jump_2_context set_context
  jump_2_context-Kept cur next w k =
      After-bind _ _ (result_of (deref w.contexts cur))
        λ c u. After-bind _ _ (result_of (deref _ next)) λ n u. go_on-Kept n.co_stack.reg_rip n _ k

  coroutine_swap-Kept :
      (rsp cur next : Ptr) (w : World) → Kept v w → After (Kept v) (coroutine_swap rsp cur next w)
  unfolding coroutine_swap
  coroutine_swap-Kept rsp cur next w k =
      After-bind _ _ (swap_out-Kept rsp cur next w k) λ w1 k1. jump_2_context-Kept cur next w1 k1

  co_start-Kept : (rsp co : Ptr) (w : World) → Kept v w → After (Kept v) (co_start rsp co w)
  unfolding co_start set_scheduler
  co_start-Kept rsp co w k =
      let process = (get_current_process_scheduler w).0 in
      After-bind _ _ (result_of (fetch process.allcos_ process.co_index_)) λ last_co u.
        After-bind _ _ (result_of (assign process.allcos_ (process.co_index_ + 1) co))
          λ allcos u. coroutine_swap-Kept rsp last_co co _ (get_current-Kept w k)

  co_yield-Kept : (rsp : Ptr) (w : World) → Kept v w → After (Kept v) (co_yield rsp w)
  unfolding co_yield set_scheduler
  co_yield-Kept rsp w k =
      let process = (get_current_process_scheduler w).0 in
      After-bind _ _ (result_of (fetch process.allcos_ process.co_index_)) λ curl u.
        After-bind _ _
          (result_of (
            if process.co_index_ == 0
            then fault out_of_bounds
            else fetch process.allcos_ (process.co_index_ - 1)))
          λ last u. coroutine_swap-Kept rsp curl last _ (get_current-Kept w k)

  routine_end-Kept : (rsp co : Ptr) (w : World) → Kept v w → After (Kept v) (routine_end rsp co w)
  unfolding routine_end set_context
  routine_end-Kept rsp co w k =
      After-bind _ _ (result_of (deref w.contexts co)) λ c u. co_yield-Kept rsp _ k

-- Calls that only create or free.
module _ where
  free-commons : (p : Ptr) (w : World) → After (λ w'. w'.commons ≡ w.commons) (free p w)
  unfolding free
  free-commons p w = After-if (w.blocks p) _ _ (ended refl) stopped

  free_if-commons :
      (b : Bool) (p : Ptr) (w : World)
      → After (λ w'. w'.commons ≡ w.commons) (if b then free p w else ok w)
  free_if-commons b p w = After-if b _ _ (free-commons p w) (ended refl)

  NoOwner-same : (w w' : World) → w'.commons ≡ w.commons → NoOwner w → NoOwner w'
  NoOwner-same w w' e h p m f = h p m (ap (λ t. t p) (sym e) ∙ f)

  clear_stack-NoOwner : (ctx : Ptr) (w : World) → NoOwner w → After NoOwner (clear_stack ctx w)
  unfolding clear_stack
  clear_stack-NoOwner ctx w h = After-bind _ _ (result_of (deref w.contexts ctx)) λ c u.
      After-bind {Q = NoOwner} _ _
        (After-if c.is_shared_stack _ _
          (After-bind _ _ (result_of (deref w.shareds c.co_shared_stack)) λ s u.
            After-bind _ _ (free_if-commons (not (s.buf == null)) s.buf w) λ w1 e.
              After-bind _ _ (free-commons c.co_shared_stack w1)
                λ w2 e2. ended (NoOwner-same w w2 (e2 ∙ e) h))
          (After-mono (λ w1 e. NoOwner-same w w1 e h)
            (free_if-commons (not (c.co_stack.buf == null)) c.co_stack.buf w)))
        λ w1 h1. After-bind _ _ (free-commons ctx w1) λ w2 e. ended (NoOwner-same w1 w2 e h1)

  put-NoOwner :
      (w w' : World) (st : Ptr) (m : Option CommonSharedStack)
      → ((x : CommonSharedStack) → m ≡ some x → x.cur_co ≡ null)
      → w'.commons ≡ put w.commons st m
      → NoOwner w
      → NoOwner w'
  unfolding put
  put-NoOwner w w' st m fine e h p x f =
      let there : (if p == st then m else w.commons p) ≡ some x = ap (λ t. t p) (sym e) ∙ f in
      elim (Bool-cases (p == st)) [
        | inl here ↦ fine x (ground (arith, there))
        | inr other ↦ h p x (ground (arith, there))
      ]

  perform-NoOwner : (c : Call) (w : World) → NoOwner w → After NoOwner (perform c w)
  unfolding perform co_create create_shared_stack co_create_shared_stack shared_stack_free
      set_context set_shared malloc
  perform-NoOwner (start rsp co) w h =
      After-mono (λ w' k. k.0) (co_start-Kept w rsp co w (Kept-refl w h))
  perform-NoOwner (yield rsp) w h = After-mono (λ w' k. k.0) (co_yield-Kept w rsp w (Kept-refl w h))
  perform-NoOwner (finish rsp co) w h =
      After-mono (λ w' k. k.0) (routine_end-Kept w rsp co w (Kept-refl w h))
  perform-NoOwner (create routine args) w h =
      ended (NoOwner-same w (co_create routine args w).1 ((get_current-same w).0) h)
  perform-NoOwner (create_stack size) w h =
      ended (put-NoOwner w (create_shared_stack size w).1 w.fresh _ (λ x e. ground arith) refl h)
  perform-NoOwner (create_on junk routine args st) w h =
      After-bind _ _
        (After-bind {P = λ r. r.1.commons ≡ w.commons} _ _ (result_of (deref w.commons st))
          λ m u. ended refl)
        λ r e. ended (NoOwner-same w r.1 e h)
  perform-NoOwner (clear ctx) w h = clear_stack-NoOwner ctx w h
  perform-NoOwner (free_stack st) w h = After-bind _ _ (result_of (deref w.commons st)) λ m u.
      After-bind _ _ (free-commons m.stack_buf w) λ w1 e1.
        After-bind _ _ (free-commons st w1) λ w2 e2. ended (
          put-NoOwner w2 (record w2 { commons = put w2.commons st none }) st none
            (λ x e. ground arith) refl (NoOwner-same w w2 (e2 ∙ e1) h))

  after_ok : {A : Type 0} {P : A → Type 0} (m : Run A) (a : A) → After P m → m ≡ ok a → P a
  after_ok {P = P} m a (ended h) e = subst P (ok_injective e) h
  after_ok m a stopped e = absurd (ground (arith, e))

-- From a world without shared stacks, every world that calls lead to has `cur_co` NULL in all of
-- them: nothing ever enters a coroutine there.
pub Reach-NoOwner : {w v : World} → NoOwner w → Reach w v → NoOwner v
Reach-NoOwner h begun = h
Reach-NoOwner h (called {u} {v} c r e) =
    after_ok (perform c u) v (perform-NoOwner c u (Reach-NoOwner h r)) e

-- The calls that switch to another coroutine.
pub data IsSwitch : Call → Type 0 where
  by_start : (rsp co : Ptr) → IsSwitch (start rsp co)
  by_yield : (rsp : Ptr) → IsSwitch (yield rsp)
  by_finish : (rsp co : Ptr) → IsSwitch (finish rsp co)

switch-Kept : {c : Call} (w : World) → IsSwitch c → NoOwner w → After (Kept w) (perform c w)
unfolding perform
switch-Kept w (by_start rsp co) h = co_start-Kept w rsp co w (Kept-refl w h)
switch-Kept w (by_yield rsp) h = co_yield-Kept w rsp w (Kept-refl w h)
switch-Kept w (by_finish rsp co) h = routine_end-Kept w rsp co w (Kept-refl w h)

-- In every world that calls lead to from one where no shared stack has a coroutine in `cur_co`, a
-- switch that ends without a fault leaves what is recorded of every shared stack as it was, its
-- `rsp` apart, and it leaves every byte of memory as it was that lies in no range from the base of a
-- shared stack up over the `len` recorded for it. So where the memory for saved contents lies
-- outside these ranges, nothing is saved there.
pub switch-SameSaved :
    {w v v' : World} {c : Call}
    → NoOwner w
    → Reach w v
    → IsSwitch c
    → perform c v ≡ ok v'
    → SameSaved v v'
switch-SameSaved {v} {v'} {c} h r i e =
    let k = after_ok (perform c v) v' (switch-Kept v i (Reach-NoOwner h r)) e in (k.2, k.3)
