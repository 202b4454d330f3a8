-- ===== src/Coroutine/Switch.antt =====
-- Starting a coroutine and coming back, and the ends of the scheduler's array.
use my_little_tool.Prelude.{
  ℕ, ◌+◌, ◌-◌, ◌<◌, ◌≡◌, ◌≢◌, refl, ap, ◌∙◌, arith, some, true, false, ◌==◌, ltb, set, length, cell,
  ok, fault, out_of_bounds, fetch, assign, fetch-ok, assign-ok,
}
use my_little_tool.Coroutine.{
  Ptr, null, routine_start, behind_jump, Context, ProcessScheduler, World, put, set_context,
  set_scheduler, get_current_process_scheduler, swap_out, swap_in, go_on, routine_begin,
  jump_2_context, coroutine_swap, co_start, co_yield, routine_end,
}
use my_little_tool.Coroutine.Stack.{deref-ok}

-- Entry `i` of the scheduler's array.
abbrev pub entry : ProcessScheduler → ℕ → Ptr
entry s i = cell null s.allcos_ i

-- A coroutine with a stack of its own.
pub record Own (w : World) (p : Ptr) (c : Context) : Type 0 where
  pub ne : p ≢ null
  pub at : w.contexts p ≡ some c
  pub own : c.is_shared_stack ≡ false

pub get_current_some :
    (w : World) (s : ProcessScheduler)
    → w.scheduler ≡ some s
    → get_current_process_scheduler w ≡ (s, w)
unfolding get_current_process_scheduler
get_current_some w s e = rw e refl

module _ (rsp : Ptr) (w : World) (s : ProcessScheduler) (at : w.scheduler ≡ some s)
    (full : length s.allcos_ ≡ 128) where
  -- Starting a coroutine inside 127 others writes behind the array of the scheduler.
  pub co_start_deep : (co : Ptr) → s.co_index_ ≡ 127 → co_start rsp co w ≡ fault out_of_bounds
  unfolding co_start assign
  co_start_deep co deep =
      let in_array : s.co_index_ < length s.allcos_ = omega arith in
      let outside : ltb (s.co_index_ + 1) (length s.allcos_) ≡ false = ground arith in
      rw (get_current_some w s at, fetch-ok null s.allcos_ s.co_index_ in_array, outside) refl

  -- Yielding in the main coroutine reads in front of the array of the scheduler.
  pub co_yield_main : s.co_index_ ≡ 0 → co_yield rsp w ≡ fault out_of_bounds
  unfolding co_yield
  co_yield_main main =
      let in_array : s.co_index_ < length s.allcos_ = omega arith in
      let first : (s.co_index_ == 0) ≡ true = ground arith in
      rw (get_current_some w s at, fetch-ok null s.allcos_ s.co_index_ in_array, first) refl

swap_out-Own :
    (rsp p q : Ptr) (w : World) (c n : Context) → Own w p c → Own w q n → swap_out rsp p q w ≡ ok w
unfolding swap_out
swap_out-Own rsp p q w c n h k =
    rw (deref-ok w.contexts p c h.ne h.at, h.own, deref-ok w.contexts q n k.ne k.at, k.own) refl

-- What a context is after a jump away from it.
abbrev pub left : Context → Context
left c = record c { co_stack = record c.co_stack { reg_rip = behind_jump } }

jump_2_context-Own :
    (p q : Ptr) (w : World) (c n : Context)
    → p ≢ q
    → Own w p c
    → Own w q n
    → jump_2_context p q w ≡ go_on n.co_stack.reg_rip n (set_context p (left c) w)
unfolding jump_2_context set_context put
jump_2_context-Own p q w c n ne h k =
    let other : (q == p) ≡ false = ground arith in
    let there : (set_context p (left c) w).contexts q ≡ some n = rw other k.at in
    rw (deref-ok w.contexts p c h.ne h.at, deref-ok _ q n k.ne there) refl

still :
    (p q : Ptr) (c n : Context) (w : World)
    → p ≢ q
    → w.contexts q ≡ some n
    → (set_context p c w).contexts q ≡ some n
unfolding set_context put
still p q c n w ne e = let other : (q == p) ≡ false = ground arith in rw other e

Own-same :
    (w w' : World) (p : Ptr) (c : Context) → w'.contexts ≡ w.contexts → Own w p c → Own w' p c
Own-same w w' p c e h = record { ne = h.ne; at = ap (λ t. t p) e ∙ h.at; own = h.own }

pub Own-still :
    (p q : Ptr) (c n : Context) (w : World) → p ≢ q → Own w q n → Own (set_context p c w) q n
Own-still p q c n w ne h = record { ne = h.ne; at = still p q c n w ne h.at; own = h.own }

pub Own-new :
    (p : Ptr) (c : Context) (w : World)
    → p ≢ null
    → c.is_shared_stack ≡ false
    → Own (set_context p c w) p c
unfolding set_context put
Own-new p c w ne own = record {
  ne = ne;
  at = (let same : (p == p) ≡ true = ground arith in rw same refl);
  own = own;
}

coroutine_swap-Own :
    (rsp p q : Ptr) (w : World) (c n : Context)
    → p ≢ q
    → Own w p c
    → Own w q n
    → coroutine_swap rsp p q w ≡ go_on n.co_stack.reg_rip n (set_context p (left c) w)
unfolding coroutine_swap
coroutine_swap-Own rsp p q w c n ne h k =
    rw (swap_out-Own rsp p q w c n h k) (jump_2_context-Own p q w c n ne h k)

-- At the start of a routine, `RoutineStartFun` begins with the coroutine in RDI.
go_on_start :
    (n : Context) (w : World) (co : Ptr)
    → n.co_stack.reg_rip ≡ routine_start
    → n.co_stack.reg_rdi ≡ co
    → go_on n.co_stack.reg_rip n w ≡ routine_begin co w
unfolding go_on
go_on_start n w co first self = ap (λ r. go_on r n w) first ∙ ap (λ p. routine_begin p w) self

-- Behind the jump of a coroutine with a stack of its own, nothing is copied.
swap_in-Own :
    (w : World) (s : ProcessScheduler) (cur : Ptr) (c : Context)
    → w.scheduler ≡ some s
    → fetch s.allcos_ s.co_index_ ≡ ok cur
    → Own w cur c
    → swap_in w ≡ ok w
unfolding swap_in
swap_in-Own w s cur c at here h =
    rw (get_current_some w s at, here, deref-ok w.contexts cur c h.ne h.at, h.own) refl

-- The scheduler with one coroutine more.
abbrev pub pushed : ProcessScheduler → Ptr → ProcessScheduler
pushed s co = record s { allcos_ = set s.allcos_ (s.co_index_ + 1) co; co_index_ = s.co_index_ + 1 }

-- The world in which a coroutine has just begun.
abbrev pub inside : World → ProcessScheduler → Ptr → Context → Ptr → Context → World
inside w s cur c co d =
    set_context co (record d { is_beg = true })
      (set_context cur (left c) (set_scheduler (pushed s co) w))

module _ (w : World) (s : ProcessScheduler) (cur co : Ptr) (c d : Context)
    (at : w.scheduler ≡ some s) (room : s.co_index_ + 1 < length s.allcos_)
    (now : entry s s.co_index_ ≡ cur) (ne : cur ≢ co) (h : Own w cur c) (k : Own w co d) where
  pub co_start-Own :
      (rsp : Ptr)
      → d.co_stack.reg_rip ≡ routine_start
      → d.co_stack.reg_rdi ≡ co
      → co_start rsp co w ≡ ok (inside w s cur c co d)
  unfolding co_start routine_begin set_scheduler
  co_start-Own rsp first self =
      let here : fetch s.allcos_ s.co_index_ ≡ ok cur =
        fetch-ok null s.allcos_ s.co_index_ (omega arith) ∙ ap ok now in
      let w1 = set_scheduler (pushed s co) w in
      let other : (co == cur) ≡ false = ground arith in
      let there : (set_context cur (left c) w1).contexts co ≡ some d =
        still cur co (left c) d w1 ne k.at in
      rw
        (
          get_current_some w s at,
          here,
          assign-ok s.allcos_ (s.co_index_ + 1) co room,
          coroutine_swap-Own rsp cur co w1 c d ne (Own-same w w1 cur c refl h)
              (Own-same w w1 co d refl k),
          go_on_start d _ co first self,
          deref-ok _ co d k.ne there,
        )
        refl

-- The scheduler with its index one lower.
abbrev pub popped : ProcessScheduler → ProcessScheduler
popped s = record s { co_index_ = s.co_index_ - 1 }

-- The world after the end of the routine of `co`.
abbrev pub outside : World → ProcessScheduler → Ptr → Context → World
outside w s co d =
    set_context co (left (record d { is_end = true }))
      (set_scheduler (popped s) (set_context co (record d { is_end = true }) w))

pub routine_end-Own :
    (rsp : Ptr) (w : World) (s : ProcessScheduler) (i : ℕ) (cur co : Ptr) (c d : Context)
    → w.scheduler ≡ some s
    → s.co_index_ ≡ i + 1
    → i + 1 < length s.allcos_
    → entry s i ≡ cur
    → entry s (i + 1) ≡ co
    → co ≢ cur
    → Own w cur c
    → c.co_stack.reg_rip ≡ behind_jump
    → Own w co d
    → routine_end rsp co w ≡ ok (outside w s co d)
unfolding routine_end co_yield set_scheduler set_context go_on
routine_end-Own rsp w s i cur co c d at index room below now ne h back k =
    let w1 = set_context co (record d { is_end = true }) w in
    let w2 = set_scheduler (popped s) w1 in
    let here : fetch s.allcos_ s.co_index_ ≡ ok co =
      fetch-ok null s.allcos_ s.co_index_ (omega arith)
      ∙ ap (λ j. ok (entry s j)) index
      ∙ ap ok now in
    let lower : s.co_index_ - 1 ≡ i = omega arith in
    let under : fetch s.allcos_ (s.co_index_ - 1) ≡ ok cur =
      fetch-ok null s.allcos_ (s.co_index_ - 1) (omega arith)
      ∙ ap (λ j. ok (entry s j)) lower
      ∙ ap ok below in
    let inner : (s.co_index_ == 0) ≡ false = ground arith in
    let k1 : Own w2 co (record d { is_end = true }) =
      Own-same w1 w2 co _ refl (Own-new co (record d { is_end = true }) w k.ne k.own) in
    let h1 : Own w2 cur c =
      Own-same w1 w2 cur c refl (Own-still co cur (record d { is_end = true }) c w ne h) in
    rw
      (
        deref-ok w.contexts co d k.ne k.at,
        get_current_some w1 s at,
        here,
        inner,
        under,
        coroutine_swap-Own rsp co cur w2 (record d { is_end = true }) c ne k1 h1,
      )
      (ap (λ r. go_on r c (outside w s co d)) back
        ∙ swap_in-Own (outside w s co d) (popped s) cur c refl under
            (Own-still co cur (left (record d { is_end = true })) c w2 ne h1))
