-- ===== src/Coroutine/Create.antt =====
-- A coroutine that `co_create` makes, and its stack.
use my_little_tool.Prelude.{
  ℕ, ◌+◌, ◌-◌, ◌%◌, ◌≤◌, ◌<◌, ◌≡◌, ◌≢◌, refl, arith, some, ◌==◌, false, true,
}
use my_little_tool.Coroutine.{
  Ptr, null, routine_start, Context, ProcessScheduler, World, put, malloc, align, set_context,
  co_create,
}
use my_little_tool.Coroutine.Switch.{Own, get_current_some}

-- A new coroutine: it stands at the start of its routine, with its stack pointer on a multiple of 16
-- inside its stack and room for a word above it.
pub record IsNew (size : ℕ) (routine args : ℕ) (w : World) (co : Ptr) (w' : World) (d : Context)
    : Type 0 where
  pub address : co ≡ w.fresh
  pub own : Own w' co d
  pub called : (d.routine ≡ routine) × (d.args ≡ args)
  pub flags : (d.is_beg ≡ false) × (d.is_end ≡ false)
  pub begins : (d.co_stack.reg_rip ≡ routine_start) × (d.co_stack.reg_rdi ≡ co)
  pub aligned : d.co_stack.reg_rsp % 16 ≡ 0
  pub inside : (d.co_stack.buf ≤ d.co_stack.reg_rsp) × (d.co_stack.reg_rsp + 8 ≤ d.co_stack.rbp)
  pub base : d.co_stack.rbp ≡ d.co_stack.buf + size
  pub unused : w.fresh ≤ d.co_stack.buf
  pub others : (p : Ptr) → p < w.fresh → w'.contexts p ≡ w.contexts p
  pub scheduler : w'.scheduler ≡ w.scheduler

pub co_create-IsNew :
    (routine args : ℕ) (w : World) (s : ProcessScheduler)
    → w.scheduler ≡ some s
    → 24 ≤ s.co_stack_size
    → w.fresh ≢ null
    → let (co, w') = co_create routine args w in
      (d : Context) × IsNew s.co_stack_size routine args w co w' d
unfolding co_create set_context put malloc align
co_create-IsNew routine args w s at big some_fresh =
    let same : (w.fresh == w.fresh) ≡ true = ground arith in
    let base = w.fresh + 1 + s.co_stack_size in
    let made : Context = record {
      routine = routine;
      args = args;
      is_shared_stack = false;
      is_beg = false;
      is_end = false;
      co_stack = record {
        reg_rsp = align (base - 8);
        reg_rbp = 0;
        reg_rip = routine_start;
        reg_rdi = w.fresh;
        buf = w.fresh + 1;
        rbp = base;
      };
      co_shared_stack = null;
    } in
    rw (get_current_some w s at) (
      made,
      record {
        address = refl;
        own = record { ne = some_fresh; at = (rw same refl); own = refl };
        called = (refl, refl);
        flags = (refl, refl);
        begins = (refl, refl);
        aligned = omega arith;
        inside = (omega arith, omega arith);
        base = refl;
        unused = omega arith;
        others = λ p l. let e : (p == w.fresh) ≡ false = ground arith in (rw e refl);
        scheduler = refl;
      },
    )
