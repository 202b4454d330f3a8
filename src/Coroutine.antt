-- ===== src/Coroutine.antt =====
-- co/coroutine_ctx.c and co/process_scheduler.c: coroutines, their stacks and their scheduler.
-- The objects that `malloc` gives stand in a table for each type, the bytes of the stacks in
-- `bytes`, and `fresh` is the next free address. `malloc` succeeds; what it gives holds what the
-- argument `junk` says until it is written. `free` of what is not allocated is a fault.
-- `jump_2_context` saves where `cur` stands and goes on where `pending` stood: at the start of its
-- routine, or behind its own jump. What a routine does in between is the calls that it makes.
pub mod Switch
pub mod Stack
pub mod Saved
pub mod Create
pub mod Nested
mod Tests
use my_little_tool.Prelude.{
  ℕ, zero, suc, ◌≡◌, ◌+◌, ◌-◌, ◌*◌, ◌/◌, ◌%◌, ◌^◌, Bool, true, false, ◌&&◌, not, Option, none, some,
  List, ltb, leb, ◌==◌, if◌then◌else◌, set, replicate, Run, ok, fault, null_pointer, out_of_bounds,
  use_after_free, ◌>>=◌, fetch, assign,
}

abbrev pub Ptr : Type 0
Ptr = ℕ

abbrev pub null : Ptr
null = 0

-- What the saved instruction pointer of a coroutine says.
pub data Place : Type 0 where
  nowhere routine_start behind_jump : Place

pub record CorotineStack : Type 0 where
  pub reg_rsp : ℕ
  pub reg_rbp : ℕ
  pub reg_rip : Place
  pub reg_rdi : Ptr
  pub buf : Ptr
  pub rbp : Ptr

pub record CommonSharedStack : Type 0 where
  pub cur_co : Ptr
  pub stack_buf : Ptr
  pub stack_size : ℕ
  pub co_shared_rbp : Ptr

pub record SharedStack : Type 0 where
  pub rsp : Ptr
  pub len : ℕ
  pub buf : Ptr
  pub common_stack : Ptr

pub record Context : Type 0 where
  pub routine : ℕ
  pub args : ℕ
  pub is_shared_stack : Bool
  pub is_beg : Bool
  pub is_end : Bool
  pub co_stack : CorotineStack
  pub co_shared_stack : Ptr

pub record ProcessScheduler : Type 0 where
  pub allcos_ : List Ptr
  pub co_index_ : ℕ
  pub co_stack_size : ℕ

pub record World : Type 0 where
  pub contexts : Ptr → Option Context
  pub shareds : Ptr → Option SharedStack
  pub commons : Ptr → Option CommonSharedStack
  pub blocks : Ptr → Bool
  pub bytes : ℕ → ℕ
  pub fresh : Ptr
  pub scheduler : Option ProcessScheduler

-- `*p` in one of the tables, and writing it
unfoldable pub deref {ℓ} : {A : Type ℓ} → (Ptr → Option A) → Ptr → Run A
deref table p =
    if p == null
    then fault null_pointer
    else elim (table p) [ none ↦ fault use_after_free | some x ↦ ok x ]

unfoldable pub put {ℓ} : {A : Type ℓ} → (Ptr → Option A) → Ptr → Option A → Ptr → Option A
put table p x q = if q == p then x else table q

unfoldable pub set_context : Ptr → Context → World → World
set_context p c w = record w { contexts = put w.contexts p (some c) }

unfoldable pub set_shared : Ptr → SharedStack → World → World
set_shared p s w = record w { shareds = put w.shareds p (some s) }

unfoldable pub malloc : ℕ → World → Ptr × World
malloc size w = (
  w.fresh,
  record w { fresh = w.fresh + size; blocks = λ p. if p == w.fresh then true else w.blocks p },
)

unfoldable pub free : Ptr → World → Run World
free p w =
    if w.blocks p
    then ok (record w { blocks = λ q. if q == p then false else w.blocks q })
    else fault use_after_free

unfoldable pub memcpy_bytes : Ptr → Ptr → ℕ → World → World
memcpy_bytes to from len w = record w {
  bytes = λ a. if leb to a && ltb a (to + len) then w.bytes (from + (a - to)) else w.bytes a;
}

abbrev pub zero_stack : CorotineStack
zero_stack = record {
  reg_rsp = 0;
  reg_rbp = 0;
  reg_rip = nowhere;
  reg_rdi = null;
  buf = null;
  rbp = null;
}

abbrev pub zero_context : Context
zero_context = record {
  routine = 0;
  args = 0;
  is_shared_stack = false;
  is_beg = false;
  is_end = false;
  co_stack = zero_stack;
  co_shared_stack = null;
}

-- `(void*)((size_t)p&(-16L))`
unfoldable pub align : ℕ → ℕ
align p = p - p % 16

unfoldable pub process_scheduler_init : World → ProcessScheduler × World
process_scheduler_init w =
    let (main_co, w1) = malloc 1 w in
    (
      record {
        allcos_ = set (replicate 128 null) 0 main_co;
        co_index_ = 0;
        co_stack_size = 1024 * 1024;
      },
      set_context main_co zero_context w1,
    )

unfoldable pub get_current_process_scheduler : World → ProcessScheduler × World
get_current_process_scheduler w = elim w.scheduler [
  | some s ↦ (s, w)
  | none ↦ let (s, w1) = process_scheduler_init w in (s, record w1 { scheduler = some s })
]

unfoldable pub save_shared_stack : Ptr → World → Run World
save_shared_stack co w = do
  c ← deref w.contexts co
  s ← deref w.shareds c.co_shared_stack
  common ← deref w.commons s.common_stack
  let len = (common.co_shared_rbp + 2 ^ 64 - s.rsp) % 2 ^ 64
  w1 ← if not (s.buf == null) then free s.buf w else ok w
  let (buf, w2) = malloc len w1
  ok (
      memcpy_bytes buf s.rsp len
        (set_shared c.co_shared_stack (record s { buf = buf; len = len }) w2))

unfoldable pub resume_shared_stack : Ptr → World → Run World
resume_shared_stack co w = do
  c ← deref w.contexts co
  s ← deref w.shareds c.co_shared_stack
  common ← deref w.commons s.common_stack
  ok (memcpy_bytes common.co_shared_rbp s.buf s.len w)

-- `coroutine_swap` before the jump; `rsp` is the address of its local variable.
unfoldable pub swap_out : Ptr → Ptr → Ptr → World → Run World
swap_out rsp cur next w = do
  c ← deref w.contexts cur
  w1 ←
      if c.is_shared_stack
      then (do
        s ← deref w.shareds c.co_shared_stack
        ok (set_shared c.co_shared_stack (record s { rsp = rsp }) w))
      else ok w
  n ← deref w1.contexts next
  if n.is_shared_stack
      then (do
        s ← deref w1.shareds n.co_shared_stack
        common ← deref w1.commons s.common_stack
        if not (common.cur_co == null) then save_shared_stack common.cur_co w1 else ok w1)
      else ok w1

-- `coroutine_swap` behind the jump
unfoldable pub swap_in : World → Run World
swap_in w = do
  let (process, w1) = get_current_process_scheduler w
  cur_co ← fetch process.allcos_ process.co_index_
  c ← deref w1.contexts cur_co
  if c.is_shared_stack
      then (do
        s ← deref w1.shareds c.co_shared_stack
        if not (s.buf == null) && ltb 0 s.len then resume_shared_stack cur_co w1 else ok w1)
      else ok w1

-- `RoutineStartFun` up to the call of the routine
unfoldable pub routine_begin : Ptr → World → Run World
routine_begin co w = do c ← deref w.contexts co; ok (set_context co (record c { is_beg = true }) w)

-- Going on at a place, with the registers of `next`.
unfoldable pub go_on : Place → Context → World → Run World
go_on nowhere next w = fault null_pointer
go_on routine_start next w = routine_begin next.co_stack.reg_rdi w
go_on behind_jump next w = swap_in w

unfoldable pub jump_2_context : Ptr → Ptr → World → Run World
jump_2_context cur next w = do
  c ← deref w.contexts cur
  let w1 = set_context cur (record c { co_stack = record c.co_stack { reg_rip = behind_jump } }) w
  n ← deref w1.contexts next
  go_on n.co_stack.reg_rip n w1

unfoldable pub coroutine_swap : Ptr → Ptr → Ptr → World → Run World
coroutine_swap rsp cur next w = do w1 ← swap_out rsp cur next w; jump_2_context cur next w1

unfoldable pub set_scheduler : ProcessScheduler → World → World
set_scheduler s w = record w { scheduler = some s }

unfoldable pub co_yield : Ptr → World → Run World
co_yield rsp w = do
  let (process, w1) = get_current_process_scheduler w
  curl ← fetch process.allcos_ process.co_index_
  last ←
      if process.co_index_ == 0
      then fault out_of_bounds
      else fetch process.allcos_ (process.co_index_ - 1)
  coroutine_swap rsp curl last
      (set_scheduler (record process { co_index_ = process.co_index_ - 1 }) w1)

-- `RoutineStartFun` behind the call of the routine
unfoldable pub routine_end : Ptr → Ptr → World → Run World
routine_end rsp co w = do
  c ← deref w.contexts co
  co_yield rsp (set_context co (record c { is_end = true }) w)

unfoldable pub co_create : ℕ → ℕ → World → Ptr × World
co_create routine args w =
    let (process, w0) = get_current_process_scheduler w in
    let (co, w1) = malloc 1 w0 in
    let (buf, w2) = malloc process.co_stack_size w1 in
    let base = buf + process.co_stack_size in
    (
      co,
      set_context co
          (record {
            routine = routine;
            args = args;
            is_shared_stack = false;
            is_beg = false;
            is_end = false;
            co_stack = record {
              reg_rsp = align (base - 8);
              reg_rbp = 0;
              reg_rip = routine_start;
              reg_rdi = co;
              buf = buf;
              rbp = base;
            };
            co_shared_stack = null;
          })
          w2,
    )

unfoldable pub co_start : Ptr → Ptr → World → Run World
co_start rsp co w = do
  let (process, w1) = get_current_process_scheduler w
  last_co ← fetch process.allcos_ process.co_index_
  allcos ← assign process.allcos_ (process.co_index_ + 1) co
  coroutine_swap rsp last_co co
      (set_scheduler (record process { allcos_ = allcos; co_index_ = process.co_index_ + 1 }) w1)

unfoldable pub create_shared_stack : ℕ → World → Ptr × World
create_shared_stack size w =
    let (shared_st, w1) = malloc 1 w in
    let size1 = if ltb size (1024 * 1024) then 8 * 1024 * 1024 else size in
    let (buf, w2) = malloc size1 w1 in
    (
      shared_st,
      record w2 {
        commons = put w2.commons shared_st (
            some (record {
              cur_co = null;
              stack_buf = buf;
              stack_size = size1;
              co_shared_rbp = align (buf + size1 - 8);
            }));
      },
    )

unfoldable pub shared_stack_free : Ptr → World → Run World
shared_stack_free st w = do
  common ← deref w.commons st
  w1 ← free common.stack_buf w
  w2 ← free st w1
  ok (record w2 { commons = put w2.commons st none })

-- `junk` is what the memory for the `shared_stack` holds.
unfoldable pub co_create_shared_stack : SharedStack → ℕ → ℕ → Ptr → World → Run (Ptr × World)
co_create_shared_stack junk routine args shared_st w = do
  let (co, w1) = malloc 1 w
  let (shared, w2) = malloc 1 w1
  common ← deref w2.commons shared_st
  ok (
    co,
    set_context co
        (record {
          routine = routine;
          args = args;
          is_shared_stack = true;
          is_beg = false;
          is_end = false;
          co_stack = record {
            reg_rsp = common.co_shared_rbp;
            reg_rbp = 0;
            reg_rip = routine_start;
            reg_rdi = co;
            buf = null;
            rbp = null;
          };
          co_shared_stack = shared;
        })
        (set_shared shared (record junk { common_stack = shared_st }) w2),
  )

unfoldable pub clear_stack : Ptr → World → Run World
clear_stack ctx w = do
  c ← deref w.contexts ctx
  w1 ←
      if c.is_shared_stack
      then (do
        s ← deref w.shareds c.co_shared_stack
        w1 ← if not (s.buf == null) then free s.buf w else ok w
        w2 ← free c.co_shared_stack w1
        ok (record w2 { shareds = put w2.shareds c.co_shared_stack none }))
      else (if not (c.co_stack.buf == null) then free c.co_stack.buf w else ok w)
  w2 ← free ctx w1
  ok (record w2 { contexts = put w2.contexts ctx none })

-- The calls that a program makes.
pub data Call : Type 0 where
  start : Ptr → Ptr → Call
  yield : Ptr → Call
  finish : Ptr → Ptr → Call
  create : ℕ → ℕ → Call
  create_stack : ℕ → Call
  create_on : SharedStack → ℕ → ℕ → Ptr → Call
  clear : Ptr → Call
  free_stack : Ptr → Call

unfoldable pub perform : Call → World → Run World
perform (start rsp co) w = co_start rsp co w
perform (yield rsp) w = co_yield rsp w
perform (finish rsp co) w = routine_end rsp co w
perform (create routine args) w = ok (co_create routine args w).1
perform (create_stack size) w = ok (create_shared_stack size w).1
perform (create_on junk routine args st) w =
    co_create_shared_stack junk routine args st w >>= λ r. ok r.1
perform (clear ctx) w = clear_stack ctx w
perform (free_stack st) w = shared_stack_free st w

-- What a program reaches by its calls.
pub data Reach (w : World) : World → Type 0 where
  begun : Reach w w
  called : {u v : World} (c : Call) → Reach w u → perform c u ≡ ok v → Reach w v
