-- ===== src/Coroutine/Tests.antt =====
-- Runs of coroutines on small states, and the theorems at concrete inputs.
use my_little_tool.Prelude.{
  ℕ, ◌+◌, ◌*◌, ◌%◌, ◌≤◌, ◌<◌, ◌≡◌, refl, arith, true, fault, cell, fetch, assign, none, some, false,
  ok, Returns,
}
use my_little_tool.Coroutine.{
  Context, SharedStack, CommonSharedStack, ProcessScheduler, World, zero_context,
  process_scheduler_init, set_context, put, malloc, align, deref, set_shared, set_scheduler,
  coroutine_swap, swap_out, jump_2_context, go_on, routine_begin, perform, start, create_on,
  create_stack, Call, get_current_process_scheduler, co_start, create_shared_stack,
  co_create_shared_stack, resume_shared_stack, begun, called,
}
use my_little_tool.Coroutine.Nested.{Script, ends, starts, run_script, Ran, run_script-Ran}
use my_little_tool.Coroutine.Stack.{create_shared_stack_bounds, resume_leaves}
use my_little_tool.Coroutine.Saved.{SameSaved, by_start, switch-SameSaved}

abbrev nothing : World
nothing = record {
  contexts = λ _. none;
  shareds = λ _. none;
  commons = λ _. none;
  blocks = λ _. false;
  bytes = λ a. a % 256;
  fresh = 4096;
  scheduler = none;
}

-- The main coroutine runs.
abbrev main_runs : World
main_runs = (get_current_process_scheduler nothing).1

abbrev main_scheduler : ProcessScheduler
main_scheduler = (get_current_process_scheduler nothing).0

-- A coroutine that starts another, and then a third one.
abbrev three_coroutines : Script
three_coroutines =
    starts 70000 71000 5 6 (starts 72000 73000 7 8 ends ends) (starts 74000 75000 9 10 ends ends)

run_script-Ran_example :
    Returns
      (run_script three_coroutines main_runs)
      (Ran 128 main_runs main_scheduler 0 4096 zero_context)
unfolding get_current_process_scheduler process_scheduler_init set_context put malloc cell
run_script-Ran_example =
    run_script-Ran three_coroutines 128 main_runs main_scheduler 0 4096 zero_context
      (record {
        at = refl;
        size = refl;
        stack = omega arith;
        index = refl;
        now = refl;
        own = record { ne = (omega arith); at = refl; own = refl };
        old = omega arith;
      })
      (omega arith, (omega arith, tt, tt), (omega arith, tt, tt))

create_shared_stack_bounds_example :
    (m : CommonSharedStack) × ((create_shared_stack 0 main_runs).1.commons
        (create_shared_stack 0 main_runs).0
      ≡ some m)
    × (m.co_shared_rbp % 16 ≡ 0)
    × (m.stack_buf ≤ m.co_shared_rbp)
    × (m.co_shared_rbp + 8 ≤ m.stack_buf + m.stack_size)
    × (1024 * 1024 ≤ m.stack_size)
    × (0 ≤ m.stack_size)
    × ((create_shared_stack 0 main_runs).1.blocks m.stack_buf ≡ true)
    × (main_runs.fresh ≤ m.stack_buf)
    × (m.stack_buf + m.stack_size ≡ (create_shared_stack 0 main_runs).1.fresh)
create_shared_stack_bounds_example = create_shared_stack_bounds 0 main_runs

-- A coroutine with three saved bytes of a shared stack.
abbrev on_shared : Context
on_shared = record zero_context { is_shared_stack = true; co_shared_stack = 200 }

abbrev three_saved : SharedStack
three_saved = record { rsp = 6000; len = 3; buf = 300; common_stack = 400 }

abbrev whole_stack : CommonSharedStack
whole_stack = record { cur_co = 100; stack_buf = 5000; stack_size = 1024; co_shared_rbp = 6000 }

abbrev saved_before : World
saved_before = record nothing {
  contexts = λ _. some on_shared;
  shareds = λ _. some three_saved;
  commons = λ _. some whole_stack;
}

resume_leaves_example : Returns (resume_shared_stack 100 saved_before) (λ w.
    ((i : ℕ) → i < 3 → w.bytes (6000 + i) ≡ saved_before.bytes (300 + i))
    × ((a : ℕ) → a < 6000 → w.bytes a ≡ saved_before.bytes a)
    × ((a : ℕ) → 6000 + 3 ≤ a → w.bytes a ≡ saved_before.bytes a))
resume_leaves_example =
    resume_leaves 100 saved_before on_shared three_saved whole_stack (omega arith) refl
      (omega arith) refl (omega arith) refl

-- The world that a call leads to.
after_call : Call → World → World
after_call c w = elim (perform c w) [ ok v ↦ v | fault e ↦ w ]

abbrev with_stack : World
with_stack = after_call (create_stack 0) nothing

abbrev with_coroutine : World
with_coroutine = after_call (create_on three_saved 5 6 4096) with_stack

-- A coroutine on a shared stack starts, and the contents that its memory came with stay.
switch-SameSaved_example :
    SameSaved with_coroutine (after_call (start 70000 (4097 + 8 * 1024 * 1024)) with_coroutine)
unfolding after_call perform create_shared_stack co_create_shared_stack co_start coroutine_swap
    swap_out jump_2_context go_on routine_begin deref put malloc align set_context set_shared
    set_scheduler get_current_process_scheduler process_scheduler_init fetch assign cell
switch-SameSaved_example =
    switch-SameSaved {w = nothing} {c = start 70000 (4097 + 8 * 1024 * 1024)}
      (λ p m e. absurd (ground (arith, e)))
      (called (create_on three_saved 5 6 4096) (called (create_stack 0) begun refl) refl)
      (by_start _ _) refl
