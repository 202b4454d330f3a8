-- ===== src/Coroutine/Stack.antt =====
-- Where the stacks lie, and what is copied from and to them.
use my_little_tool.Prelude.{
  true, ap, ℕ, ◌+◌, ◌-◌, ◌*◌, ◌%◌, ◌≤◌, ◌<◌, ◌≡◌, ◌≢◌, refl, arith, Option, some, false, ◌==◌, ◌&&◌,
  ltb, leb, if◌then◌else◌, ok, Returns,
}
use my_little_tool.Coroutine.{
  Ptr, null, Context, SharedStack, CommonSharedStack, World, deref, put, malloc, align,
  memcpy_bytes, create_shared_stack, resume_shared_stack,
}

pub deref-ok {ℓ} :
    {A : Type ℓ} (table : Ptr → Option A) (p : Ptr) (x : A)
    → p ≢ null
    → table p ≡ some x
    → deref table p ≡ ok x
unfolding deref
deref-ok table p x ne e = let f : (p == null) ≡ false = ground arith in rw (f, e) refl

-- The base of a shared stack is a multiple of 16 inside its memory, with a word above it; the
-- memory is at least a megabyte, and as long as was asked for where that is as much. It is newly
-- allocated, `stack_size` bytes from `stack_buf` on, up to the next address that `malloc` gives.
pub create_shared_stack_bounds :
    (size : ℕ) (w : World)
    → (m : CommonSharedStack) × ((create_shared_stack size w).1.commons
          (create_shared_stack size w).0
        ≡ some m)
      × (m.co_shared_rbp % 16 ≡ 0)
      × (m.stack_buf ≤ m.co_shared_rbp)
      × (m.co_shared_rbp + 8 ≤ m.stack_buf + m.stack_size)
      × (1024 * 1024 ≤ m.stack_size)
      × (size ≤ m.stack_size)
      × ((create_shared_stack size w).1.blocks m.stack_buf ≡ true)
      × (w.fresh ≤ m.stack_buf)
      × (m.stack_buf + m.stack_size ≡ (create_shared_stack size w).1.fresh)
unfolding create_shared_stack malloc put align
create_shared_stack_bounds size w =
    let size1 = if ltb size (1024 * 1024) then 8 * 1024 * 1024 else size in
    let big : 1024 * 1024 ≤ size1 = ground arith in
    let enough : size ≤ size1 = ground arith in
    (
      record {
        cur_co = null;
        stack_buf = w.fresh + 1;
        stack_size = size1;
        co_shared_rbp = align (w.fresh + 1 + size1 - 8);
      },
      ground arith,
      (omega arith),
      (omega arith),
      (omega arith),
      big,
      enough,
      ground arith,
      (omega arith),
      refl,
    )

module _ (co : Ptr) (w : World) (c : Context) (s : SharedStack) (m : CommonSharedStack)
    (ne : co ≢ null) (at_co : w.contexts co ≡ some c) (ne_shared : c.co_shared_stack ≢ null)
    (at_shared : w.shareds c.co_shared_stack ≡ some s) (ne_common : s.common_stack ≢ null)
    (at_common : w.commons s.common_stack ≡ some m) where
  -- For a coroutine with an allocated shared stack, `resume_shared_stack` copies the `len` saved
  -- bytes to the addresses from the base of the shared stack up. Every other byte stays as it is: so
  -- does the stack itself, which lies below its base.
  pub resume_leaves : Returns (resume_shared_stack co w) (λ w'.
      ((i : ℕ) → i < s.len → w'.bytes (m.co_shared_rbp + i) ≡ w.bytes (s.buf + i))
      × ((a : ℕ) → a < m.co_shared_rbp → w'.bytes a ≡ w.bytes a)
      × ((a : ℕ) → m.co_shared_rbp + s.len ≤ a → w'.bytes a ≡ w.bytes a))
  unfolding resume_shared_stack memcpy_bytes
  resume_leaves =
      rw
        (
          deref-ok w.contexts co c ne at_co,
          deref-ok w.shareds c.co_shared_stack s ne_shared at_shared,
          deref-ok w.commons s.common_stack m ne_common at_common,
        )
        (
          memcpy_bytes m.co_shared_rbp s.buf s.len w,
          refl,
          (
            (λ i h.
                let inside : (leb m.co_shared_rbp (m.co_shared_rbp + i)
                      && ltb (m.co_shared_rbp + i) (m.co_shared_rbp + s.len))
                    ≡ true =
                  ground arith in
                let from : s.buf + (m.co_shared_rbp + i - m.co_shared_rbp) ≡ s.buf + i =
                  omega arith in
                rw inside (ap w.bytes from)),
            (λ a h.
                let out : (leb m.co_shared_rbp a && ltb a (m.co_shared_rbp + s.len)) ≡ false =
                  ground arith in
                rw out refl),
            (λ a h.
                let out : (leb m.co_shared_rbp a && ltb a (m.co_shared_rbp + s.len)) ≡ false =
                  ground arith in
                rw out refl),
          ),
        )
