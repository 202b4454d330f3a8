-- ===== src/Sort/Heap/Order.antt =====
-- The heap order on a prefix of the array.
use my_little_tool.Prelude.{ℕ, zero, suc, ◌+◌, ◌*◌, ◌/◌, ◌≤◌, ◌<◌, ◌≢◌, arith, ◌≤ℤ◌, length}
use my_little_tool.Sort.Array.{Array, at}
use my_little_tool.Sort.Array.Access.{swap, at-swap}

-- `c` is a son of `i`.
abbrev pub IsSon : ℕ → ℕ → Type 0
IsSon i c = (2 * i + 1 ≤ c) × (c ≤ 2 * i + 2)

-- From node `k` on, in the first `n` entries, no son is larger than its parent.
abbrev pub IsHeapFrom : ℕ → ℕ → Array → Type 0
IsHeapFrom k n a = (i c : ℕ) → k ≤ i → IsSon i c → c < n → at a c ≤ℤ at a i

-- The same but at the node `p`, whose sons are still below its own parent.
pub record IsHeapBut (k n p : ℕ) (a : Array) : Type 0 where
  pub but : (i c : ℕ) → k ≤ i → i ≢ p → IsSon i c → c < n → at a c ≤ℤ at a i
  pub above : (i c : ℕ) → k ≤ i → IsSon i p → IsSon p c → c < n → at a c ≤ℤ at a i

-- If the sons of `p` are not larger either, the prefix is a heap.
pub IsHeapBut-done :
    (k n p : ℕ) (a : Array)
    → IsHeapBut k n p a
    → ((c : ℕ) → IsSon p c → c < n → at a c ≤ℤ at a p)
    → IsHeapFrom k n a
IsHeapBut-done k n p a h sons i c l s u = ground (arith, h.but i c, sons c)

-- Exchanging a node with its larger son moves the exception down.
pub IsHeapBut-swap :
    (k n p s : ℕ) (a : Array)
    → n ≤ length a
    → k ≤ p
    → IsSon p s
    → s < n
    → at a p ≤ℤ at a s
    → ((c : ℕ) → IsSon p c → c < n → at a c ≤ℤ at a s)
    → IsHeapBut k n p a
    → IsHeapBut k n s (swap a p s)
IsHeapBut-swap k n p s a len l son u le larger h =
    let pp : p < length a = omega arith in
    let ps : s < length a = omega arith in
    record {
      but = λ i c m ne x w.
          rw (at-swap a p s i pp ps, at-swap a p s c pp ps)
            (ground (arith, h.but i c, h.above i s, larger c));
      above = λ i c m x y w.
          rw (at-swap a p s i pp ps, at-swap a p s c pp ps) (ground (arith, h.but s c));
    }

-- The root is the largest entry.
pub IsHeapFrom-root :
    (n : ℕ) (a : Array) → IsHeapFrom 0 n a → (fuel i : ℕ) → i < fuel → i < n → at a i ≤ℤ at a 0
IsHeapFrom-root n a h zero i f u = elim f [ ]
IsHeapFrom-root n a h (suc fuel) zero f u = omega arith
IsHeapFrom-root n a h (suc fuel) (suc i) f u = omega (
  arith,
  h (i / 2) (suc i) (omega arith) (omega arith, omega arith) u,
  IsHeapFrom-root n a h fuel (i / 2) (omega arith) (omega arith),
)
