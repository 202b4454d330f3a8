-- ===== src/Prelude/Signed.antt =====
-- Results of signed arithmetic.
use Prim.Native.Nat.{ℕ, ◌^◌, ◌<◌}
use mathlib.Core.Path.{◌≡◌}
use my_little_tool.Prelude.Tests.{ltb, lt→ltb, if◌then◌else◌}
use my_little_tool.Prelude.Outcome.{Run, ok, fault, overflow}

-- A result that must fit into an `int`.
unfoldable pub int_result : ℕ → Run ℕ
int_result n = if ltb n (2 ^ 31) then ok n else fault overflow

pub int_result-ok : (n : ℕ) → n < 2 ^ 31 → int_result n ≡ ok n
unfolding int_result
int_result-ok n h = rw (lt→ltb n (2 ^ 31) h)
