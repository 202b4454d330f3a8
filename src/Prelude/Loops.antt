-- ===== src/Prelude/Loops.antt =====
-- Counted loops whose bodies may fail, each with its invariant rule.
use my_little_tool.Prelude.Outcome.{Run, ok, ◌>>=◌, Returns, bind_rule}
use Prim.Native.Nat.{ℕ, zero, suc, ◌+◌, ◌≤◌, ◌<◌}
use mathlib.Core.Path.{◌≡◌, refl, subst}
use native.Mathlib.Omega.{arith}

-- `for (k = i; k < i + n; k++) s = body(k, s)`
unfoldable pub for_up {ℓ} : {S : Type ℓ} → ℕ → ℕ → (ℕ → S → Run S) → S → Run S
for_up zero i body s = ok s
for_up (suc n) i body s = body i s >>= λ s'. for_up n (i + 1) body s'

-- `for (k = n - 1; k >= 0; k--) s = body(k, s)`
unfoldable pub for_down {ℓ} : {S : Type ℓ} → ℕ → (ℕ → S → Run S) → S → Run S
for_down zero body s = ok s
for_down (suc n) body s = body n s >>= λ s'. for_down n body s'

pub for_up_rule {ℓ κ} :
    {S : Type ℓ} (P : ℕ → S → Type κ) (body : ℕ → S → Run S) (n i hi : ℕ) (s : S)
    → i + n ≡ hi
    → ((k : ℕ) (s : S) → i ≤ k → k < hi → P k s → Returns (body k s) (P (k + 1)))
    → P i s
    → Returns (for_up n i body s) (P hi)
unfolding for_up
for_up_rule P body zero i hi s e keep h =
    let e' : i ≡ hi = omega arith in (s, refl, subst (λ k. P k s) e' h)
for_up_rule P body (suc n) i hi s e keep h =
    bind_rule (body i s) _ (keep i s (omega arith) (omega arith) h) λ s' h'.
      for_up_rule P body n (i + 1) hi s' (omega arith) (λ k t l u. keep k t (omega arith) u) h'

pub for_down_rule {ℓ κ} :
    {S : Type ℓ} (P : ℕ → S → Type κ) (body : ℕ → S → Run S) (n : ℕ) (s : S)
    → ((k : ℕ) (s : S) → k < n → P (suc k) s → Returns (body k s) (P k))
    → P n s
    → Returns (for_down n body s) (P 0)
unfolding for_down
for_down_rule P body zero s keep h = (s, refl, h)
for_down_rule P body (suc n) s keep h =
    bind_rule (body n s) _ (keep n s (omega arith) h)
      λ s' h'. for_down_rule P body n s' (λ k t l. keep k t (omega arith)) h'
