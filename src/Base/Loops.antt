-- ===== src/Base/Loops.antt =====
-- The counted loop `for(i = lo; i < lo + k; i++)` over a state, and its invariant rule.
use Prim.Native.Nat.{ℕ, zero, suc, ◌+◌, ◌<◌}
use mathlib.Core.Path.{◌≡◌, subst}
use native.Mathlib.Omega.{arith}

-- `k` rounds are left, and `i` is the loop variable.
unfoldable pub for_from {ℓ} : {S : Type ℓ} → ℕ → ℕ → (ℕ → S → S) → S → S
for_from zero i body s = s
for_from (suc k) i body s = for_from k (suc i) body (body i s)

pub for_from_inv {ℓ κ} :
    {S : Type ℓ} (P : ℕ → S → Type κ) (body : ℕ → S → S) (hi : ℕ)
    → ((i : ℕ) (s : S) → i < hi → P i s → P (suc i) (body i s))
    → (k i : ℕ) (s : S) → i + k ≡ hi
    → P i s
    → P hi (for_from k i body s)
unfolding for_from
for_from_inv P body hi keep zero i s e h = subst (λ j. P j s) (omega arith) h
for_from_inv P body hi keep (suc k) i s e h =
    for_from_inv P body hi keep k (suc i) (body i s) (omega arith) (keep i s (omega arith) h)
