-- ===== src/Base/Range.antt =====
-- `for k in range(start, start + rounds)` over a state that the body may fail to update.
use Prim.Native.Nat.{ℕ, zero, suc, ◌+◌, ◌≤◌, ◌<◌}
use mathlib.Core.Path.{◌≡◌, subst}
use native.Mathlib.Omega.{arith}
use egyptian_arabic_annotati.Base.Outcome.{Result, ok, ◌>>=◌, Returns, returns, Returns-bind}

unfoldable pub for_range {ℓ} :
    {E : Type 0} {S : Type ℓ} → (rounds start : ℕ) → (ℕ → S → Result E S) → S → Result E S
for_range zero k body s = ok s
for_range (suc n) k body s = body k s >>= for_range n (suc k) body

-- An invariant over the counter: it holds at the start, each round keeps it, so the loop returns
-- and it holds at the end.
pub for_range-Returns {ℓ κ} :
    {E : Type 0} {S : Type ℓ} (Inv : ℕ → S → Type κ) (body : ℕ → S → Result E S) (n k stop : ℕ)
    (s : S)
    → k + n ≡ stop
    → ((c : ℕ) (t : S) → k ≤ c → c < stop → Inv c t → Returns (Inv (suc c)) (body c t))
    → Inv k s
    → Returns (Inv stop) (for_range n k body s)
unfolding for_range
for_range-Returns Inv body zero k stop s e keep h = returns (subst (λ c. Inv c s) (omega arith) h)
for_range-Returns Inv body (suc n) k stop s e keep h =
    Returns-bind (keep k s (omega arith) (omega arith) h) λ t.
      for_range-Returns Inv body n (suc k) stop t (omega arith) (λ c u lo. keep c u (omega arith))
