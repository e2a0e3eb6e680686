-- ===== src/Prelude/Range.antt =====
-- Checking every number below a bound by evaluation.
use Prim.Native.Nat.{ℕ, zero, suc, ◌<◌}
use mathlib.Core.Path.{◌≡◌}
use mathlib.Core.Bool.{Bool, true, ◌&&◌}
use native.Mathlib.Omega.{arith}

unfoldable pub holds_below : (p : ℕ → Bool) → (bound : ℕ) → Bool
holds_below p zero = true
holds_below p (suc bound) = holds_below p bound && p bound

pub holds_below_lem :
    (p : ℕ → Bool) (bound k : ℕ) → k < bound → holds_below p bound ≡ true → p k ≡ true
unfolding holds_below
holds_below_lem p zero k below h = absurd (omega arith)
holds_below_lem p (suc bound) k below h = ground (arith, holds_below_lem p bound k)
