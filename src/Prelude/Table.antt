-- ===== src/Prelude/Table.antt =====
-- A Boolean test of all numbers below a bound, by evaluation.
use Prim.Native.Nat.{ℕ, zero, suc, ◌<◌}
use mathlib.Core.Path.{◌≡◌}
use mathlib.Core.Bool.{Bool, true, ◌&&◌}
use native.Mathlib.Omega.{arith}

-- `test` at every number below the bound.
unfoldable pub tested_below : (ℕ → Bool) → ℕ → Bool
tested_below test zero = true
tested_below test (suc bound) = tested_below test bound && test bound

pub tested_below_lem :
    (test : ℕ → Bool) (bound k : ℕ) → k < bound → tested_below test bound ≡ true → test k ≡ true
unfolding tested_below
tested_below_lem test zero k small passed = absurd (omega arith)
tested_below_lem test (suc bound) k small passed = ground (arith, tested_below_lem test bound k)
