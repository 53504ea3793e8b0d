-- ===== src/Prelude/Range.antt =====
-- Laws over a small range of numbers, by checking every value.
use Prim.Native.Nat.{ℕ, zero, suc, ◌<◌}
use mathlib.Core.Path.{◌≡◌}
use mathlib.Core.Bool.{Bool, true, ◌&&◌}
use native.Mathlib.Omega.{arith}

unfoldable pub each_below : (ℕ → Bool) → ℕ → Bool
each_below test zero = true
each_below test (suc bound) = each_below test bound && test bound

pub each_below_sound :
    (test : ℕ → Bool) (bound at : ℕ) → at < bound → each_below test bound ≡ true → test at ≡ true
unfolding each_below
each_below_sound test zero at small all = absurd (omega arith)
each_below_sound test (suc bound) at small all = ground (arith, each_below_sound test bound at)
