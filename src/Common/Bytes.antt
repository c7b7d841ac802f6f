-- ===== src/Common/Bytes.antt =====
-- Masks and shifts on one byte as arithmetic, each a table checked by evaluation.
use Prim.Native.Nat.{ℕ, zero, suc, ◌<◌}
use mathlib.Core.Path.{◌≡◌}
use mathlib.Core.Bool.{Bool, true, ◌&&◌}
use native.Mathlib.Omega.{arith}

unfoldable pub all_below : ℕ → (ℕ → Bool) → Bool
all_below zero test = true
all_below (suc last) test = all_below last test && test last

-- A test that holds in a table holds at each of its numbers.
pub all_below_sound :
    (bound : ℕ) (test : ℕ → Bool) (number : ℕ)
    → all_below bound test ≡ true
    → number < bound
    → test number ≡ true
unfolding all_below
all_below_sound zero test number table inside = absurd (omega arith)
all_below_sound (suc last) test number table inside =
    ground (arith, all_below_sound last test number)
