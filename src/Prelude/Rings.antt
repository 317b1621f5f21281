-- ===== src/Prelude/Rings.antt =====
-- Positions of a ring: the slot of a position is its remainder.
use Prim.Native.Nat.{ℕ, ◌+◌, ◌%◌, ◌<◌, ◌≤◌}
use mathlib.Core.Path.{sym}
use mathlib.Core.Logic.{◌≢◌}
use native.Mathlib.Omega.{arith}
use native.Mathlib.Decide.{dec_lt}

-- Two positions of one window have different slots.
pub mod_apart : (p h c : ℕ) → p < h → h < p + c → p % c ≢ h % c
mod_apart p h c lt near e = grind arith

-- The same, whichever of the two comes first.
pub slots_apart : (t c p q : ℕ) → t ≤ p → p < t + c → t ≤ q → q < t + c → p ≢ q → p % c ≢ q % c
slots_apart t c p q tp pc tq qc ne e = elim (dec_lt p q) [
  | yes lt ↦ mod_apart p q c lt (omega arith) e
  | no ge ↦ mod_apart q p c (omega arith) (omega arith) (sym e)
]
