-- ===== src/Common/Int.antt =====
-- Python's integers, over the native numbers, as far as the rules compare them.
use Prim.Native.Nat.{ℕ}
use mathlib.Core.Bool.{Bool, true, false}
use ai_cyber_threat_detector.Common.Tests.{ltb}

-- `negsuc n` is -(n + 1).
pub data ℤ : Type 0 where
  pos : ℕ → ℤ
  negsuc : ℕ → ℤ

-- a < i, for a number a
abbrev pub below : ℕ → ℤ → Bool
below a (pos n) = ltb a n
below a (negsuc n) = false

-- i < a
abbrev pub above : ℤ → ℕ → Bool
above (pos n) a = ltb n a
above (negsuc n) a = true
