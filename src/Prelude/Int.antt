-- ===== src/Prelude/Int.antt =====
-- Integers over the native numbers: what Go's int holds where it may be negative.
use Prim.Native.Nat.{ℕ}
use mathlib.Core.Bool.{Bool, false}
use secrets_dispatcher.Prelude.Tests.{eqb}

-- `negsuc n` is -(n + 1).
pub data ℤ : Type 0 where
  pos : ℕ → ℤ
  negsuc : ℕ → ℤ

abbrev pub is_zero : ℤ → Bool
is_zero (pos n) = eqb n 0
is_zero (negsuc n) = false
