-- ===== src/Base/Int.antt =====
-- Python's integers.
use Prim.Native.Nat.{ℕ, zero, suc}
use mathlib.Core.Bool.{Bool, true, false}

-- `negsuc n` is -(n + 1)
pub data ℤ : Type 0 where
  pos : ℕ → ℤ
  negsuc : ℕ → ℤ

-- `bool(n)`
abbrev pub truth : ℤ → Bool
truth (pos zero) = false
truth (pos (suc n)) = true
truth (negsuc n) = true
