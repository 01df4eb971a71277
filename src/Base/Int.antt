-- ===== src/Base/Int.antt =====
-- Signed integers over the native numbers, for what Go reads as `int`.
use Prim.Native.Nat.{ℕ, zero, suc}

-- `negsuc n` is -(n + 1)
pub data ℤ : Type 0 where
  pos : ℕ → ℤ
  negsuc : ℕ → ℤ

abbrev pub neg : ℕ → ℤ
neg zero = pos 0
neg (suc n) = negsuc n
