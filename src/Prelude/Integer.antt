-- ===== src/Prelude/Integer.antt =====
-- Whole numbers with a sign, over the native numbers.
use Prim.Native.Nat.{ℕ}

pub data ℤ : Type 0 where
  pos : ℕ → ℤ
  -- `negsuc n` is -1 - n.
  negsuc : ℕ → ℤ
