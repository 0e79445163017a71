-- ===== src/Prelude/Int.antt =====
-- The integers, for what functions of C return.
use Prim.Native.Nat.{ℕ}

-- `negsuc n` is -(n + 1).
pub data ℤ : Type 0 where
  pos negsuc : ℕ → ℤ
