-- ===== src/Prelude/Int.antt =====
-- Go's `int`, as an integer: `negsuc n` is -(n + 1). Its 64-bit range is written where it matters.
use Prim.Native.Nat.{ℕ}

pub data ℤ : Type 0 where
  pos : ℕ → ℤ
  negsuc : ℕ → ℤ
