-- ===== src/Prelude/Int.antt =====
-- Integers, for the numbers of the program that may be negative.
use Prim.Native.Nat.{ℕ}

pub data ℤ : Type 0 where
  pos negsuc : ℕ → ℤ
