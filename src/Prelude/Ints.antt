-- ===== src/Prelude/Ints.antt =====
-- C's `int` where a negative value matters: an index before a range check.
use Prim.Native.Nat.{ℕ}

-- `negsuc n` is -(n + 1).
pub data ℤ : Type 0 where
  pos : ℕ → ℤ
  negsuc : ℕ → ℤ
