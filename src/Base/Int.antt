-- ===== src/Base/Int.antt =====
-- Signed integers, as the C types `int` and `ssize_t` hold them: `negsuc n` is -(n + 1).
use Prim.Native.Nat.{ℕ}

pub data ℤ : Type 0 where
  pos : ℕ → ℤ
  negsuc : ℕ → ℤ
