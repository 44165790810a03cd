-- ===== src/Common/Int.antt =====
-- A C `int` or `pid_t` argument whose sign the code tests. `negsuc n` is -(n + 1).
use Prim.Native.Nat.{ℕ}

pub data ℤ : Type 0 where
  pos : ℕ → ℤ
  negsuc : ℕ → ℤ
