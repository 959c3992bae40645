-- ===== src/Prelude/Int.antt =====
-- The `int` results of the program: a number, or the negated error numbers of <errno.h>.
use Prim.Native.Nat.{ℕ, zero, suc}

-- `negsuc n` is -(n + 1).
pub data ℤ : Type 0 where
  pos : ℕ → ℤ
  negsuc : ℕ → ℤ

abbrev pub neg : ℕ → ℤ
neg zero = pos 0
neg (suc n) = negsuc n

abbrev pub ebadf : ℕ
ebadf = 9

abbrev pub eagain : ℕ
eagain = 11

abbrev pub epipe : ℕ
epipe = 32

abbrev pub eopnotsupp : ℕ
eopnotsupp = 95

abbrev pub econnreset : ℕ
econnreset = 104

abbrev pub etimedout : ℕ
etimedout = 110

abbrev pub econnrefused : ℕ
econnrefused = 111
