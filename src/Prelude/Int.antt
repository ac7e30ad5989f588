-- ===== src/Prelude/Int.antt =====
-- Signed integers, for the `i32` fields of the messages.
use Prim.Native.Nat.{ℕ}
use mathlib.Core.Bool.{Bool, false}
use fabric_chaincode_rs.Prelude.Tests.{leb}

-- `negsuc n` is -(n + 1).
pub data ℤ : Type 0 where
  pos : ℕ → ℤ
  negsuc : ℕ → ℤ

-- `k <= i` at a constant `k` that is not negative
abbrev pub at_least : ℕ → ℤ → Bool
at_least k (pos n) = leb k n
at_least k (negsuc n) = false
