-- ===== src/Base/Int.antt =====
-- The integers, as far as a counter that is counted down needs them.
use Prim.Native.Nat.{ℕ, zero, suc}
use mathlib.Core.Bool.{Bool, true, false}
use locust.Base.Tests.{leb}

-- `negsuc n` is -(n + 1).
pub data ℤ : Type 0 where
  pos : ℕ → ℤ
  negsuc : ℕ → ℤ

-- `z - 1`
abbrev pub pred : ℤ → ℤ
pred (pos zero) = negsuc zero
pred (pos (suc n)) = pos n
pred (negsuc n) = negsuc (suc n)

-- `z < 0`
abbrev pub is_negative : ℤ → Bool
is_negative (pos n) = false
is_negative (negsuc n) = true

-- `z <= -n`, for an `n` from 1 on.
abbrev pub le_minus : ℕ → ℤ → Bool
le_minus n (pos m) = false
le_minus n (negsuc m) = leb n (suc m)
