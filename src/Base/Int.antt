-- ===== src/Base/Int.antt =====
-- Go's signed integers: `negsuc n` is -(n + 1).
use Prim.Native.Nat.{ℕ}
use mathlib.Core.Bool.{Bool, true, false}
use bonghos.Base.Tests.{eqb}

pub data ℤ : Type 0 where
  pos : ℕ → ℤ
  negsuc : ℕ → ℤ

abbrev pub is_negative : ℤ → Bool
is_negative (pos n) = false
is_negative (negsuc n) = true

-- An integer against a value that is known not to be negative.
abbrev pub equals_nat : ℤ → ℕ → Bool
equals_nat (pos n) m = eqb n m
equals_nat (negsuc n) m = false
