-- ===== src/Base/Int.antt =====
-- Signed integers over the native numbers, for what a word stands for in two's complement.
use Prim.Native.Nat.{ℕ, suc, ◌+◌, ◌-◌, ◌^◌}
use mathlib.Core.Bool.{Bool}
use bit_computer_system.Base.Tests.{ltb, if◌then◌else◌}

-- `negsuc n` is -(n + 1).
pub data ℤ : Type 0 where
  pos : ℕ → ℤ
  negsuc : ℕ → ℤ

abbrev pub pos_part : ℤ → ℕ
pos_part (pos n) = n
pos_part (negsuc n) = 0

abbrev pub neg_part : ℤ → ℕ
neg_part (pos n) = 0
neg_part (negsuc n) = suc n

abbrev pub ltb_ℤ : ℤ → ℤ → Bool
ltb_ℤ a b = ltb (pos_part a + neg_part b) (pos_part b + neg_part a)

-- The integer that a 32-bit pattern stands for.
abbrev pub signed32 : ℕ → ℤ
signed32 w = if ltb w (2 ^ 31) then pos w else negsuc (2 ^ 32 - w - 1)
