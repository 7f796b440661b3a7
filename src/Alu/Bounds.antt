-- ===== src/Alu/Bounds.antt =====
-- Every result of the arithmetic unit is a 32-bit word.
use native.Mathlib.Nat.{div-le_self}
use bit_computer_system.Base.{ℕ, ◌^◌, ◌<◌, arith, bit_and}
use bit_computer_system.Bits.{digitwise-lt, and_IsDigitwise, or_IsDigitwise, xor-IsDigitwise}
use bit_computer_system.Alu.{
  AluOperation, add, sub, and, or, xor, slt, shift_left, shift_right, execute,
}

-- The result of every operation on two 32-bit words is a 32-bit word.
pub execute-lt :
    (operation : AluOperation) (lhs rhs : ℕ)
    → lhs < 2 ^ 32
    → rhs < 2 ^ 32
    → execute operation lhs rhs < 2 ^ 32
unfolding execute
execute-lt add lhs rhs p q = omega arith
execute-lt sub lhs rhs p q = omega arith
execute-lt and lhs rhs p q = digitwise-lt and_IsDigitwise 32 lhs rhs p q
execute-lt or lhs rhs p q = digitwise-lt or_IsDigitwise 32 lhs rhs p q
execute-lt xor lhs rhs p q = digitwise-lt xor-IsDigitwise 32 lhs rhs p q
execute-lt slt lhs rhs p q = ground arith
execute-lt shift_left lhs rhs p q = omega arith
execute-lt shift_right lhs rhs p q = omega (arith, div-le_self lhs (2 ^ bit_and rhs 0x1f))
