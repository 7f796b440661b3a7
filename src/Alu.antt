-- ===== src/Alu.antt =====
-- The arithmetic unit: simulator/src/alu.cpp and simulator/include/mini32/alu.hpp.
pub mod Bounds
pub mod Signed
pub mod Bitwise
pub mod Shifts
use bit_computer_system.Base.{
  ℕ, ◌+◌, ◌/◌, ◌^◌, bit_and, bit_or, bit_xor, Bool, u32, sub32, ◌<<◌, ◌>>>◌, ltb, ◌!=◌,
  if◌then◌else◌, bool_ne,
}

pub data AluOperation : Type 0 where
  add sub and or xor slt shift_left shift_right : AluOperation

unfoldable pub signed_less_than : ℕ → ℕ → Bool
signed_less_than lhs rhs =
    let lhs_negative = bit_and lhs 0x80000000 != 0 in
    let rhs_negative = bit_and rhs 0x80000000 != 0 in
    if bool_ne lhs_negative rhs_negative then lhs_negative else ltb lhs rhs

-- `Alu::execute`; an operand is a std::uint32_t.
unfoldable pub execute : AluOperation → ℕ → ℕ → ℕ
unfolding signed_less_than
execute add lhs rhs = u32 (lhs + rhs)
execute sub lhs rhs = sub32 lhs rhs
execute and lhs rhs = bit_and lhs rhs
execute or lhs rhs = bit_or lhs rhs
execute xor lhs rhs = bit_xor lhs rhs
execute slt lhs rhs = if signed_less_than lhs rhs then 1 else 0
execute shift_left lhs rhs = lhs << bit_and rhs 0x1f
execute shift_right lhs rhs = lhs >>> bit_and rhs 0x1f
