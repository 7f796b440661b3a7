-- ===== src/Immediate/Values.antt =====
-- The integers that immediates of simulator/src/decoder.cpp stand for, and sums with displacements.
use bit_computer_system.Base.{
  ℕ, ◌+◌, ◌-◌, ◌*◌, ◌^◌, ◌<◌, ◌≡◌, arith, ltb, if◌then◌else◌, u32, sub32,
}
use bit_computer_system.Bits.{and_bit, and_low, or_high_low, or_low_high}
use bit_computer_system.Immediate.{
  none, signed16, zero_extended16, upper16, ImmediateKind, immediate_value, branch_displacement,
  jump_displacement,
}

-- The sign extension of an immediate: 2 ^ 32 - 2 ^ 16 is added to a negative one.
pub immediate_value_signed :
    (immediate : ℕ)
    → immediate < 2 ^ 16
    → immediate_value signed16 immediate
      ≡ (if ltb immediate 0x8000 then immediate else immediate + 0xffff0000)
unfolding immediate_value
immediate_value_signed immediate h =
    ground (arith, and_bit 15 immediate, or_high_low 16 0xffff immediate h)

pub immediate_value-lt :
    (kind : ImmediateKind) (immediate : ℕ)
    → immediate < 2 ^ 16
    → immediate_value kind immediate < 2 ^ 32
unfolding immediate_value
immediate_value-lt none immediate h = omega arith
immediate_value-lt signed16 immediate h =
    ground (arith, and_bit 15 immediate, or_high_low 16 0xffff immediate h)
immediate_value-lt zero_extended16 immediate h = omega arith
immediate_value-lt upper16 immediate h = omega arith

-- A branch displacement, added to a 32-bit base.
pub branch_target :
    (pc immediate : ℕ)
    → pc < 2 ^ 32
    → immediate < 2 ^ 16
    → u32 (pc + branch_displacement immediate) ≡ (
        if ltb immediate 0x8000
        then u32 (pc + 4 * immediate)
        else sub32 pc (4 * (0x10000 - immediate)))
unfolding branch_displacement
branch_target pc immediate p h =
    ground (arith, and_bit 15 immediate, or_high_low 16 0xffff immediate h)

-- A jump displacement, added to a 32-bit base.
pub jump_target :
    (pc immediate : ℕ)
    → pc < 2 ^ 32
    → immediate < 2 ^ 26
    → u32 (pc + jump_displacement immediate) ≡ (
        if ltb immediate 0x02000000
        then u32 (pc + 4 * immediate)
        else sub32 pc (4 * (0x04000000 - immediate)))
unfolding jump_displacement
jump_target pc immediate p h =
    ground (arith, and_low 26 immediate, and_bit 25 immediate, or_low_high 26 0x3f immediate h)
