-- ===== src/Immediate.antt =====
-- Immediates and displacements: the last functions of simulator/src/decoder.cpp.
pub mod Values
use bit_computer_system.Base.{ℕ, ◌*◌, bit_and, bit_or, ◌==◌, if◌then◌else◌, u32, ◌<<◌}

pub data ImmediateKind : Type 0 where
  none signed16 zero_extended16 upper16 : ImmediateKind

unfoldable pub immediate_value : ImmediateKind → ℕ → ℕ
immediate_value none immediate = 0
immediate_value signed16 immediate =
    if bit_and immediate 0x8000 == 0 then immediate else bit_or 0xffff0000 immediate
immediate_value zero_extended16 immediate = immediate
immediate_value upper16 immediate = immediate << 16

unfoldable pub branch_displacement : ℕ → ℕ
unfolding immediate_value
branch_displacement immediate = u32 (immediate_value signed16 immediate * 4)

unfoldable pub jump_displacement : ℕ → ℕ
jump_displacement immediate =
    let encoded = bit_and immediate 0x03ffffff in
    let sign_extended =
      if bit_and encoded 0x02000000 == 0 then encoded else bit_or encoded 0xfc000000 in
    u32 (sign_extended * 4)
