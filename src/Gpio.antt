-- ===== src/Gpio.antt =====
-- The pins: simulator/src/gpio.cpp and simulator/include/mini32/gpio.hpp.
pub mod Registers
use bit_computer_system.Base.{
  ℕ, ◌+◌, ◌-◌, bit_and, not, leb, ◌==◌, ◌!=◌, ◌&&◌, if◌then◌else◌, sub32,
}
use bit_computer_system.Mmio.{
  MmioFault, none, misaligned, out_of_range, MmioReadResult, MmioWriteResult, is_none,
}

abbrev pub base_address : ℕ
base_address = 0x20000200

abbrev pub size_bytes : ℕ
size_bytes = 16

abbrev pub last_address : ℕ
last_address = base_address + size_bytes - 1

pub record Gpio : Type 0 where
  pub input : ℕ
  pub output : ℕ
  pub direction : ℕ

unfoldable pub set_input : Gpio → ℕ → Gpio
set_input g value = record g { input = value }

unfoldable pub validate_address : ℕ → MmioFault
validate_address address =
    if bit_and address 0x3 != 0
    then misaligned
    else if leb base_address address && leb address last_address
    then none
    else out_of_range

unfoldable pub read32 : Gpio → ℕ → MmioReadResult
unfolding validate_address
read32 g address =
    let fault = validate_address address in
    let register = sub32 address base_address in
    if not (is_none fault)
    then record { value = 0; fault = fault }
    else if register == 0x00
    then record { value = g.input; fault = none }
    else if register == 0x04
    then record { value = g.output; fault = none }
    else if register == 0x08
    then record { value = g.direction; fault = none }
    else record { value = 0; fault = none }

unfoldable pub write32 : Gpio → ℕ → ℕ → Gpio × MmioWriteResult
unfolding validate_address
write32 g address value =
    let fault = validate_address address in
    let register = sub32 address base_address in
    if not (is_none fault) then (g, record { fault = fault }) else (
      (if register == 0x04
          then record g { output = value }
          else if register == 0x08
          then record g { direction = value }
          else g),
      record { fault = none },
    )

-- The pins keep their levels.
unfoldable pub reset : Gpio → Gpio
reset g = record g { output = 0; direction = 0 }
