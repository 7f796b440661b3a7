-- ===== src/DebugDevice.antt =====
-- The debug register: simulator/src/debug_device.cpp and simulator/include/mini32/debug_device.hpp.
pub mod Registers
use bit_computer_system.Base.{
  ℕ, ◌+◌, ◌-◌, bit_and, not, leb, ◌==◌, ◌!=◌, ◌&&◌, if◌then◌else◌, sub32,
}
use bit_computer_system.Mmio.{
  MmioFault, none, misaligned, out_of_range, MmioReadResult, MmioWriteResult, is_none,
}

abbrev pub base_address : ℕ
base_address = 0x20000300

abbrev pub size_bytes : ℕ
size_bytes = 16

abbrev pub last_address : ℕ
last_address = base_address + size_bytes - 1

pub record DebugDevice : Type 0 where
  pub value : ℕ

unfoldable pub validate_address : ℕ → MmioFault
validate_address address =
    if bit_and address 0x3 != 0
    then misaligned
    else if leb base_address address && leb address last_address
    then none
    else out_of_range

unfoldable pub read32 : DebugDevice → ℕ → MmioReadResult
unfolding validate_address
read32 d address =
    let fault = validate_address address in
    if not (is_none fault)
    then record { value = 0; fault = fault }
    else if sub32 address base_address == 0
    then record { value = d.value; fault = none }
    else record { value = 0; fault = none }

unfoldable pub write32 : DebugDevice → ℕ → ℕ → DebugDevice × MmioWriteResult
unfolding validate_address
write32 d address value =
    let fault = validate_address address in
    if not (is_none fault) then (d, record { fault = fault }) else (
      (if sub32 address base_address == 0 then record { value = value } else d),
      record { fault = none },
    )

unfoldable pub reset : DebugDevice
reset = record { value = 0 }
