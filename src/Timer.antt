-- ===== src/Timer.antt =====
-- The retired-instruction timer: simulator/src/timer.cpp and simulator/include/mini32/timer.hpp.
pub mod Registers
pub mod Ticks
use bit_computer_system.Base.{
  ℕ, ◌+◌, ◌-◌, Bool, false, not, bit_and, leb, ◌==◌, ◌!=◌, ◌&&◌, if◌then◌else◌, u32, sub32,
}
use bit_computer_system.Mmio.{
  MmioFault, none, misaligned, out_of_range, MmioReadResult, MmioWriteResult, is_none,
}

abbrev pub base_address : ℕ
base_address = 0x20000100

abbrev pub size_bytes : ℕ
size_bytes = 16

abbrev pub last_address : ℕ
last_address = base_address + size_bytes - 1

pub record Timer : Type 0 where
  pub counter : ℕ
  pub compare : ℕ
  pub enabled : Bool

-- `match()`.
unfoldable pub matches : Timer → Bool
matches t = t.enabled && t.counter == t.compare

unfoldable pub validate_address : ℕ → MmioFault
validate_address address =
    if bit_and address 0x3 != 0
    then misaligned
    else if leb base_address address && leb address last_address
    then none
    else out_of_range

unfoldable pub read32 : Timer → ℕ → MmioReadResult
unfolding validate_address matches
read32 t address =
    let fault = validate_address address in
    let register = sub32 address base_address in
    if not (is_none fault)
    then record { value = 0; fault = fault }
    else if register == 0x00
    then record { value = t.counter; fault = none }
    else if register == 0x04
    then record { value = t.compare; fault = none }
    else if register == 0x08
    then record { value = if t.enabled then 1 else 0; fault = none }
    else if register == 0x0c
    then record { value = if matches t then 1 else 0; fault = none }
    else record { value = 0; fault = none }

unfoldable pub write32 : Timer → ℕ → ℕ → Timer × MmioWriteResult
unfolding validate_address
write32 t address value =
    let fault = validate_address address in
    let register = sub32 address base_address in
    if not (is_none fault) then (t, record { fault = fault }) else (
      (if register == 0x00
          then record t { counter = value }
          else if register == 0x04
          then record t { compare = value }
          else if register == 0x08
          then record t { enabled = bit_and value 1 != 0 }
          else t),
      record { fault = none },
    )

unfoldable pub retire_tick : Timer → Timer
retire_tick t = if t.enabled then record t { counter = u32 (t.counter + 1) } else t

unfoldable pub reset : Timer
reset = record { counter = 0; compare = 0; enabled = false }
