-- ===== src/Uart.antt =====
-- The transmitter: simulator/src/uart.cpp and simulator/include/mini32/uart.hpp.
pub mod Registers
use bit_computer_system.Base.{
  ℕ, ◌+◌, ◌-◌, Bool, not, ◌||◌, bit_and, List, [], ◌∷◌, ◌++◌, leb, ◌==◌, ◌!=◌, ◌&&◌, if◌then◌else◌,
  u8, sub32,
}
use bit_computer_system.Mmio.{
  MmioFault, none, misaligned, out_of_range, MmioReadResult, MmioWriteResult, is_none,
}

abbrev pub base_address : ℕ
base_address = 0x20000000

abbrev pub size_bytes : ℕ
size_bytes = 16

abbrev pub last_address : ℕ
last_address = base_address + size_bytes - 1

-- `tx_callback` says whether a callback is installed; `transmitted` are the bytes it was called
-- with, in order. What the callback does with a byte belongs to the host.
pub record Uart : Type 0 where
  pub tx_callback : Bool
  pub transmitted : List ℕ

unfoldable pub uart : Bool → Uart
uart tx_callback = record { tx_callback = tx_callback; transmitted = [] }

unfoldable pub validate_address : ℕ → MmioFault
validate_address address =
    if bit_and address 0x3 != 0
    then misaligned
    else if leb base_address address && leb address last_address
    then none
    else out_of_range

unfoldable pub read32 : Uart → ℕ → MmioReadResult
unfolding validate_address
read32 u address =
    let fault = validate_address address in
    let register = sub32 address base_address in
    if not (is_none fault)
    then record { value = 0; fault = fault }
    else if register == 0x04
    then record { value = 1; fault = none }
    else if register == 0x00 || register == 0x08 || register == 0x0c
    then record { value = 0; fault = none }
    else record { value = 0; fault = out_of_range }

unfoldable pub write32 : Uart → ℕ → ℕ → Uart × MmioWriteResult
unfolding validate_address
write32 u address value =
    let fault = validate_address address in
    let register = sub32 address base_address in
    if not (is_none fault)
    then (u, record { fault = fault })
    else if register == 0x00
    then (
      (if u.tx_callback
          then record u { transmitted = u.transmitted ++ u8 (bit_and value 0xff) ∷ [] }
          else u),
      record { fault = none },
    )
    else if register == 0x04 || register == 0x08 || register == 0x0c
    then (u, record { fault = none })
    else (u, record { fault = out_of_range })

-- There is no state to clear.
unfoldable pub reset : Uart → Uart
reset u = u
