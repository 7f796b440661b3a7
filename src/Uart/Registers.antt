-- ===== src/Uart/Registers.antt =====
-- The transmitter as a register window, and the bytes it sends.
use bit_computer_system.Base.{
  ℕ, ◌+◌, ◌*◌, ◌%◌, ◌<◌, ◌≡◌, refl, arith, ◌==◌, ◌&&◌, [], ◌∷◌, ◌++◌, if◌then◌else◌,
}
use bit_computer_system.Bits.{and_low}
use bit_computer_system.Mmio.{none, IsWindow}
use bit_computer_system.Uart.{Uart, base_address, last_address, read32, write32}

pub uart-IsWindow : IsWindow {Device = Uart} base_address last_address read32 write32
unfolding read32 write32
uart-IsWindow = record {
  read-fault = λ d address. ground (arith, and_low 2 address);
  write-fault = λ d address value. ground (arith, and_low 2 address);
  read_zero = λ d address h. ground (arith, and_low 2 address);
  write_unchanged = λ d address value h. ground (arith, and_low 2 address);
}

-- A store to one of the four UART registers does not fault; it sends the low byte of the value
-- when it goes to DATA and a callback is installed, and nothing otherwise; every read gives the
-- same after it.
pub write_transmits :
    (u : Uart) (k value : ℕ)
    → k < 4
    → (write32 u (base_address + 4 * k) value ≡ (
      (if k == 0 && u.tx_callback
          then record u { transmitted = u.transmitted ++ value % 256 ∷ [] }
          else u),
      record { fault = none },
    ))
      × ((address : ℕ)
          → read32 (write32 u (base_address + 4 * k) value).0 address ≡ read32 u address)
unfolding read32 write32
write_transmits u k value h =
    (ground (arith, and_low 2 (base_address + 4 * k), and_low 8 value), λ address. refl)
