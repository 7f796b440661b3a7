-- ===== src/DebugDevice/Registers.antt =====
-- The debug register as a register window, and what it reads after a write.
use bit_computer_system.Base.{ℕ, ◌+◌, ◌*◌, ◌<◌, ◌≡◌, arith, ◌==◌, if◌then◌else◌}
use bit_computer_system.Bits.{and_low}
use bit_computer_system.Mmio.{none, IsWindow}
use bit_computer_system.DebugDevice.{DebugDevice, base_address, last_address, read32, write32}

pub debug-IsWindow : IsWindow {Device = DebugDevice} base_address last_address read32 write32
unfolding read32 write32
debug-IsWindow = record {
  read-fault = λ d address. ground arith;
  write-fault = λ d address value. ground arith;
  read_zero = λ d address h. ground arith;
  write_unchanged = λ d address value h. ground arith;
}

-- After a store to one of the four words of the debug window, the first reads the stored value, or
-- what it held if it was not stored to, and the others read zero.
pub debug_read-write :
    (d : DebugDevice) (k j value : ℕ)
    → k < 4
    → j < 4
    → read32 (write32 d (base_address + 4 * k) value).0 (base_address + 4 * j)
      ≡ record { value = if j == 0 then (if k == 0 then value else d.value) else 0; fault = none }
unfolding read32 write32
debug_read-write d k j value p q =
    ground (arith, and_low 2 (base_address + 4 * k), and_low 2 (base_address + 4 * j))
