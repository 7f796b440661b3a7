-- ===== src/Gpio/Registers.antt =====
-- The pins as a register window, and what their registers read after a write.
use bit_computer_system.Base.{ℕ, ◌+◌, ◌*◌, ◌<◌, ◌≡◌, arith, ◌==◌, if◌then◌else◌}
use bit_computer_system.Bits.{and_low}
use bit_computer_system.Mmio.{none, IsWindow}
use bit_computer_system.Gpio.{Gpio, base_address, last_address, read32, write32, set_input}

pub gpio-IsWindow : IsWindow {Device = Gpio} base_address last_address read32 write32
unfolding read32 write32
gpio-IsWindow = record {
  read-fault = λ d address. ground arith;
  write-fault = λ d address value. ground arith;
  read_zero = λ d address h. ground arith;
  write_unchanged = λ d address value h. ground arith;
}

-- After the host sets the input levels and a program stores to one of the four GPIO registers,
-- each of the four reads: the levels in INPUT, the stored value in OUTPUT and DIRECTION or what
-- they held if it was not stored to them, and zero in the last.
pub gpio_read-write :
    (g : Gpio) (levels k j value : ℕ)
    → k < 4
    → j < 4
    → read32 (write32 (set_input g levels) (base_address + 4 * k) value).0 (base_address + 4 * j)
      ≡ record {
        value =
            if j == 0
            then levels
            else if j == 1
            then (if k == 1 then value else g.output)
            else if j == 2
            then (if k == 2 then value else g.direction)
            else 0;
        fault = none;
      }
unfolding read32 write32 set_input
gpio_read-write g levels k j value p q =
    ground (arith, and_low 2 (base_address + 4 * k), and_low 2 (base_address + 4 * j))
