-- ===== src/Timer/Registers.antt =====
-- The timer of simulator/src/timer.cpp as a register window, and what its registers read after a
-- write.
use bit_computer_system.Base.{ℕ, ◌+◌, ◌*◌, ◌%◌, ◌<◌, ◌≡◌, arith, ◌==◌, ◌&&◌, if◌then◌else◌}
use bit_computer_system.Bits.{and_low}
use bit_computer_system.Mmio.{none, IsWindow}
use bit_computer_system.Timer.{Timer, base_address, last_address, read32, write32}

pub timer-IsWindow : IsWindow {Device = Timer} base_address last_address read32 write32
unfolding read32 write32
timer-IsWindow = record {
  read-fault = λ d address. ground arith;
  write-fault = λ d address value. ground arith;
  read_zero = λ d address h. ground arith;
  write_unchanged = λ d address value h. ground arith;
}

-- After a store to one of the four timer registers, each of the four reads: the stored value in
-- COUNTER and COMPARE, its lowest bit in CONTROL, what the timer held in those not stored to, and
-- in STATUS whether the enabled counter equals the compare value then.
pub timer_read-write :
    (t : Timer) (k j value : ℕ)
    → k < 4
    → j < 4
    → read32 (write32 t (base_address + 4 * k) value).0 (base_address + 4 * j) ≡ record {
      value =
          let counter = if k == 0 then value else t.counter in
          let compare = if k == 1 then value else t.compare in
          let enabled = if k == 2 then value % 2 == 1 else t.enabled in
          if j == 0
          then counter
          else if j == 1
          then compare
          else if j == 2
          then (if enabled then 1 else 0)
          else if enabled && counter == compare
          then 1
          else 0;
      fault = none;
    }
unfolding read32 write32
timer_read-write t k j value p q =
    ground
      (arith, and_low 2 (base_address + 4 * k), and_low 2 (base_address + 4 * j), and_low 1 value)
