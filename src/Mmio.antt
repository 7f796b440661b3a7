-- ===== src/Mmio.antt =====
-- The results that the register windows share, simulator/include/mini32/mmio.hpp, and the contract
-- by which the bus uses a window.
use bit_computer_system.Base.{ℕ, ◌≡◌, Bool, true, false, bit_and, ◌!=◌, leb, ◌&&◌, if◌then◌else◌}

pub data MmioFault : Type 0 where
  none misaligned out_of_range : MmioFault

pub record MmioReadResult : Type 0 where
  pub value : ℕ
  pub fault : MmioFault

pub record MmioWriteResult : Type 0 where
  pub fault : MmioFault

abbrev pub is_none : MmioFault → Bool
is_none none = true
is_none misaligned = false
is_none out_of_range = false

-- `ok()` of the two results.
abbrev pub read_ok : MmioReadResult → Bool
read_ok r = is_none r.fault

abbrev pub write_ok : MmioWriteResult → Bool
write_ok r = is_none r.fault

-- The fault of an access to the window from `base` to `last`, by its address alone.
abbrev pub window_fault : ℕ → ℕ → ℕ → MmioFault
window_fault base last address =
    if bit_and address 0x3 != 0
    then misaligned
    else if leb base address && leb address last
    then none
    else out_of_range

-- The contract of a device with the window from `base` to `last`: reads and writes fault alike, by
-- the address alone, and an access that faults reads zero or changes nothing.
pub record IsWindow {Device : Type 0} (base last : ℕ) (read32 : Device → ℕ → MmioReadResult)
    (write32 : Device → ℕ → ℕ → Device × MmioWriteResult) : Type 0 where
  pub read-fault :
      (d : Device) (address : ℕ) → (read32 d address).fault ≡ window_fault base last address
  pub write-fault :
      (d : Device) (address value : ℕ)
      → (write32 d address value).1.fault ≡ window_fault base last address
  pub read_zero :
      (d : Device) (address : ℕ) → read_ok (read32 d address) ≡ false → (read32 d address).value ≡ 0
  pub write_unchanged :
      (d : Device) (address value : ℕ)
      → write_ok (write32 d address value).1 ≡ false
      → (write32 d address value).0 ≡ d
