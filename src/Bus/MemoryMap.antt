-- ===== src/Bus/MemoryMap.antt =====
-- The bus against the address map of docs/memory-map.md.
use bit_computer_system.Base.{
  ℕ, ap₂, ◌∙◌, if_true, if_false, ◌-◌, ◌%◌, ◌^◌, ◌<◌, ◌≡◌, refl, ap, arith, true, false, leb, ltb,
  ◌==◌, ◌&&◌, if◌then◌else◌, ok,
}
use bit_computer_system.Bits.{and_low}
use bit_computer_system.Rom.Loading as RomLoading
use bit_computer_system.Ram.Storage as RamStorage
use bit_computer_system.Uart.Registers.{uart-IsWindow}
use bit_computer_system.Timer.Registers.{timer-IsWindow}
use bit_computer_system.Gpio.Registers.{gpio-IsWindow}
use bit_computer_system.DebugDevice.Registers.{debug-IsWindow}
use bit_computer_system.Memory.Words.{stored}
use bit_computer_system.Ram
use bit_computer_system.Uart
use bit_computer_system.Timer
use bit_computer_system.Gpio
use bit_computer_system.DebugDevice
use bit_computer_system.Bus.{
  Bus, BusFault, misaligned, unmapped, read_only, non_executable, read32, fetch32, write32, is_none,
}

-- The owners of the address ranges.
pub data Region : Type 0 where
  rom ram uart timer gpio debug nothing : Region

-- The table of the memory map.
abbrev pub region_of : ℕ → Region
region_of address =
    if ltb address 0x00010000
    then rom
    else if leb 0x10000000 address && ltb address 0x10010000
    then ram
    else if leb 0x20000000 address && ltb address 0x20000010
    then uart
    else if leb 0x20000100 address && ltb address 0x20000110
    then timer
    else if leb 0x20000200 address && ltb address 0x20000210
    then gpio
    else if leb 0x20000300 address && ltb address 0x20000310
    then debug
    else nothing

abbrev pub data_read_fault : Region → BusFault
data_read_fault nothing = unmapped
data_read_fault _ = BusFault.none

abbrev pub data_write_fault : Region → BusFault
data_write_fault nothing = unmapped
data_write_fault rom = read_only
data_write_fault _ = BusFault.none

abbrev pub execute_fault : Region → BusFault
execute_fault rom = BusFault.none
execute_fault nothing = unmapped
execute_fault _ = non_executable

-- What an access of some kind gives at an address: a misaligned one faults as such.
abbrev pub map_fault : (Region → BusFault) → ℕ → BusFault
map_fault kind address = if address % 4 == 0 then kind (region_of address) else misaligned

-- The word that the owner of the address gives.
abbrev pub word_in : Region → Bus → ℕ → ℕ
word_in rom bus address = RomLoading.load bus.rom.bytes address
word_in ram bus address = RamStorage.load bus.ram.bytes address
word_in uart bus address = (Uart.read32 bus.uart address).value
word_in timer bus address = (Timer.read32 bus.timer address).value
word_in gpio bus address = (Gpio.read32 bus.gpio address).value
word_in debug bus address = (DebugDevice.read32 bus.debug address).value
word_in nothing bus address = 0

-- A read of a 32-bit address returns with the fault that the memory map gives and the word of the
-- address's owner, or zero with a fault.
pub read32-map :
    (bus : Bus) (address : ℕ)
    → address < 2 ^ 32
    → read32 bus address
      ≡ ok (record {
        value =
            if is_none (map_fault data_read_fault address)
            then word_in (region_of address) bus address
            else 0;
        fault = map_fault data_read_fault address;
      })
unfolding read32
read32-map bus address h = ground (
  arith,
  and_low 2 address,
  RomLoading.read32_lem bus.rom address h,
  RamStorage.read32_lem bus.ram address h,
  uart-IsWindow.read-fault bus.uart address,
  timer-IsWindow.read-fault bus.timer address,
  gpio-IsWindow.read-fault bus.gpio address,
  debug-IsWindow.read-fault bus.debug address,
)

-- A fetch from a 32-bit address returns with the fault that the memory map gives and the ROM's
-- word, or zero with a fault.
pub fetch32-map :
    (bus : Bus) (address : ℕ)
    → address < 2 ^ 32
    → fetch32 bus address
      ≡ ok (record {
        value =
            if is_none (map_fault execute_fault address)
            then RomLoading.load bus.rom.bytes address
            else 0;
        fault = map_fault execute_fault address;
      })
unfolding fetch32
fetch32-map bus address h =
    ground (arith, and_low 2 address, RomLoading.read32_lem bus.rom address h)

-- The bus after the owner of the address has taken the value.
abbrev pub store_in : Region → Bus → ℕ → ℕ → Bus
store_in rom bus address value = bus
store_in ram bus address value = record bus {
  ram = record { bytes = stored (address - Ram.base_address) value bus.ram.bytes };
}
store_in uart bus address value = record bus { uart = (Uart.write32 bus.uart address value).0 }
store_in timer bus address value = record bus { timer = (Timer.write32 bus.timer address value).0 }
store_in gpio bus address value = record bus { gpio = (Gpio.write32 bus.gpio address value).0 }
store_in debug bus address value = record bus {
  debug = (DebugDevice.write32 bus.debug address value).0;
}
store_in nothing bus address value = bus

-- A write to a 32-bit address returns with the fault that the memory map gives; it changes the
-- address's owner and nothing else, and nothing at all with a fault.
pub write32-map :
    (bus : Bus) (address value : ℕ)
    → address < 2 ^ 32
    → write32 bus address value
      ≡ ok (
        (if is_none (map_fault data_write_fault address)
            then store_in (region_of address) bus address value
            else bus),
        record { fault = map_fault data_write_fault address },
      )
unfolding write32
write32-map bus address value h = ground (
  arith,
  and_low 2 address,
  RamStorage.write32_lem bus.ram address value h,
  uart-IsWindow.write-fault bus.uart address value,
  timer-IsWindow.write-fault bus.timer address value,
  gpio-IsWindow.write-fault bus.gpio address value,
  debug-IsWindow.write-fault bus.debug address value,
)

-- The two ends of a read and of a write.
none_of : (fault : BusFault) → is_none fault ≡ true → fault ≡ BusFault.none
none_of BusFault.none h = refl
none_of _ h = cc

module _ (bus : Bus) (address : ℕ) (h : address < 2 ^ 32) where
  pub read32_fine :
      is_none (map_fault data_read_fault address) ≡ true
      → read32 bus address
        ≡ ok (record { value = word_in (region_of address) bus address; fault = BusFault.none })
  read32_fine fine =
      read32-map bus address h
      ∙ ap₂ (λ (v : ℕ) (f : BusFault). ok (record { value = v; fault = f })) (if_true _ _ fine)
          (none_of _ fine)

  pub read32_bad :
      is_none (map_fault data_read_fault address) ≡ false
      → read32 bus address ≡ ok (record { value = 0; fault = map_fault data_read_fault address })
  read32_bad bad =
      read32-map bus address h
      ∙ ap (λ (v : ℕ). ok (record { value = v; fault = map_fault data_read_fault address }))
          (if_false _ _ bad)

  pub write32_fine :
      (value : ℕ)
      → is_none (map_fault data_write_fault address) ≡ true
      → write32 bus address value
        ≡ ok (store_in (region_of address) bus address value, record { fault = BusFault.none })
  write32_fine value fine =
      write32-map bus address value h
      ∙ ap₂ (λ (b : Bus) (f : BusFault). ok (b, record { fault = f })) (if_true _ _ fine)
          (none_of _ fine)

  pub write32_bad :
      (value : ℕ)
      → is_none (map_fault data_write_fault address) ≡ false
      → write32 bus address value ≡ ok (bus, record { fault = map_fault data_write_fault address })
  write32_bad value bad =
      write32-map bus address value h
      ∙ ap (λ (b : Bus). ok (b, record { fault = map_fault data_write_fault address }))
          (if_false _ _ bad)
