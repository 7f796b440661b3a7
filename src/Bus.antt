-- ===== src/Bus.antt =====
-- The system bus: simulator/src/bus.cpp and simulator/include/mini32/bus.hpp.
pub mod MemoryMap
pub mod Storage
pub mod Windows
pub mod Statics
use bit_computer_system.Base.{
  ℕ, Bool, true, false, bit_and, Result, ok, ◌>>=◌, leb, ◌!=◌, ◌&&◌, ◌||◌, if◌then◌else◌,
}
use bit_computer_system.Mmio.{MmioFault, MmioReadResult, MmioWriteResult, read_ok, write_ok}
use bit_computer_system.Rom
use bit_computer_system.Rom.{Rom, RomFault, RomReadResult}
use bit_computer_system.Ram
use bit_computer_system.Ram.{Ram, RamFault, RamReadResult, RamWriteResult}
use bit_computer_system.Uart
use bit_computer_system.Uart.{Uart}
use bit_computer_system.Timer
use bit_computer_system.Timer.{Timer}
use bit_computer_system.Gpio
use bit_computer_system.Gpio.{Gpio}
use bit_computer_system.DebugDevice
use bit_computer_system.DebugDevice.{DebugDevice}

pub data BusFault : Type 0 where
  none misaligned unmapped read_only non_executable : BusFault

pub record BusWriteResult : Type 0 where
  pub fault : BusFault

pub record BusReadResult : Type 0 where
  pub value : ℕ
  pub fault : BusFault

abbrev pub is_none : BusFault → Bool
is_none none = true
is_none misaligned = false
is_none unmapped = false
is_none read_only = false
is_none non_executable = false

-- The components that the references of `Bus` name.
pub record Bus : Type 0 where
  pub rom : Rom
  pub ram : Ram
  pub uart : Uart
  pub debug : DebugDevice
  pub timer : Timer
  pub gpio : Gpio

unfoldable pub bus_fault : MmioFault → BusFault
bus_fault MmioFault.misaligned = misaligned
bus_fault MmioFault.none = unmapped
bus_fault MmioFault.out_of_range = unmapped

-- `address >= base && address <= last`.
abbrev pub within : ℕ → ℕ → ℕ → Bool
within base last address = leb base address && leb address last

abbrev pub from_rom : RomReadResult → BusReadResult
from_rom r = elim (r.fault) [
  | RomFault.none ↦ record { value = r.value; fault = none }
  | RomFault.misaligned ↦ record { value = 0; fault = misaligned }
  | RomFault.out_of_range ↦ record { value = 0; fault = unmapped }
]

abbrev pub from_ram : RamReadResult → BusReadResult
from_ram r = elim (r.fault) [
  | RamFault.none ↦ record { value = r.value; fault = none }
  | RamFault.misaligned ↦ record { value = 0; fault = misaligned }
  | RamFault.out_of_range ↦ record { value = 0; fault = unmapped }
]

-- A device's answer to a read, and to a write, as the bus passes it on.
unfoldable pub from_device : MmioReadResult → BusReadResult
unfolding bus_fault
from_device r =
    if read_ok r
    then record { value = r.value; fault = none }
    else record { value = 0; fault = bus_fault r.fault }

unfoldable pub device_fault : MmioWriteResult → BusWriteResult
unfolding bus_fault
device_fault r = record { fault = if write_ok r then none else bus_fault r.fault }

unfoldable pub read32 : Bus → ℕ → Result BusReadResult
unfolding from_device
read32 bus address =
    if bit_and address 0x3 != 0
    then ok (record { value = 0; fault = misaligned })
    else if within Rom.base_address Rom.last_address address
    then (do r ← Rom.read32 bus.rom address; ok (from_rom r))
    else if within Ram.base_address Ram.last_address address
    then (do r ← Ram.read32 bus.ram address; ok (from_ram r))
    else if within Uart.base_address Uart.last_address address
    then ok (from_device (Uart.read32 bus.uart address))
    else if within Timer.base_address Timer.last_address address
    then ok (from_device (Timer.read32 bus.timer address))
    else if within Gpio.base_address Gpio.last_address address
    then ok (from_device (Gpio.read32 bus.gpio address))
    else if within DebugDevice.base_address DebugDevice.last_address address
    then ok (from_device (DebugDevice.read32 bus.debug address))
    else ok (record { value = 0; fault = unmapped })

abbrev pub from_rom_fetch : RomReadResult → BusReadResult
from_rom_fetch r = elim (r.fault) [
  | RomFault.none ↦ record { value = r.value; fault = none }
  | RomFault.misaligned ↦ record { value = 0; fault = unmapped }
  | RomFault.out_of_range ↦ record { value = 0; fault = unmapped }
]

unfoldable pub fetch32 : Bus → ℕ → Result BusReadResult
fetch32 bus address =
    if bit_and address 0x3 != 0
    then ok (record { value = 0; fault = misaligned })
    else if within Rom.base_address Rom.last_address address
    then (do r ← Rom.read32 bus.rom address; ok (from_rom_fetch r))
    else if within Ram.base_address Ram.last_address address
    then ok (record { value = 0; fault = non_executable })
    else if within Uart.base_address Uart.last_address address
        || within Timer.base_address Timer.last_address address
        || within Gpio.base_address Gpio.last_address address
        || within DebugDevice.base_address DebugDevice.last_address address
    then ok (record { value = 0; fault = non_executable })
    else ok (record { value = 0; fault = unmapped })

abbrev pub ram_fault : RamWriteResult → BusWriteResult
ram_fault r = elim (r.fault) [
  | RamFault.none ↦ record { fault = none }
  | RamFault.misaligned ↦ record { fault = unmapped }
  | RamFault.out_of_range ↦ record { fault = unmapped }
]

unfoldable pub write32 : Bus → ℕ → ℕ → Result (Bus × BusWriteResult)
unfolding device_fault
write32 bus address value =
    if bit_and address 0x3 != 0
    then ok (bus, record { fault = misaligned })
    else if within Rom.base_address Rom.last_address address
    then ok (bus, record { fault = read_only })
    else if within Ram.base_address Ram.last_address address
    then (do
      (ram, r) ← Ram.write32 bus.ram address value
      ok (record bus { ram = ram }, ram_fault r))
    else if within Uart.base_address Uart.last_address address
    then (let (uart, r) = Uart.write32 bus.uart address value in
        ok (record bus { uart = uart }, device_fault r))
    else if within Timer.base_address Timer.last_address address
    then (let (timer, r) = Timer.write32 bus.timer address value in
        ok (record bus { timer = timer }, device_fault r))
    else if within Gpio.base_address Gpio.last_address address
    then (let (gpio, r) = Gpio.write32 bus.gpio address value in
        ok (record bus { gpio = gpio }, device_fault r))
    else if within DebugDevice.base_address DebugDevice.last_address address
    then (let (debug, r) = DebugDevice.write32 bus.debug address value in
        ok (record bus { debug = debug }, device_fault r))
    else ok (bus, record { fault = unmapped })

unfoldable pub retire_tick : Bus → Bus
retire_tick bus = record bus { timer = Timer.retire_tick bus.timer }
