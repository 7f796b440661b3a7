-- ===== src/Examples/Buses.antt =====
-- Two buses that are built without a timer and pins of their own.
use bit_computer_system.Base.{◌≡◌, arith, ok}
use bit_computer_system.Bus.{Bus, BusWriteResult, write32}
use bit_computer_system.Bus.Statics.{World, bus_at, store}
use bit_computer_system.Bus.Statics.Sharing.{seen_by, store-seen_by}
use bit_computer_system.Examples.Machines.{small_bus}

abbrev fresh : World
fresh = record {
  timer = small_bus.timer;
  gpio = small_bus.gpio;
  parts = λ i. record {
    rom = small_bus.rom;
    ram = small_bus.ram;
    uart = small_bus.uart;
    debug = small_bus.debug;
  };
}

store-seen_by_example :
    (w' : World) × (bus : Bus) × (result : BusWriteResult) × (write32 (bus_at fresh 0) 0x20000104 9
      ≡ ok (bus, result))
    × (store fresh 0 0x20000104 9 ≡ ok (w', result))
    × (bus_at w' 0 ≡ bus)
    × (bus_at w' 1 ≡ seen_by fresh 1 0x20000104 9)
store-seen_by_example = store-seen_by fresh 0 1 0x20000104 9 (omega arith) (omega arith)
