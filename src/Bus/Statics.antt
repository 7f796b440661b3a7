-- ===== src/Bus/Statics.antt =====
-- The timer and the pins of a bus that is built without its own: `default_timer` and `default_gpio`
-- of simulator/src/bus.cpp, which all such buses share.
pub mod Sharing
use bit_computer_system.Base.{
  ℕ, ◌^◌, ◌<◌, ◌≡◌, ◌≢◌, ◌∙◌, refl, sym, ap, arith, Bool, true, false, ◌&&◌, ◌==◌, if◌then◌else◌,
  if_true, if_false, Result, ok, ◌>>=◌, bind_ok, Bool-cases, inl, inr,
}
use bit_computer_system.Rom.{Rom}
use bit_computer_system.Ram.{Ram}
use bit_computer_system.Uart.{Uart}
use bit_computer_system.DebugDevice.{DebugDevice}
use bit_computer_system.Timer.{Timer}
use bit_computer_system.Gpio.{Gpio}
use bit_computer_system.Bus.{Bus, BusWriteResult, write32, retire_tick, is_none}

-- What is handed to the constructor with four arguments.
pub record Parts : Type 0 where
  pub rom : Rom
  pub ram : Ram
  pub uart : Uart
  pub debug : DebugDevice

-- The two static objects, and the parts of the buses that are built on them.
pub record World : Type 0 where
  pub timer : Timer
  pub gpio : Gpio
  pub parts : ℕ → Parts

unfoldable pub default_timer : World → Timer
default_timer w = w.timer

unfoldable pub default_gpio : World → Gpio
default_gpio w = w.gpio

-- The constructor with four arguments: the objects behind the references of a bus.
unfoldable pub assemble : Parts → Timer → Gpio → Bus
assemble parts timer gpio = record {
  rom = parts.rom;
  ram = parts.ram;
  uart = parts.uart;
  debug = parts.debug;
  timer = timer;
  gpio = gpio;
}

unfoldable pub bus_at : World → ℕ → Bus
unfolding assemble default_timer default_gpio
bus_at w i = assemble (w.parts i) (default_timer w) (default_gpio w)

-- The objects after an operation of a bus.
unfoldable pub behind : World → ℕ → Bus → World
behind w i bus = record {
  timer = bus.timer;
  gpio = bus.gpio;
  parts = λ k.
      if k == i
      then record { rom = bus.rom; ram = bus.ram; uart = bus.uart; debug = bus.debug }
      else w.parts k;
}

-- A store, and a retirement, by one of the buses.
unfoldable pub store : World → ℕ → ℕ → ℕ → Result (World × BusWriteResult)
store w i address value = do
  (bus, result) ← write32 (bus_at w i) address value
  ok (behind w i bus, result)

unfoldable pub retire : World → ℕ → World
retire w i = behind w i (retire_tick (bus_at w i))
