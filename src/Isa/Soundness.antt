-- ===== src/Isa/Soundness.antt =====
-- A machine that holds words and bytes goes on holding them: what the std::uint32_t and
-- std::uint8_t members of simulator/include/mini32/ guarantee in C++.
use bit_computer_system.Base.{ℕ, ◌^◌, ◌<◌, arith}
use bit_computer_system.Memory.{Bytes, byte_of}
use bit_computer_system.Memory.Words.{stored, little_endian-lt}
use bit_computer_system.Timer as Timer
use bit_computer_system.Gpio as Gpio
use bit_computer_system.Uart as Uart
use bit_computer_system.DebugDevice as DebugDevice
use bit_computer_system.Bus.{Bus, retire_tick}
use bit_computer_system.Bus.MemoryMap.{
  Region, rom, ram, uart, timer, gpio, debug, nothing, word_in, store_in,
}
use bit_computer_system.Isa.{Machine}

pub record HoldsWords (bus : Bus) : Type 0 where
  pub rom_bytes : (i : ℕ) → bus.rom.bytes i < 256
  pub ram_bytes : (i : ℕ) → bus.ram.bytes i < 256
  pub counter : bus.timer.counter < 2 ^ 32
  pub compare : bus.timer.compare < 2 ^ 32
  pub input : bus.gpio.input < 2 ^ 32
  pub output : bus.gpio.output < 2 ^ 32
  pub direction : bus.gpio.direction < 2 ^ 32
  pub debug_value : bus.debug.value < 2 ^ 32

pub record IsSound (m : Machine) : Type 0 where
  pub pc_word : m.pc < 2 ^ 32
  pub register_words : (index : ℕ) → m.registers.registers index < 2 ^ 32
  pub bus_words : HoldsWords m.bus

-- Every word that a region gives.
pub word_in-lt :
    (region : Region) (bus : Bus) (address : ℕ)
    → HoldsWords bus
    → word_in region bus address < 2 ^ 32
unfolding Uart.read32 Timer.read32 Gpio.read32 DebugDevice.read32
word_in-lt rom bus address v =
    little_endian-lt _ _ _ _ (v.rom_bytes _) (v.rom_bytes _) (v.rom_bytes _) (v.rom_bytes _)
word_in-lt ram bus address v =
    little_endian-lt _ _ _ _ (v.ram_bytes _) (v.ram_bytes _) (v.ram_bytes _) (v.ram_bytes _)
word_in-lt uart bus address v = ground arith
word_in-lt timer bus address v = ground (arith, v.counter, v.compare)
word_in-lt gpio bus address v = ground (arith, v.input, v.output, v.direction)
word_in-lt debug bus address v = ground (arith, v.debug_value)
word_in-lt nothing bus address v = omega arith

stored-lt :
    (offset value : ℕ) (bytes : Bytes)
    → ((i : ℕ) → bytes i < 256)
    → (i : ℕ) → stored offset value bytes i < 256
unfolding stored byte_of
stored-lt offset value bytes v i = ground (arith, v i)

pub store_in-HoldsWords :
    (region : Region) (bus : Bus) (address value : ℕ)
    → value < 2 ^ 32
    → HoldsWords bus
    → HoldsWords (store_in region bus address value)
unfolding Uart.write32 Timer.write32 Gpio.write32 DebugDevice.write32
store_in-HoldsWords rom bus address value h v = v
store_in-HoldsWords ram bus address value h v = record {
  rom_bytes = v.rom_bytes;
  ram_bytes = stored-lt _ value bus.ram.bytes v.ram_bytes;
  counter = v.counter;
  compare = v.compare;
  input = v.input;
  output = v.output;
  direction = v.direction;
  debug_value = v.debug_value;
}
store_in-HoldsWords uart bus address value h v = record {
  rom_bytes = v.rom_bytes;
  ram_bytes = v.ram_bytes;
  counter = v.counter;
  compare = v.compare;
  input = v.input;
  output = v.output;
  direction = v.direction;
  debug_value = v.debug_value;
}
store_in-HoldsWords timer bus address value h v = record {
  rom_bytes = v.rom_bytes;
  ram_bytes = v.ram_bytes;
  counter = ground (arith, v.counter);
  compare = ground (arith, v.compare);
  input = v.input;
  output = v.output;
  direction = v.direction;
  debug_value = v.debug_value;
}
store_in-HoldsWords gpio bus address value h v = record {
  rom_bytes = v.rom_bytes;
  ram_bytes = v.ram_bytes;
  counter = v.counter;
  compare = v.compare;
  input = ground (arith, v.input);
  output = ground (arith, v.output);
  direction = ground (arith, v.direction);
  debug_value = v.debug_value;
}
store_in-HoldsWords debug bus address value h v = record {
  rom_bytes = v.rom_bytes;
  ram_bytes = v.ram_bytes;
  counter = v.counter;
  compare = v.compare;
  input = v.input;
  output = v.output;
  direction = v.direction;
  debug_value = ground (arith, v.debug_value);
}
store_in-HoldsWords nothing bus address value h v = v

pub retire_tick-HoldsWords : (bus : Bus) → HoldsWords bus → HoldsWords (retire_tick bus)
unfolding retire_tick Timer.retire_tick
retire_tick-HoldsWords bus v = record {
  rom_bytes = v.rom_bytes;
  ram_bytes = v.ram_bytes;
  counter = ground (arith, v.counter);
  compare = ground (arith, v.compare);
  input = v.input;
  output = v.output;
  direction = v.direction;
  debug_value = v.debug_value;
}
