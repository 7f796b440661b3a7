-- ===== src/Simulator/Images.antt =====
-- The simulator of simulator/app/main.cpp on a whole program image.
use bit_computer_system.Base.{
  ℕ, ◌+◌, ◌^◌, ◌<◌, ◌≤◌, ◌≡◌, ◌∙◌, ◌⊎◌, refl, sym, ap, arith, ltb, Result, ok, ◌>>=◌, length,
  get_elem?, some, List, [], true, false, Bool-cases, inl, inr,
}
use bit_computer_system.Memory.{size_bytes}
use bit_computer_system.RegisterFile
use bit_computer_system.Uart as Uart
use bit_computer_system.Rom as Rom
use bit_computer_system.Rom.Loading.{load_bytes_fits}
use bit_computer_system.Isa.{Machine}
use bit_computer_system.Isa.Soundness.{IsSound}
use bit_computer_system.Isa.Execution.{execute}
use bit_computer_system.CpuCore.{CpuCore, cpu_core}
use bit_computer_system.Simulator.{Exit, run_loop, run_image, new_bus, new_rom}
use bit_computer_system.Simulator.Runs.{exit_of, Agrees, run_loop-execute}

abbrev pub AreBytes : List ℕ → Type 0
AreBytes image = (i b : ℕ) → get_elem? image i ≡ some b → b < 256

-- The machine that a program is to find before its first instruction, written out: the registers,
-- the program counter, the RAM and the devices are zero, and the UART has a host that listens.
abbrev pub powered : Rom.Rom → Machine
powered rom = record {
  registers = record { registers = λ _. 0 };
  pc = 0;
  bus = record {
    rom = rom;
    ram = record { bytes = λ _. 0 };
    uart = record { tx_callback = true; transmitted = [] };
    debug = record { value = 0 };
    timer = record { counter = 0; compare = 0; enabled = false };
    gpio = record { input = 0; output = 0; direction = 0 };
  };
}

module _ (rom : Rom.Rom) (v : (i : ℕ) → rom.bytes i < 256) where
  powered-IsSound : IsSound (powered rom)
  powered-IsSound = record {
    pc_word = omega arith;
    register_words = λ _. omega arith;
    bus_words = record {
      rom_bytes = v;
      ram_bytes = λ _. omega arith;
      counter = omega arith;
      compare = omega arith;
      input = omega arith;
      output = omega arith;
      direction = omega arith;
      debug_value = omega arith;
    };
  }

-- Whether the cell is in the image or behind it, it holds a byte.
loaded-lt :
    (rom : Rom.Rom) (image : List ℕ)
    → AreBytes image
    → ((i : ℕ) → i < length image → some (rom.bytes (0 + i)) ≡ get_elem? image i)
    → ((j : ℕ) → (j < 0) ⊎ (0 + length image ≤ j) → rom.bytes j ≡ 0)
    → (i : ℕ) → rom.bytes i < 256
loaded-lt rom image v inside outside i = elim (Bool-cases (ltb i (length image))) [
  | inl here ↦ v i (rom.bytes i) (
      sym (inside i (ground arith))
      ∙ ap (λ (k : ℕ). some (rom.bytes k)) (let e : 0 + i ≡ i = omega arith in e))
  | inr behind ↦ let e = outside i (inr (ground arith)) in omega arith
]

-- The ROM is loaded, and the machine around it holds words and bytes.
pub loaded-IsSound :
    (image : List ℕ)
    → AreBytes image
    → length image ≤ size_bytes
    → (rom : Rom.Rom) × (Rom.load_bytes new_rom 0 image ≡ ok rom) × IsSound (powered rom)
loaded-IsSound image v room =
    let (rom, loads, inside, outside) =
      load_bytes_fits new_rom 0 image (omega arith) (omega arith) in
    (rom, loads, powered-IsSound rom (loaded-lt rom image v inside outside))

-- The run of an image that is accepted: its ending, the registers, program counter, bus and retired
-- count are those of the execution by the instruction set.
pub run_image-execute :
    (ticks rounds limit : ℕ) (image : List ℕ)
    → 5 ≤ ticks
    → limit < rounds
    → limit < 2 ^ 64
    → AreBytes image
    → length image ≤ size_bytes
    → (rom : Rom.Rom) × (cpu : CpuCore) × (Rom.load_bytes new_rom 0 image ≡ ok rom)
      × (run_image ticks rounds limit image
          ≡ ok (exit_of (execute limit 0 (powered rom)).ending, cpu))
      × Agrees cpu (execute limit 0 (powered rom))
unfolding run_image cpu_core RegisterFile.reset Uart.uart
run_image-execute ticks rounds limit image enough more small v room =
    let (rom, loads, sound) = loaded-IsSound image v room in
    let (cpu, runs, agrees) =
      run_loop-execute ticks rounds limit limit (cpu_core (new_bus rom)) enough small (omega arith)
        more refl sound in
    (rom, cpu, loads, ap started loads ∙ runs, agrees)
  where
    started : Result Rom.Rom → Result (Exit × CpuCore)
    started r = do rom ← r; run_loop ticks rounds limit (cpu_core (new_bus rom))
