-- ===== src/CpuCore/Stages.antt =====
-- The states in which `CpuCore::tick` of simulator/src/cpu_core.cpp finds the processor, and the
-- microstates that follow each other.
use bit_computer_system.Base.{
  ℕ, ◌+◌, ◌%◌, ◌^◌, ◌<◌, ◌≡◌, ◌≢◌, refl, arith, Bool, true, false, if◌then◌else◌, Option, some,
}
use bit_computer_system.Decoder.{DecodedInstruction}
use bit_computer_system.Control.{ControlSignals, MemoryOperation}
use bit_computer_system.Isa.Soundness.{IsSound, HoldsWords, retire_tick-HoldsWords}
use bit_computer_system.CpuCore.{
  Microstate, fetch, decode, execute, memory, writeback, halted, fault, CpuCore, retire_to,
  cpu_core,
}
use bit_computer_system.RegisterFile as RegisterFile
use bit_computer_system.Bus.{Bus}
use bit_computer_system.CpuCore.Effects.{HasBounds}
use bit_computer_system.CpuCore.Phases.{machine_of}

-- The transitions, each with the number of instructions that it retires.
pub data Follows : Microstate → Microstate → ℕ → Type 0 where
  fetches : Follows fetch decode 0
  fetch_faults : Follows fetch fault 0
  decodes : Follows decode execute 0
  decode_faults : Follows decode fault 0
  accesses : Follows execute memory 0
  computes : Follows execute writeback 0
  transfers : Follows execute fetch 1
  loads : Follows memory writeback 0
  stores : Follows memory fetch 1
  access_faults : Follows memory fault 0
  retires : Follows writeback fetch 1
  halts : Follows writeback halted 1
  stays_halted : Follows halted halted 0
  stays_faulted : Follows fault fault 0

-- The latches hold 32-bit words, and the counter a 64-bit one.
pub record HasWords (cpu : CpuCore) : Type 0 where
  pub instruction_register : cpu.instruction_register < 2 ^ 32
  pub operand_lhs : cpu.operand_lhs < 2 ^ 32
  pub operand_rhs : cpu.operand_rhs < 2 ^ 32
  pub alu_result : cpu.alu_result < 2 ^ 32
  pub store_data : cpu.store_data < 2 ^ 32
  pub memory_data : cpu.memory_data < 2 ^ 32
  pub pc_plus_4 : cpu.pc_plus_4 < 2 ^ 32
  pub next_pc : cpu.next_pc < 2 ^ 32
  pub retired_instructions : cpu.retired_instructions < 2 ^ 64

-- The instruction and its control signals are latched.
pub record Knows (control : Option ControlSignals) (instruction : Option DecodedInstruction)
    : Type 0 where
  pub signals : ControlSignals
  pub decoded : DecodedInstruction
  pub signals_latched : control ≡ some signals
  pub decoded_latched : instruction ≡ some decoded
  pub bounds : HasBounds decoded

-- What a microstate relies on.
abbrev pub Stage : Microstate → CpuCore → Type 0
Stage fetch cpu = Unit {0}
Stage decode cpu = Unit {0}
Stage execute cpu = Knows cpu.control_signals cpu.decoded_instruction
Stage memory cpu =
    (k : Knows cpu.control_signals cpu.decoded_instruction) × (k.signals.memory_operation
      ≢ MemoryOperation.none)
Stage writeback cpu = Knows cpu.control_signals cpu.decoded_instruction
Stage halted cpu = Unit {0}
Stage fault cpu = Unit {0}

pub record IsWellFormed (cpu : CpuCore) : Type 0 where
  pub sound : IsSound (machine_of cpu)
  pub words : HasWords cpu
  pub stage : Stage cpu.microstate cpu

-- After a tick from a microstate, with a number of retired instructions before it.
pub record Ticked (s : Microstate) (n : ℕ) (cpu : CpuCore) : Type 0 where
  pub well_formed : IsWellFormed cpu
  pub retiring : ℕ
  pub follows : Follows s cpu.microstate retiring
  pub counts : cpu.retired_instructions ≡ (n + retiring) % 2 ^ 64

-- A choice keeps what both of its sides have.
pub either {ℓ κ} :
    {A : Type ℓ} (P : A → Type κ) (b : Bool) (x y : A) → P x → P y → P (if b then x else y)
either P true x y p q = p
either P false x y p q = q

pub choice {ℓ κ} :
    {A : Type ℓ} (P : A → Type κ) (b : Bool) (x y : A)
    → (b ≡ true → P x)
    → (b ≡ false → P y)
    → P (if b then x else y)
choice P true x y p q = p refl
choice P false x y p q = q refl

-- The same count, and one more.
pub same : (n : ℕ) → n < 2 ^ 64 → n ≡ (n + 0) % 2 ^ 64
same n h = omega arith

-- An instruction that retires from EXECUTE or MEMORY.
pub retired_to :
    (s : Microstate) (cpu : CpuCore) (target : ℕ)
    → Follows s fetch 1
    → target < 2 ^ 32
    → IsSound (machine_of cpu)
    → HasWords cpu
    → Ticked s cpu.retired_instructions (retire_to target cpu)
retired_to s cpu target f h v w = record {
  well_formed = record {
    sound = record {
      pc_word = h;
      register_words = v.register_words;
      bus_words = retire_tick-HoldsWords cpu.bus v.bus_words;
    };
    words = omega arith;
    stage = tt;
  };
  retiring = 1;
  follows = f;
  counts = refl;
}

-- After the constructor, on a bus that holds words and bytes.
pub cpu_core-IsWellFormed : (bus : Bus) → HoldsWords bus → IsWellFormed (cpu_core bus)
unfolding cpu_core RegisterFile.reset
cpu_core-IsWellFormed bus h = record {
  sound = record { pc_word = omega arith; register_words = λ _. omega arith; bus_words = h };
  words = omega arith;
  stage = tt;
}
