-- ===== src/CpuCore/Invariant/Retiring.antt =====
-- The invariant over WRITEBACK of `CpuCore::tick`, simulator/src/cpu_core.cpp.
use bit_computer_system.Base.{
  ℕ, ◌+◌, ◌^◌, ◌<◌, ◌≡◌, ◌∙◌, refl, ap, arith, Bool, true, false, if◌then◌else◌, Option, some, ok,
  ◌>>=◌, Returns, bind_ok, u64,
}
use bit_computer_system.RegisterFile as RegisterFile
use bit_computer_system.RegisterFile.{RegisterFile}
use bit_computer_system.Decoder.{DecodedInstruction}
use bit_computer_system.Control.{WritebackSource, RegisterDestination}
use bit_computer_system.Bus as Bus
use bit_computer_system.Bus.{Bus, BusFault}
use bit_computer_system.Isa.{put}
use bit_computer_system.Isa.Soundness.{IsSound, retire_tick-HoldsWords}
use bit_computer_system.Isa.Preservation.{put-lt}
use bit_computer_system.CpuCore.{fetch, writeback, halted, CpuCore, deref}
use bit_computer_system.CpuCore.Ticks.{writeback_value, destination, tick_writeback}
use bit_computer_system.CpuCore.Effects.{HasBounds}
use bit_computer_system.CpuCore.Phases.{machine_of, write-put}
use bit_computer_system.CpuCore.Stages.{retires, halts, HasWords, Knows, Ticked}

-- The register that is written back.
destination_keeps :
    (to : RegisterDestination) (instruction : Option DecodedInstruction) (d : DecodedInstruction)
    → instruction ≡ some d
    → HasBounds d
    → Returns (λ i. i < 32) (destination to instruction)
destination_keeps RegisterDestination.return_address instruction d e b = (31, refl, omega arith)
destination_keeps RegisterDestination.decoded_rd instruction d e b =
    (d.rd, bind_ok (deref instruction) d _ (ap deref e), b.rd)

writeback_value-lt :
    (source : WritebackSource) (cpu : CpuCore) → HasWords cpu → writeback_value source cpu < 2 ^ 32
writeback_value-lt WritebackSource.alu cpu w = w.alu_result
writeback_value-lt WritebackSource.memory cpu w = w.memory_data
writeback_value-lt WritebackSource.pc_plus_4 cpu w = w.pc_plus_4

-- The registers after WRITEBACK.
written :
    (b : Bool) (cpu : CpuCore) (k : Knows cpu.control_signals cpu.decoded_instruction)
    → IsSound (machine_of cpu)
    → HasWords cpu
    → Returns
        (λ (r : RegisterFile). (j : ℕ) → r.registers j < 2 ^ 32)
        (if b
          then (do
            index ← destination k.signals.register_destination cpu.decoded_instruction
            RegisterFile.write cpu.registers index (writeback_value k.signals.writeback_source cpu))
          else ok cpu.registers)
written false cpu k v w = (cpu.registers, refl, v.register_words)
written true cpu k v w =
    let value = writeback_value k.signals.writeback_source cpu in
    let (i, e, h) =
      destination_keeps k.signals.register_destination cpu.decoded_instruction k.decoded
        k.decoded_latched k.bounds in
    (
      put cpu.registers i value,
      bind_ok (destination k.signals.register_destination cpu.decoded_instruction) i
            (λ (j : ℕ). RegisterFile.write cpu.registers j value) e
          ∙ write-put cpu.registers i value h,
      put-lt cpu.registers i value v.register_words
          (writeback_value-lt k.signals.writeback_source cpu w),
    )

-- What WRITEBACK makes of the registers.
abbrev written_back : CpuCore → Bool → RegisterFile → CpuCore
written_back cpu halt registers = record cpu {
  registers = registers;
  pc = cpu.next_pc;
  retired_instructions = u64 (cpu.retired_instructions + 1);
  bus = Bus.retire_tick cpu.bus;
  microstate = if halt then halted else fetch;
}

written_back_keeps :
    (cpu : CpuCore) (halt : Bool) (registers : RegisterFile)
    → ((j : ℕ) → registers.registers j < 2 ^ 32)
    → IsSound (machine_of cpu)
    → HasWords cpu
    → Ticked writeback cpu.retired_instructions (written_back cpu halt registers)
written_back_keeps cpu true registers h v w = record {
  well_formed = record {
    sound = record {
      pc_word = w.next_pc;
      register_words = h;
      bus_words = retire_tick-HoldsWords cpu.bus v.bus_words;
    };
    words = omega arith;
    stage = tt;
  };
  retiring = 1;
  follows = halts;
  counts = refl;
}
written_back_keeps cpu false registers h v w = record {
  well_formed = record {
    sound = record {
      pc_word = w.next_pc;
      register_words = h;
      bus_words = retire_tick-HoldsWords cpu.bus v.bus_words;
    };
    words = omega arith;
    stage = tt;
  };
  retiring = 1;
  follows = retires;
  counts = refl;
}

pub tick_writeback_keeps :
    (cpu : CpuCore) (k : Knows cpu.control_signals cpu.decoded_instruction)
    → IsSound (machine_of cpu)
    → HasWords cpu
    → Returns (Ticked writeback cpu.retired_instructions) (tick_writeback cpu)
unfolding tick_writeback
tick_writeback_keeps cpu k v w =
    let (registers, writes, small) = written k.signals.reg_write cpu k v w in
    (
      written_back cpu k.signals.halt registers,
      bind_ok (deref cpu.control_signals) k.signals _ (ap deref k.signals_latched)
          ∙ bind_ok _ registers (λ (r : RegisterFile). ok (written_back cpu k.signals.halt r))
              writes,
      written_back_keeps cpu k.signals.halt registers small v w,
    )
