-- ===== src/CpuCore/Soundness.antt =====
-- What a call of `CpuCore::step`, simulator/src/cpu_core.cpp, needs, from words and bytes.
use bit_computer_system.Base.{◌≡◌}
use bit_computer_system.Isa.Soundness.{IsSound}
use bit_computer_system.CpuCore.{CpuCore, Microstate}
use bit_computer_system.CpuCore.Phases.{machine_of}
use bit_computer_system.CpuCore.Refinement.{IsReady}

pub sound-IsReady :
    (cpu : CpuCore) → cpu.microstate ≡ Microstate.fetch → IsSound (machine_of cpu) → IsReady cpu
sound-IsReady cpu f v = record {
  at_fetch = f;
  pc_word = v.pc_word;
  register_words = v.register_words;
  rom_bytes = v.bus_words.rom_bytes;
}
