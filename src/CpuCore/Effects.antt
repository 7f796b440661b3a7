-- ===== src/CpuCore/Effects.antt =====
-- What an effect of the instruction set looks like on the processor.
use bit_computer_system.Base.{ℕ, ◌+◌, ◌^◌, ◌<◌, ◌≡◌, ◌∙◌, arith, u64}
use bit_computer_system.RegisterFile.{RegisterFile}
use bit_computer_system.Decoder.Fields.{format_of}
use bit_computer_system.Decoder.{
  DecodedInstruction, InstructionFormat, r_format, i_format, s_format, b_format, j_format,
  jr_format,
}
use bit_computer_system.Decoder.Encoding.{IsInstruction, Fits}
use bit_computer_system.Isa.{get, Effect, continues, stops, faults}
use bit_computer_system.CpuCore.{CpuCore, Microstate}
use bit_computer_system.CpuCore.Phases.{Observation, machine_of, Ends}

-- Every register holds a 32-bit word.
abbrev pub AreWords : RegisterFile → Type 0
AreWords r = (index : ℕ) → r.registers index < 2 ^ 32

pub get-lt : (r : RegisterFile) (index : ℕ) → AreWords r → get r index < 2 ^ 32
unfolding get
get-lt r index v = ground (arith, v index)

abbrev pub shows : CpuCore → Effect → Observation
shows cpu (continues m) = record {
  machine = m;
  microstate = Microstate.fetch;
  retired = u64 (cpu.retired_instructions + 1);
  fault_info = cpu.fault_info;
}
shows cpu (stops m) = record {
  machine = m;
  microstate = Microstate.halted;
  retired = u64 (cpu.retired_instructions + 1);
  fault_info = cpu.fault_info;
}
shows cpu (faults code word data_address) = record {
  machine = machine_of cpu;
  microstate = Microstate.fault;
  retired = cpu.retired_instructions;
  fault_info = record { code = code; pc = cpu.pc; instruction = word; data_address = data_address };
}

pub record HasBounds (d : DecodedInstruction) : Type 0 where
  pub rd : d.rd < 32
  pub rs1 : d.rs1 < 32
  pub rs2 : d.rs2 < 32
  pub imm16 : d.imm16 < 2 ^ 16
  pub imm26 : d.imm26 < 2 ^ 26

Fits-bounds : (format : InstructionFormat) (d : DecodedInstruction) → Fits format d → HasBounds d
Fits-bounds r_format d f = omega arith
Fits-bounds i_format d f = omega arith
Fits-bounds s_format d f = omega arith
Fits-bounds b_format d f = omega arith
Fits-bounds j_format d f = omega arith
Fits-bounds jr_format d f = omega arith

pub IsInstruction-bounds : (d : DecodedInstruction) → IsInstruction d → HasBounds d
IsInstruction-bounds d v = Fits-bounds (format_of d.opcode) d v.fits

pub Ends-as :
    (fuel n : ℕ) (cpu : CpuCore) {o o' : Observation}
    → Ends fuel n cpu o
    → o ≡ o'
    → Ends fuel n cpu o'
Ends-as fuel n cpu (last, runs, same) e = (last, runs, same ∙ e)
