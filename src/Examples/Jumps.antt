-- ===== src/Examples/Jumps.antt =====
-- A branch and a jump on the processor of simulator/src/cpu_core.cpp.
use bit_computer_system.Base.{ℕ, ◌==◌, ◌≡◌, arith, refl, ok, if◌then◌else◌}
use bit_computer_system.Opcode.{Opcode}
use bit_computer_system.Decoder.Fields.{format_of}
use bit_computer_system.Decoder.Encoding.{encode_b, encode_j}
use bit_computer_system.Memory.{little_endian}
use bit_computer_system.Isa.{get}
use bit_computer_system.CpuCore.{CpuCore}
use bit_computer_system.CpuCore.Steps.{StepResult, step}
use bit_computer_system.CpuCore.ControlFlow.{IsAt, step-encode_b, step-encode_j, linked}
use bit_computer_system.Examples.Machines.{start, small_bus}

-- BEQ r0, r0, 1 at address 8, and JAL -2 at address 12.
abbrev program : ℕ → ℕ
program i =
    if i == 8
    then 0x01
    else if i == 11
    then 0x40
    else if i == 12
    then 0xfe
    else if i == 13
    then 0xff
    else if i == 14
    then 0xff
    else if i == 15
    then 0x57
    else 0

abbrev at_branch : CpuCore
at_branch = record start { pc = 8; bus = record small_bus { rom = record { bytes = program } } }

abbrev at_jump : CpuCore
at_jump = record at_branch { pc = 12 }

branch-IsAt : IsAt at_branch (encode_b Opcode.beq 0 0 1)
unfolding encode_b little_endian
branch-IsAt = record {
  ready = record {
    at_fetch = refl;
    pc_word = omega arith;
    register_words = λ _. omega arith;
    rom_bytes = λ i. ground arith;
  };
  aligned = refl;
  in_rom = omega arith;
  fetches = refl;
}

jump-IsAt : IsAt at_jump (encode_j Opcode.jal 0x03fffffe)
unfolding encode_j little_endian
jump-IsAt = record {
  ready = record {
    at_fetch = refl;
    pc_word = omega arith;
    register_words = λ _. omega arith;
    rom_bytes = λ i. ground arith;
  };
  aligned = refl;
  in_rom = omega arith;
  fetches = refl;
}

step-encode_b_example :
    (cpu' : CpuCore) × (step 5 at_branch ≡ ok (StepResult.retired, cpu'))
    × (cpu'.registers ≡ at_branch.registers)
    × (cpu'.pc ≡ 16)
unfolding format_of get
step-encode_b_example =
    step-encode_b at_branch 5 Opcode.beq 0 0 1 (omega arith) refl (omega arith) (omega arith)
      (omega arith) branch-IsAt

step-encode_j_example :
    (cpu' : CpuCore) × (step 5 at_jump ≡ ok (StepResult.retired, cpu'))
    × (cpu'.registers ≡ linked Opcode.jal 12 at_jump.registers)
    × (cpu'.pc ≡ 8)
unfolding format_of
step-encode_j_example =
    step-encode_j at_jump 5 Opcode.jal 0x03fffffe (omega arith) refl (omega arith) jump-IsAt
