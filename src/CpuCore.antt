-- ===== src/CpuCore.antt =====
-- The processor: simulator/src/cpu_core.cpp and simulator/include/mini32/cpu_core.hpp.
pub mod Ticks
pub mod Steps
pub mod Fuel
pub mod Phases
pub mod Paths
pub mod Accesses
pub mod Faults
pub mod Effects
pub mod Branches
pub mod Transfers
pub mod Instructions
pub mod Refinement
pub mod Soundness
pub mod Stages
pub mod Invariant
pub mod Liveness
pub mod ControlFlow
use bit_computer_system.Base.{
  ℕ, ◌+◌, bit_and, Bool, true, false, not, Option, some, Result, ok, err, undefined_behaviour,
  ◌>>=◌, ltb, ◌==◌, ◌!=◌, if◌then◌else◌, bool_ne, u32, u64,
}
use bit_computer_system.Base as Base
use bit_computer_system.Alu
use bit_computer_system.RegisterFile
use bit_computer_system.RegisterFile.{RegisterFile}
use bit_computer_system.Decoder
use bit_computer_system.Decoder.{DecodedInstruction, DecodeError}
use bit_computer_system.Immediate.{immediate_value, branch_displacement, jump_displacement}
use bit_computer_system.Control.{
  ControlSignals, control_for, WritebackSource, RegisterDestination, ControlFlowKind,
  BranchPredicate, MemoryOperation,
}
use bit_computer_system.Bus
use bit_computer_system.Bus.{Bus, BusFault}

pub data Microstate : Type 0 where
  fetch decode execute memory writeback halted fault : Microstate

pub data CpuFault : Type 0 where
  none misaligned_instruction_fetch unmapped_instruction_fetch : CpuFault
  non_executable_instruction_fetch illegal_instruction malformed_instruction : CpuFault
  unsupported_instruction misaligned_load misaligned_store unmapped_load unmapped_store : CpuFault
  read_only_store : CpuFault

pub record FaultInfo : Type 0 where
  pub code : CpuFault
  pub pc : ℕ
  pub instruction : ℕ
  pub data_address : Option ℕ

-- The processor and the bus that it refers to.
pub record CpuCore : Type 0 where
  pub bus : Bus
  pub registers : RegisterFile
  pub pc : ℕ
  pub instruction_register : ℕ
  pub operand_lhs : ℕ
  pub operand_rhs : ℕ
  pub alu_result : ℕ
  pub store_data : ℕ
  pub memory_data : ℕ
  pub pc_plus_4 : ℕ
  pub next_pc : ℕ
  pub microstate : Microstate
  pub decoded_instruction : Option DecodedInstruction
  pub control_signals : Option ControlSignals
  pub retired_instructions : ℕ
  pub fault_info : FaultInfo

abbrev pub instruction_alignment : ℕ
instruction_alignment = 4

abbrev pub no_fault : FaultInfo
no_fault = record { code = none; pc = 0; instruction = 0; data_address = Base.none }

unfoldable pub reset : CpuCore → CpuCore
reset cpu = record {
  bus = cpu.bus;
  registers = RegisterFile.reset;
  pc = 0;
  instruction_register = 0;
  operand_lhs = 0;
  operand_rhs = 0;
  alu_result = 0;
  store_data = 0;
  memory_data = 0;
  pc_plus_4 = 0;
  next_pc = 0;
  microstate = fetch;
  decoded_instruction = Base.none;
  control_signals = Base.none;
  retired_instructions = 0;
  fault_info = no_fault;
}

-- The constructor: the members' initialisers, and a reset.
unfoldable pub cpu_core : Bus → CpuCore
unfolding reset
cpu_core bus = reset (record {
  bus = bus;
  registers = record { registers = λ _. 0 };
  pc = 0;
  instruction_register = 0;
  operand_lhs = 0;
  operand_rhs = 0;
  alu_result = 0;
  store_data = 0;
  memory_data = 0;
  pc_plus_4 = 0;
  next_pc = 0;
  microstate = fetch;
  decoded_instruction = Base.none;
  control_signals = Base.none;
  retired_instructions = 0;
  fault_info = no_fault;
})

-- The helper of the same name in cpu_core.cpp.
unfoldable pub signed_less_than : ℕ → ℕ → Bool
signed_less_than lhs rhs =
    let lhs_negative = bit_and lhs 0x80000000 != 0 in
    let rhs_negative = bit_and rhs 0x80000000 != 0 in
    if bool_ne lhs_negative rhs_negative then lhs_negative else ltb lhs rhs

-- `*optional`, undefined behaviour when it is empty.
abbrev pub deref {ℓ} : {A : Type ℓ} → Option A → Result A
deref Base.none = err undefined_behaviour
deref (some a) = ok a

abbrev pub enter_fault : CpuFault → Option ℕ → CpuCore → CpuCore
enter_fault code data_address cpu = record cpu {
  fault_info = record {
    code = code;
    pc = cpu.pc;
    instruction = cpu.instruction_register;
    data_address = data_address;
  };
  microstate = fault;
}

abbrev pub retire_to : ℕ → CpuCore → CpuCore
retire_to next_pc cpu = record cpu {
  pc = next_pc;
  retired_instructions = u64 (cpu.retired_instructions + 1);
  bus = Bus.retire_tick cpu.bus;
  microstate = fetch;
}

unfoldable pub branch_taken : BranchPredicate → ℕ → ℕ → Bool
unfolding signed_less_than
branch_taken BranchPredicate.equal lhs rhs = lhs == rhs
branch_taken BranchPredicate.not_equal lhs rhs = lhs != rhs
branch_taken BranchPredicate.signed_less_than lhs rhs = signed_less_than lhs rhs
branch_taken BranchPredicate.signed_greater_equal lhs rhs = not (signed_less_than lhs rhs)
branch_taken BranchPredicate.none lhs rhs = false
