-- ===== src/Control.antt =====
-- The control unit: `control_for` of simulator/src/decoder.cpp and its types in
-- simulator/include/mini32/decoder.hpp.
use bit_computer_system.Base.{Bool, true, false, Option, some}
use bit_computer_system.Base as Base
use bit_computer_system.Alu.{AluOperation}
use bit_computer_system.Immediate.{ImmediateKind, signed16, zero_extended16, upper16}
use bit_computer_system.Opcode.{
  Opcode, nop, add, sub, and, or, xor, slt, shl, shr, addi, andi, ori, xori, lui, lw, sw, beq, bne,
  blt, bge, j, jal, jr, halt,
}

pub data WritebackSource : Type 0 where
  alu memory pc_plus_4 : WritebackSource

pub data RegisterDestination : Type 0 where
  decoded_rd return_address : RegisterDestination

pub data ControlFlowKind : Type 0 where
  sequential conditional_branch relative_jump register_jump : ControlFlowKind

pub data BranchPredicate : Type 0 where
  none equal not_equal signed_less_than signed_greater_equal : BranchPredicate

pub data MemoryOperation : Type 0 where
  none load store : MemoryOperation

pub record ControlSignals : Type 0 where
  pub reg_write : Bool
  pub alu_src_immediate : Bool
  pub alu_operation : AluOperation
  pub writeback_source : WritebackSource
  pub register_destination : RegisterDestination
  pub immediate_kind : ImmediateKind
  pub memory_operation : MemoryOperation
  pub control_flow : ControlFlowKind
  pub branch_predicate : BranchPredicate
  pub halt : Bool

-- The member initialisers of the struct.
abbrev pub defaults : ControlSignals
defaults = record {
  reg_write = false;
  alu_src_immediate = false;
  alu_operation = AluOperation.add;
  writeback_source = alu;
  register_destination = decoded_rd;
  immediate_kind = ImmediateKind.none;
  memory_operation = MemoryOperation.none;
  control_flow = sequential;
  branch_predicate = BranchPredicate.none;
  halt = false;
}

-- A register operation, and an operation with an immediate.
abbrev register_signals : AluOperation → ControlSignals
register_signals operation = record defaults { reg_write = true; alu_operation = operation }

abbrev immediate_signals : AluOperation → ImmediateKind → ControlSignals
immediate_signals operation kind = record defaults {
  reg_write = true;
  alu_src_immediate = true;
  alu_operation = operation;
  immediate_kind = kind;
}

abbrev branch_signals : BranchPredicate → ControlSignals
branch_signals predicate = record defaults {
  control_flow = conditional_branch;
  branch_predicate = predicate;
}

unfoldable pub control_for : Opcode → Option ControlSignals
control_for nop = some defaults
control_for add = some (register_signals AluOperation.add)
control_for sub = some (register_signals AluOperation.sub)
control_for and = some (register_signals AluOperation.and)
control_for or = some (register_signals AluOperation.or)
control_for xor = some (register_signals AluOperation.xor)
control_for slt = some (register_signals AluOperation.slt)
control_for shl = some (register_signals AluOperation.shift_left)
control_for shr = some (register_signals AluOperation.shift_right)
control_for addi = some (immediate_signals AluOperation.add signed16)
control_for andi = some (immediate_signals AluOperation.and zero_extended16)
control_for ori = some (immediate_signals AluOperation.or zero_extended16)
control_for xori = some (immediate_signals AluOperation.xor zero_extended16)
control_for lui = some (immediate_signals AluOperation.add upper16)
control_for lw = some (record (immediate_signals AluOperation.add signed16) {
  writeback_source = memory;
  memory_operation = load;
})
control_for sw = some (record defaults {
  alu_src_immediate = true;
  alu_operation = AluOperation.add;
  immediate_kind = signed16;
  memory_operation = store;
})
control_for beq = some (branch_signals equal)
control_for bne = some (branch_signals not_equal)
control_for blt = some (branch_signals signed_less_than)
control_for bge = some (branch_signals signed_greater_equal)
control_for j = some (record defaults { control_flow = relative_jump })
control_for jal = some (record defaults {
  reg_write = true;
  writeback_source = pc_plus_4;
  register_destination = return_address;
  control_flow = relative_jump;
})
control_for jr = some (record defaults { control_flow = register_jump })
control_for halt = some (record defaults { halt = true })
control_for _ = Base.none
