-- ===== src/CpuCore/Ticks.antt =====
-- One clock tick: `CpuCore::tick` of simulator/src/cpu_core.cpp, a function for each microstate.
use bit_computer_system.Base.{
  ℕ, ◌+◌, bit_and, Bool, true, false, not, Option, some, Result, ok, err, undefined_behaviour,
  ◌>>=◌, ltb, ◌==◌, ◌!=◌, if◌then◌else◌, bool_ne, u32, u64,
}
use bit_computer_system.Base as Base
use bit_computer_system.Alu
use bit_computer_system.RegisterFile
use bit_computer_system.RegisterFile.{RegisterFile}
use bit_computer_system.Decoder
use bit_computer_system.Decoder.{DecodedInstruction, DecodeError}
use bit_computer_system.Immediate.{immediate_value, branch_displacement, jump_displacement}
use bit_computer_system.Control.{
  ControlSignals, control_for, WritebackSource, RegisterDestination, ControlFlowKind,
  MemoryOperation,
}
use bit_computer_system.Bus
use bit_computer_system.Bus.{Bus, BusFault}
use bit_computer_system.CpuCore.{
  Microstate, fetch, decode, execute, memory, writeback, halted, fault, CpuFault,
  misaligned_instruction_fetch, unmapped_instruction_fetch, non_executable_instruction_fetch,
  illegal_instruction, malformed_instruction, unsupported_instruction, misaligned_load,
  misaligned_store, unmapped_load, unmapped_store, read_only_store, CpuCore, instruction_alignment,
  deref, enter_fault, retire_to, branch_taken,
}

abbrev pub fetch_fault : BusFault → CpuFault
fetch_fault BusFault.misaligned = misaligned_instruction_fetch
fetch_fault BusFault.non_executable = non_executable_instruction_fetch
fetch_fault BusFault.none = unmapped_instruction_fetch
fetch_fault BusFault.unmapped = unmapped_instruction_fetch
fetch_fault BusFault.read_only = unmapped_instruction_fetch

unfoldable pub tick_fetch : CpuCore → Result CpuCore
tick_fetch cpu = do
  let pc_plus_4 = u32 (cpu.pc + instruction_alignment)
  let cpu1 = record cpu { instruction_register = 0; pc_plus_4 = pc_plus_4; next_pc = pc_plus_4 }
  result ← Bus.fetch32 cpu1.bus cpu1.pc
  ok (
      if not (Bus.is_none result.fault)
      then enter_fault (fetch_fault result.fault) Base.none cpu1
      else record cpu1 { instruction_register = result.value; microstate = decode })

abbrev pub decode_ok : DecodeError → Bool
decode_ok DecodeError.none = true
decode_ok DecodeError.illegal_opcode = false
decode_ok DecodeError.malformed_encoding = false

abbrev pub decode_fault : DecodeError → CpuFault
decode_fault DecodeError.illegal_opcode = illegal_instruction
decode_fault DecodeError.none = malformed_instruction
decode_fault DecodeError.malformed_encoding = malformed_instruction

-- The reads of the register file, once the control signals are there.
unfoldable pub read_operands : DecodedInstruction → ControlSignals → CpuCore → Result CpuCore
read_operands decoded signals cpu = do
  operand_lhs ← RegisterFile.read cpu.registers decoded.rs1
  operand_rhs ←
      if signals.alu_src_immediate
      then ok (immediate_value signals.immediate_kind decoded.imm16)
      else RegisterFile.read cpu.registers decoded.rs2
  store_data ← RegisterFile.read cpu.registers decoded.rs2
  ok (record cpu {
    operand_lhs = operand_lhs;
    operand_rhs = operand_rhs;
    store_data = store_data;
    microstate = execute;
  })

-- DECODE faults when an opcode has no control signals.
unfoldable pub with_signals : Option ControlSignals → DecodedInstruction → CpuCore → Result CpuCore
unfolding read_operands
with_signals Base.none decoded cpu = ok (enter_fault unsupported_instruction Base.none cpu)
with_signals (some signals) decoded cpu = read_operands decoded signals cpu

unfoldable pub tick_decode : CpuCore → Result CpuCore
unfolding with_signals
tick_decode cpu =
    let result = Decoder.decode cpu.instruction_register in
    if not (decode_ok result.error)
    then ok (enter_fault (decode_fault result.error) Base.none cpu)
    else do
      decoded ← deref result.instruction
      let signals = control_for decoded.opcode
      let cpu1 = record cpu { decoded_instruction = result.instruction; control_signals = signals }
      with_signals signals decoded cpu1

abbrev pub after_execute : MemoryOperation → Microstate
after_execute MemoryOperation.none = writeback
after_execute MemoryOperation.load = memory
after_execute MemoryOperation.store = memory

-- The four ends of EXECUTE; a jump that links goes on to WRITEBACK with its target kept.
unfoldable pub execute_flow : ControlFlowKind → ControlSignals → CpuCore → Result CpuCore
execute_flow ControlFlowKind.conditional_branch signals cpu = do
  decoded ← deref cpu.decoded_instruction
  let branch_target = u32 (cpu.pc_plus_4 + branch_displacement decoded.imm16)
  ok (
      retire_to
        (if branch_taken signals.branch_predicate cpu.operand_lhs cpu.operand_rhs
          then branch_target
          else cpu.pc_plus_4)
        cpu)
execute_flow ControlFlowKind.relative_jump signals cpu = do
  decoded ← deref cpu.decoded_instruction
  let next_pc = u32 (cpu.pc_plus_4 + jump_displacement decoded.imm26)
  let cpu1 = record cpu { next_pc = next_pc }
  ok (
      if not signals.reg_write
      then retire_to next_pc cpu1
      else record cpu1 { microstate = after_execute signals.memory_operation })
execute_flow ControlFlowKind.register_jump signals cpu = ok (retire_to cpu.operand_lhs cpu)
execute_flow ControlFlowKind.sequential signals cpu =
    ok (record cpu { microstate = after_execute signals.memory_operation })

unfoldable pub tick_execute : CpuCore → Result CpuCore
unfolding execute_flow
tick_execute cpu = do
  signals ← deref cpu.control_signals
  let alu_result = Alu.execute signals.alu_operation cpu.operand_lhs cpu.operand_rhs
  execute_flow signals.control_flow signals (record cpu { alu_result = alu_result })

abbrev pub load_fault : BusFault → CpuFault
load_fault BusFault.misaligned = misaligned_load
load_fault BusFault.none = unmapped_load
load_fault BusFault.unmapped = unmapped_load
load_fault BusFault.read_only = unmapped_load
load_fault BusFault.non_executable = unmapped_load

abbrev pub store_fault : BusFault → CpuFault
store_fault BusFault.misaligned = misaligned_store
store_fault BusFault.read_only = read_only_store
store_fault BusFault.none = unmapped_store
store_fault BusFault.unmapped = unmapped_store
store_fault BusFault.non_executable = unmapped_store

unfoldable pub memory_access : MemoryOperation → CpuCore → Result CpuCore
memory_access MemoryOperation.load cpu = do
  result ← Bus.read32 cpu.bus cpu.alu_result
  ok (
      if not (Bus.is_none result.fault)
      then enter_fault (load_fault result.fault) (some cpu.alu_result) cpu
      else record cpu { memory_data = result.value; microstate = writeback })
memory_access MemoryOperation.store cpu = do
  (bus, result) ← Bus.write32 cpu.bus cpu.alu_result cpu.store_data
  let cpu1 = record cpu { bus = bus }
  ok (
      if not (Bus.is_none result.fault)
      then enter_fault (store_fault result.fault) (some cpu1.alu_result) cpu1
      else retire_to cpu1.next_pc cpu1)
memory_access MemoryOperation.none cpu = ok cpu

unfoldable pub tick_memory : CpuCore → Result CpuCore
unfolding memory_access
tick_memory cpu = do signals ← deref cpu.control_signals; memory_access signals.memory_operation cpu

abbrev pub writeback_value : WritebackSource → CpuCore → ℕ
writeback_value WritebackSource.alu cpu = cpu.alu_result
writeback_value WritebackSource.memory cpu = cpu.memory_data
writeback_value WritebackSource.pc_plus_4 cpu = cpu.pc_plus_4

abbrev pub destination : RegisterDestination → Option DecodedInstruction → Result ℕ
destination RegisterDestination.return_address decoded = ok 31
destination RegisterDestination.decoded_rd decoded = do d ← deref decoded; ok d.rd

unfoldable pub tick_writeback : CpuCore → Result CpuCore
tick_writeback cpu = do
  signals ← deref cpu.control_signals
  registers ←
      if signals.reg_write
      then (do
        index ← destination signals.register_destination cpu.decoded_instruction
        RegisterFile.write cpu.registers index (writeback_value signals.writeback_source cpu))
      else ok cpu.registers
  ok (record cpu {
    registers = registers;
    pc = cpu.next_pc;
    retired_instructions = u64 (cpu.retired_instructions + 1);
    bus = Bus.retire_tick cpu.bus;
    microstate = if signals.halt then halted else fetch;
  })

unfoldable pub tick_in : Microstate → CpuCore → Result CpuCore
unfolding tick_fetch tick_decode tick_execute tick_memory tick_writeback
tick_in fetch cpu = tick_fetch cpu
tick_in decode cpu = tick_decode cpu
tick_in execute cpu = tick_execute cpu
tick_in memory cpu = tick_memory cpu
tick_in writeback cpu = tick_writeback cpu
tick_in halted cpu = ok cpu
tick_in fault cpu = ok cpu

unfoldable pub tick : CpuCore → Result CpuCore
unfolding tick_in
tick cpu = tick_in cpu.microstate cpu
