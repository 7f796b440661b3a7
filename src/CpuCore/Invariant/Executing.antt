-- ===== src/CpuCore/Invariant/Executing.antt =====
-- The invariant over EXECUTE of `CpuCore::tick`, simulator/src/cpu_core.cpp.
use bit_computer_system.Base.{◌+◌, ◌^◌, ◌<◌, ◌≡◌, ◌∙◌, refl, ap, arith, not, Returns, bind_ok, u32}
use bit_computer_system.Alu as Alu
use bit_computer_system.Alu.Bounds.{execute-lt}
use bit_computer_system.Immediate.{branch_displacement, jump_displacement}
use bit_computer_system.Control.{ControlSignals, MemoryOperation, ControlFlowKind}
use bit_computer_system.Isa.Soundness.{IsSound}
use bit_computer_system.CpuCore.{execute, CpuCore, deref, branch_taken}
use bit_computer_system.CpuCore.Ticks.{after_execute, execute_flow, tick_execute}
use bit_computer_system.CpuCore.Phases.{machine_of}
use bit_computer_system.CpuCore.Stages.{
  accesses, computes, transfers, HasWords, Knows, Ticked, either, same, retired_to,
}

-- An instruction that goes on after EXECUTE.
goes_on :
    (cpu : CpuCore) (k : Knows cpu.control_signals cpu.decoded_instruction)
    → IsSound (machine_of cpu)
    → HasWords cpu
    → (operation : MemoryOperation) → k.signals.memory_operation ≡ operation
    → Ticked execute cpu.retired_instructions (record cpu { microstate = after_execute operation })
goes_on cpu k v w MemoryOperation.none e = record {
  well_formed = record { sound = v; words = omega arith; stage = k };
  retiring = 0;
  follows = computes;
  counts = same cpu.retired_instructions w.retired_instructions;
}
goes_on cpu k v w MemoryOperation.load e = record {
  well_formed = record { sound = v; words = omega arith; stage = (k, λ n. cc) };
  retiring = 0;
  follows = accesses;
  counts = same cpu.retired_instructions w.retired_instructions;
}
goes_on cpu k v w MemoryOperation.store e = record {
  well_formed = record { sound = v; words = omega arith; stage = (k, λ n. cc) };
  retiring = 0;
  follows = accesses;
  counts = same cpu.retired_instructions w.retired_instructions;
}

execute_flow_keeps :
    (flow : ControlFlowKind) (cpu : CpuCore) (k : Knows cpu.control_signals cpu.decoded_instruction)
    → IsSound (machine_of cpu)
    → HasWords cpu
    → Returns (Ticked execute cpu.retired_instructions) (execute_flow flow k.signals cpu)
unfolding execute_flow
execute_flow_keeps ControlFlowKind.conditional_branch cpu k v w = (
  _,
  bind_ok (deref cpu.decoded_instruction) k.decoded _ (ap deref k.decoded_latched),
  retired_to execute cpu _ transfers
      (either (λ n. n < 2 ^ 32)
        (branch_taken k.signals.branch_predicate cpu.operand_lhs cpu.operand_rhs) _ _
        (let h : u32 (cpu.pc_plus_4 + branch_displacement k.decoded.imm16) < 2 ^ 32 = omega arith in
          h)
        w.pc_plus_4)
      v w,
)
execute_flow_keeps ControlFlowKind.relative_jump cpu k v w =
    let target = u32 (cpu.pc_plus_4 + jump_displacement k.decoded.imm26) in
    let small : target < 2 ^ 32 = omega arith in
    let next : CpuCore = record cpu { next_pc = target } in
    let words : HasWords next = omega arith in
    (
      _,
      bind_ok (deref cpu.decoded_instruction) k.decoded _ (ap deref k.decoded_latched),
      either (Ticked execute cpu.retired_instructions) (not k.signals.reg_write) _ _
          (retired_to execute next target transfers small v words)
          (goes_on next k v words k.signals.memory_operation refl),
    )
execute_flow_keeps ControlFlowKind.register_jump cpu k v w =
    (_, refl, retired_to execute cpu cpu.operand_lhs transfers w.operand_lhs v w)
execute_flow_keeps ControlFlowKind.sequential cpu k v w =
    (_, refl, goes_on cpu k v w k.signals.memory_operation refl)

pub tick_execute_keeps :
    (cpu : CpuCore) (k : Knows cpu.control_signals cpu.decoded_instruction)
    → IsSound (machine_of cpu)
    → HasWords cpu
    → Returns (Ticked execute cpu.retired_instructions) (tick_execute cpu)
unfolding tick_execute
tick_execute_keeps cpu k v w =
    let value = Alu.execute k.signals.alu_operation cpu.operand_lhs cpu.operand_rhs in
    let small : value < 2 ^ 32 =
      execute-lt k.signals.alu_operation cpu.operand_lhs cpu.operand_rhs w.operand_lhs
        w.operand_rhs in
    let next : CpuCore = record cpu { alu_result = value } in
    let (cpu', goes, ticked) = execute_flow_keeps k.signals.control_flow next k v (omega arith) in
    (
      cpu',
      bind_ok (deref cpu.control_signals) k.signals
            (λ (s : ControlSignals). execute_flow s.control_flow s (record cpu {
              alu_result = Alu.execute s.alu_operation cpu.operand_lhs cpu.operand_rhs;
            }))
            (ap deref k.signals_latched)
          ∙ goes,
      ticked,
    )
