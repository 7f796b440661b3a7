-- ===== src/CpuCore/Paths.antt =====
-- The ways of an instruction from EXECUTE on, one lemma for each kind of control signals.
use bit_computer_system.Base.{
  ℕ, ◌+◌, ◌<◌, ◌≡◌, refl, arith, Bool, true, false, not, ◌&&◌, ◌==◌, if◌then◌else◌, some, u32, u64,
}
use bit_computer_system.Alu
use bit_computer_system.Decoder.{DecodedInstruction}
use bit_computer_system.Immediate.{
  ImmediateKind, immediate_value, branch_displacement, jump_displacement,
}
use bit_computer_system.Control.{
  ControlSignals, defaults, WritebackSource, RegisterDestination, ControlFlowKind, BranchPredicate,
}
use bit_computer_system.Bus
use bit_computer_system.Bus.{Bus, BusFault}
use bit_computer_system.Isa.{get, put, Machine}
use bit_computer_system.CpuCore.{
  Microstate, fetch, writeback, halted, fault, CpuCore, branch_taken, CpuFault,
}
use bit_computer_system.CpuCore.Ticks.{tick}
use bit_computer_system.CpuCore.Steps.{is_halted, is_fault}
use bit_computer_system.CpuCore.Phases.{
  decoded, Observation, Ends, Ends-tick, Ends-now, same_count, one_more, write-put, ok_either,
}

-- A retired instruction ends the loop, halted or not.
ended :
    (halt : Bool) (n : ℕ)
    → let microstate = if halt then halted else fetch in
      (not (is_halted microstate) && (not (is_fault microstate) && u64 (n + 1) == n)) ≡ false
ended true n = refl
ended false n = one_more n

module _ (cpu : CpuCore) (w : ℕ) (d : DecodedInstruction) where
  abbrev pub lhs : ℕ
  lhs = get cpu.registers d.rs1

  abbrev pub rhs : ControlSignals → ℕ
  rhs s =
      if s.alu_src_immediate
      then immediate_value s.immediate_kind d.imm16
      else get cpu.registers d.rs2

  abbrev pub result : ControlSignals → ℕ
  result s = Alu.execute s.alu_operation lhs (rhs s)

  abbrev pub following : ℕ
  following = u32 (cpu.pc + 4)

  -- What is seen after an instruction retires.
  abbrev pub retires : Machine → Microstate → Observation
  retires m microstate = record {
    machine = record m { bus = Bus.retire_tick m.bus };
    microstate = microstate;
    retired = u64 (cpu.retired_instructions + 1);
    fault_info = cpu.fault_info;
  }

  -- What is seen after a data access faults.
  abbrev pub access_faults : CpuFault → ℕ → Observation
  access_faults code address = record {
    machine = record { registers = cpu.registers; pc = cpu.pc; bus = cpu.bus };
    microstate = fault;
    retired = cpu.retired_instructions;
    fault_info = record { code = code; pc = cpu.pc; instruction = w; data_address = some address };
  }

  abbrev pub executed : ControlSignals → Microstate → CpuCore
  executed s microstate = record (decoded w d s cpu) {
    alu_result = result s;
    microstate = microstate;
  }

  -- No branch and no memory access: the arithmetic result is written back.
  abbrev pub sequential : Bool → Bool → Alu.AluOperation → ImmediateKind → Bool → ControlSignals
  sequential reg_write alu_src_immediate operation kind halt = record defaults {
    reg_write = reg_write;
    alu_src_immediate = alu_src_immediate;
    alu_operation = operation;
    immediate_kind = kind;
    halt = halt;
  }

  pub sequential-Ends :
      (reg_write alu_src_immediate : Bool) (operation : Alu.AluOperation) (kind : ImmediateKind)
      (halt : Bool)
      → d.rd < 32
      → let s = sequential reg_write alu_src_immediate operation kind halt in
        Ends 3 cpu.retired_instructions (decoded w d s cpu) (
          retires
            (record {
              registers = if reg_write then put cpu.registers d.rd (result s) else cpu.registers;
              pc = following;
              bus = cpu.bus;
            })
            (if halt then halted else fetch))
  unfolding tick
  sequential-Ends reg_write alu_src_immediate operation kind halt h =
      let s = sequential reg_write alu_src_immediate operation kind halt in
      let n = cpu.retired_instructions in
      let registers' = if reg_write then put cpu.registers d.rd (result s) else cpu.registers in
      let after : CpuCore = record (executed s writeback) {
        registers = registers';
        pc = following;
        retired_instructions = u64 (n + 1);
        bus = Bus.retire_tick cpu.bus;
        microstate = if halt then halted else fetch;
      } in
      Ends-tick 2 n _ (executed s writeback) refl (same_count n) (
        Ends-tick 1 n _ after
          (rw (write-put cpu.registers d.rd (result s) h, ok_either reg_write _ _) refl)
          (same_count n) (Ends-now 1 n after (ended halt n) refl))

  -- A conditional branch retires from EXECUTE.
  abbrev pub branching : BranchPredicate → ControlSignals
  branching predicate = record defaults {
    control_flow = ControlFlowKind.conditional_branch;
    branch_predicate = predicate;
  }

  pub branch-Ends :
      (predicate : BranchPredicate)
      → Ends 3 cpu.retired_instructions (decoded w d (branching predicate) cpu) (
          retires
            (record {
              registers = cpu.registers;
              pc =
                  if branch_taken predicate lhs (get cpu.registers d.rs2)
                  then u32 (following + branch_displacement d.imm16)
                  else following;
              bus = cpu.bus;
            })
            fetch)
  unfolding tick
  branch-Ends predicate =
      let n = cpu.retired_instructions in
      Ends-tick 2 n _ _ refl (same_count n) (Ends-now 2 n _ (one_more n) refl)

  -- A jump with no link, and a jump to a register.
  abbrev pub jumping : ControlSignals
  jumping = record defaults { control_flow = ControlFlowKind.relative_jump }

  pub jump-Ends : Ends 3 cpu.retired_instructions (decoded w d jumping cpu) (
      retires
        (record {
          registers = cpu.registers;
          pc = u32 (following + jump_displacement d.imm26);
          bus = cpu.bus;
        })
        fetch)
  unfolding tick
  jump-Ends =
      let n = cpu.retired_instructions in
      Ends-tick 2 n _ _ refl (same_count n) (Ends-now 2 n _ (one_more n) refl)

  abbrev pub register_jumping : ControlSignals
  register_jumping = record defaults { control_flow = ControlFlowKind.register_jump }

  pub register_jump-Ends :
      Ends 3 cpu.retired_instructions
        (decoded w d register_jumping cpu)
        (retires (record { registers = cpu.registers; pc = lhs; bus = cpu.bus }) fetch)
  unfolding tick
  register_jump-Ends =
      let n = cpu.retired_instructions in
      Ends-tick 2 n _ _ refl (same_count n) (Ends-now 2 n _ (one_more n) refl)

  -- A jump that links writes the return address in WRITEBACK.
  abbrev pub linking : ControlSignals
  linking = record defaults {
    reg_write = true;
    writeback_source = WritebackSource.pc_plus_4;
    register_destination = RegisterDestination.return_address;
    control_flow = ControlFlowKind.relative_jump;
  }

  pub link-Ends : Ends 3 cpu.retired_instructions (decoded w d linking cpu) (
      retires
        (record {
          registers = put cpu.registers 31 following;
          pc = u32 (following + jump_displacement d.imm26);
          bus = cpu.bus;
        })
        fetch)
  unfolding tick
  link-Ends =
      let n = cpu.retired_instructions in
      let target = u32 (following + jump_displacement d.imm26) in
      let mid : CpuCore = record (executed linking writeback) { next_pc = target } in
      let after : CpuCore = record mid {
        registers = put cpu.registers 31 following;
        pc = target;
        retired_instructions = u64 (n + 1);
        bus = Bus.retire_tick cpu.bus;
        microstate = fetch;
      } in
      Ends-tick 2 n _ mid refl (same_count n) (
        Ends-tick 1 n mid after (rw (write-put cpu.registers 31 following (omega arith)) refl)
          (same_count n) (Ends-now 1 n after (one_more n) refl))
