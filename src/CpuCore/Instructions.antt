-- ===== src/CpuCore/Instructions.antt =====
-- Every instruction of the set, from EXECUTE on.
use bit_computer_system.Base.{
  ℕ, ◌+◌, ◌*◌, ◌/◌, ◌%◌, ◌^◌, ◌<◌, ◌≡◌, ◌∙◌, refl, ap, sym, arith, Bool, true, false, not, ◌==◌,
  if◌then◌else◌, Option, some, none, u32, sub32, ltb_ℤ, signed32, bit_and, bit_or, bit_xor,
}
use bit_computer_system.Alu
use bit_computer_system.Alu.{execute, AluOperation}
use bit_computer_system.Alu.Signed.{execute-slt}
use bit_computer_system.Alu.Shifts.{execute-shift}
use bit_computer_system.Opcode.{Opcode}
use bit_computer_system.Decoder.{DecodedInstruction}
use bit_computer_system.Decoder.Encoding.{IsInstruction}
use bit_computer_system.Immediate.{ImmediateKind, immediate_value}
use bit_computer_system.Immediate.Values.{branch_target, jump_target}
use bit_computer_system.Control.{ControlSignals, control_for, BranchPredicate}
use bit_computer_system.Bus
use bit_computer_system.Bus.{BusFault, is_none}
use bit_computer_system.Decoder.Fields.{is_named}
use bit_computer_system.Isa.{
  get, put, Machine, writes, goes_to, branch_to, next, continues, perform, sign_extend,
}
use bit_computer_system.CpuCore.{CpuCore, branch_taken}
use bit_computer_system.CpuCore.Phases.{decoded, machine_of, Ends}
use bit_computer_system.CpuCore.Paths.{
  result, sequential, sequential-Ends, branching, branch-Ends, jump-Ends, register_jump-Ends,
  link-Ends,
}
use bit_computer_system.CpuCore.Branches.{branch_taken_signed, not_equal}
use bit_computer_system.CpuCore.Transfers.{add_immediate, lw-Ends, sw-Ends}
use bit_computer_system.CpuCore.Effects.{
  AreWords, get-lt, shows, HasBounds, IsInstruction-bounds, Ends-as,
}

module _ (cpu : CpuCore) (w : ℕ) (d : DecodedInstruction) (words : AreWords cpu.registers)
    (v : IsInstruction d) where
  abbrev m : Machine
  m = machine_of cpu

  abbrev x : ℕ
  x = get cpu.registers d.rs1

  abbrev y : ℕ
  y = get cpu.registers d.rs2

  abbrev bounds : HasBounds d
  bounds = IsInstruction-bounds d v

  -- An operation that writes `value`, however the arithmetic unit comes to it.
  writes_value :
      (alu_src_immediate : Bool) (operation : AluOperation) (kind : ImmediateKind) (value : ℕ)
      → let s = sequential cpu w d true alu_src_immediate operation kind false in
        result cpu w d s ≡ value
        → Ends 3 cpu.retired_instructions (decoded w d s cpu) (shows cpu (writes m d.rd value))
  writes_value alu_src_immediate operation kind value e =
      Ends-as 3 cpu.retired_instructions _
        (sequential-Ends cpu w d true alu_src_immediate operation kind false bounds.rd)
        (ap (λ (k : ℕ). shows cpu (writes m d.rd k)) e)

  -- A branch that goes to `target`.
  branches_to :
      (predicate : BranchPredicate) (taken : Bool)
      → branch_taken predicate x y ≡ taken
      → Ends 3 cpu.retired_instructions
          (decoded w d (branching cpu w d predicate) cpu)
          (shows cpu (goes_to m (if taken then branch_to (next m) d.imm16 else next m)))
  branches_to predicate taken e =
      Ends-as 3 cpu.retired_instructions _ (branch-Ends cpu w d predicate) (
        ap (λ (k : ℕ). shows cpu (goes_to m k))
          (rw (e, branch_target (next m) d.imm16 (omega arith) bounds.imm16) refl))

  abbrev less : Bool
  less = ltb_ℤ (signed32 x) (signed32 y)

  xlt : x < 2 ^ 32
  xlt = get-lt cpu.registers d.rs1 words

  ylt : y < 2 ^ 32
  ylt = get-lt cpu.registers d.rs2 words

  -- From EXECUTE on, with its own control signals, an instruction ends as the instruction set says.
  abbrev pub Performs : Opcode → Option ControlSignals → Type 0
  Performs op none = ⊥
  Performs op (some s) =
      Ends 3 cpu.retired_instructions (decoded w d s cpu) (shows cpu (perform m w d op))

  upper_value :
      d.opcode ≡ Opcode.lui
      → Alu.execute AluOperation.add x (immediate_value ImmediateKind.upper16 d.imm16)
        ≡ d.imm16 * 2 ^ 16
  unfolding Alu.execute immediate_value get
  upper_value e =
      let zero_base : d.rs1 ≡ 0 = v.upper (rw e refl) in rw zero_base (omega (arith, bounds.imm16))

  no_name : (raw : ℕ) → d.opcode ≡ Opcode.unnamed raw → ⊥
  no_name raw e = let h : is_named (Opcode.unnamed raw) ≡ true = ap is_named (sym e) ∙ v.named in cc

  jumps_to : Performs Opcode.j (control_for Opcode.j)
  unfolding perform control_for
  jumps_to = Ends-as 3 cpu.retired_instructions _ (jump-Ends cpu w d) (
      ap (λ (k : ℕ). shows cpu (goes_to m k))
        (jump_target (next m) d.imm26 (omega arith) bounds.imm26))

  links_to : Performs Opcode.jal (control_for Opcode.jal)
  unfolding perform control_for
  links_to = Ends-as 3 cpu.retired_instructions _ (link-Ends cpu w d) (
      ap
        (λ (k : ℕ). shows cpu (
          continues (record {
            registers = put cpu.registers 31 (next m);
            pc = k;
            bus = Bus.retire_tick cpu.bus;
          })))
        (jump_target (next m) d.imm26 (omega arith) bounds.imm26))

  -- A branch that goes on when the test holds.
  branches_unless :
      (predicate : BranchPredicate) (test : Bool)
      → branch_taken predicate x y ≡ not test
      → Ends 3 cpu.retired_instructions
          (decoded w d (branching cpu w d predicate) cpu)
          (shows cpu (goes_to m (if test then next m else branch_to (next m) d.imm16)))
  branches_unless predicate true e = branches_to predicate false e
  branches_unless predicate false e = branches_to predicate true e

  -- Every instruction of the set.
  pub performs : (op : Opcode) → d.opcode ≡ op → Performs op (control_for op)
  unfolding perform control_for
  performs Opcode.nop e =
      sequential-Ends cpu w d false false AluOperation.add ImmediateKind.none false bounds.rd
  performs Opcode.add e =
      writes_value false AluOperation.add ImmediateKind.none (u32 (x + y))
        (unfold Alu.execute in refl)
  performs Opcode.sub e =
      writes_value false AluOperation.sub ImmediateKind.none (sub32 x y)
        (unfold Alu.execute in refl)
  performs Opcode.and e =
      writes_value false AluOperation.and ImmediateKind.none (bit_and x y)
        (unfold Alu.execute in refl)
  performs Opcode.or e =
      writes_value false AluOperation.or ImmediateKind.none (bit_or x y)
        (unfold Alu.execute in refl)
  performs Opcode.xor e =
      writes_value false AluOperation.xor ImmediateKind.none (bit_xor x y)
        (unfold Alu.execute in refl)
  performs Opcode.slt e =
      writes_value false AluOperation.slt ImmediateKind.none (if less then 1 else 0)
        (execute-slt x y xlt ylt)
  performs Opcode.shl e =
      writes_value false AluOperation.shift_left ImmediateKind.none (x * 2 ^ (y % 32) % 2 ^ 32)
        (execute-shift x y).0
  performs Opcode.shr e =
      writes_value false AluOperation.shift_right ImmediateKind.none (x / 2 ^ (y % 32))
        (execute-shift x y).1
  performs Opcode.addi e =
      writes_value true AluOperation.add ImmediateKind.signed16 (u32 (x + sign_extend d.imm16))
        (add_immediate cpu w d bounds)
  performs Opcode.andi e =
      writes_value true AluOperation.and ImmediateKind.zero_extended16 (bit_and x d.imm16)
        (unfold Alu.execute immediate_value in refl)
  performs Opcode.ori e =
      writes_value true AluOperation.or ImmediateKind.zero_extended16 (bit_or x d.imm16)
        (unfold Alu.execute immediate_value in refl)
  performs Opcode.xori e =
      writes_value true AluOperation.xor ImmediateKind.zero_extended16 (bit_xor x d.imm16)
        (unfold Alu.execute immediate_value in refl)
  performs Opcode.lui e =
      writes_value true AluOperation.add ImmediateKind.upper16 (d.imm16 * 2 ^ 16) (upper_value e)
  performs Opcode.lw e = lw-Ends cpu w d bounds
  performs Opcode.sw e = sw-Ends cpu w d bounds
  performs Opcode.beq e = branches_to BranchPredicate.equal (x == y) (unfold branch_taken in refl)
  performs Opcode.bne e = branches_unless BranchPredicate.not_equal (x == y) (not_equal x y)
  performs Opcode.blt e =
      branches_to BranchPredicate.signed_less_than less (branch_taken_signed x y xlt ylt).0
  performs Opcode.bge e =
      branches_unless BranchPredicate.signed_greater_equal less (branch_taken_signed x y xlt ylt).1
  performs Opcode.j e = jumps_to
  performs Opcode.jal e = links_to
  performs Opcode.jr e = register_jump-Ends cpu w d
  performs Opcode.halt e =
      sequential-Ends cpu w d false false AluOperation.add ImmediateKind.none true bounds.rd
  performs (Opcode.unnamed raw) e = absurd (no_name raw e)
