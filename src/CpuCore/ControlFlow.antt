-- ===== src/CpuCore/ControlFlow.antt =====
-- Where `CpuCore::step` of simulator/src/cpu_core.cpp goes at branch and jump instructions.
use bit_computer_system.Base.{
  ℕ, ◌+◌, ◌-◌, ◌*◌, ◌%◌, ◌^◌, ◌<◌, ◌≤◌, ◌≡◌, ◌∙◌, refl, sym, ap, ap₂, subst, arith, Bool, true,
  false, not, ltb, ◌==◌, if◌then◌else◌, if_true, ltb_ℤ, signed32, ok,
}
use bit_computer_system.Opcode.{Opcode}
use bit_computer_system.RegisterFile.{RegisterFile}
use bit_computer_system.Decoder.{DecodedInstruction, DecodeResult, b_format, j_format, decode}
use bit_computer_system.Decoder.Fields.{format_of}
use bit_computer_system.Decoder.Encoding.{
  encode, encode_as, Fits, encode_b, encode_j, IsInstruction,
}
use bit_computer_system.Decoder.RoundTrip.{accepted, decode-encode}
use bit_computer_system.Bus.{is_none, retire_tick}
use bit_computer_system.Bus.MemoryMap.{map_fault, execute_fault}
use bit_computer_system.Rom.Loading.{load}
use bit_computer_system.Isa.{
  Machine, Effect, continues, get, put, next, goes_to, branch_to, perform, interpret, instruction,
}
use bit_computer_system.CpuCore.{CpuCore}
use bit_computer_system.CpuCore.Steps.{StepResult, step}
use bit_computer_system.CpuCore.Phases.{machine_of, observe, Observation}
use bit_computer_system.CpuCore.Effects.{shows}
use bit_computer_system.CpuCore.Refinement.{IsReady, answer, step-instruction}

-- An aligned program counter in the ROM, and the word there.
pub record IsAt (cpu : CpuCore) (word : ℕ) : Type 0 where
  pub ready : IsReady cpu
  pub aligned : cpu.pc % 4 ≡ 0
  pub in_rom : cpu.pc < 2 ^ 16
  pub fetches : load cpu.bus.rom.bytes cpu.pc ≡ word

fetchable : (pc : ℕ) → pc % 4 ≡ 0 → pc < 2 ^ 16 → is_none (map_fault execute_fault pc) ≡ true
fetchable pc a h = ground arith

-- A step at a word that decodes.
performs_decoded :
    (cpu : CpuCore) (fuel word : ℕ) (d : DecodedInstruction) (effect : Effect)
    → 5 ≤ fuel
    → IsAt cpu word
    → decode word ≡ accepted d
    → perform (machine_of cpu) (load cpu.bus.rom.bytes cpu.pc) d d.opcode ≡ effect
    → (cpu' : CpuCore) × (step fuel cpu ≡ ok (answer effect, cpu'))
      × (observe cpu' ≡ shows cpu effect)
unfolding instruction
performs_decoded cpu fuel word d effect enough v e p =
    let m = machine_of cpu in
    let (cpu', steps, o) = step-instruction cpu v.ready fuel enough in
    let same : instruction m ≡ effect =
      if_true _ _ (fetchable cpu.pc v.aligned v.in_rom)
      ∙ ap (λ (r : DecodeResult). interpret m (load cpu.bus.rom.bytes cpu.pc) r)
          (ap decode v.fetches ∙ e)
      ∙ p in
    (cpu', steps ∙ ap (λ (x : Effect). ok (answer x, cpu')) same, o ∙ ap (shows cpu) same)

-- The condition of a branch, on the integers that two words stand for.
abbrev pub is_taken : Opcode → ℕ → ℕ → Bool
is_taken Opcode.beq x y = x == y
is_taken Opcode.bne x y = not (x == y)
is_taken Opcode.blt x y = ltb_ℤ (signed32 x) (signed32 y)
is_taken Opcode.bge x y = not (ltb_ℤ (signed32 x) (signed32 y))
is_taken _ x y = false

-- So many words from the next instruction, by a field of `bits` bits in two's complement.
abbrev pub displaced : ℕ → ℕ → ℕ → ℕ
displaced bits pc field =
    if ltb field (2 ^ (bits - 1))
    then pc + 4 + 4 * field
    else (pc + 4 + (2 ^ 32 - 4 * (2 ^ bits - field))) % 2 ^ 32

abbrev branching : Opcode → ℕ → ℕ → ℕ → DecodedInstruction
branching op rs1 rs2 immediate = record {
  opcode = op;
  rd = 0;
  rs1 = rs1;
  rs2 = rs2;
  imm16 = immediate;
  imm26 = 0;
}

-- The targets of the two sides, by whether the branch that is tested is taken.
branch_either :
    (b : Bool) (m : Machine) (immediate : ℕ)
    → m.pc < 2 ^ 16
    → immediate < 2 ^ 16
    → ((if b then branch_to (next m) immediate else next m)
        ≡ (if b then displaced 16 m.pc immediate else m.pc + 4))
      × ((if b then next m else branch_to (next m) immediate)
          ≡ (if not b then displaced 16 m.pc immediate else m.pc + 4))
branch_either true m immediate h i = (ground arith, omega arith)
branch_either false m immediate h i = (omega arith, ground arith)

branching-IsInstruction :
    (op : Opcode) (rs1 rs2 immediate : ℕ)
    → format_of op ≡ b_format
    → rs1 < 32
    → rs2 < 32
    → immediate < 2 ^ 16
    → IsInstruction (branching op rs1 rs2 immediate)
unfolding format_of
branching-IsInstruction op rs1 rs2 immediate f p q i = record {
  named = ground arith;
  fits = subst (λ k. Fits k (branching op rs1 rs2 immediate)) (sym f) (refl, p, q, i, refl);
  plain = λ e. (refl, ground arith, ground arith);
  upper = λ e. ground arith;
}

encode-branching :
    (op : Opcode) (rs1 rs2 immediate : ℕ)
    → format_of op ≡ b_format
    → encode (branching op rs1 rs2 immediate) ≡ encode_b op rs1 rs2 immediate
unfolding encode
encode-branching op rs1 rs2 immediate f = ap (λ k. encode_as k (branching op rs1 rs2 immediate)) f

-- The instruction set takes a branch to its target.
branches_to :
    (op : Opcode) (m : Machine) (word rs1 rs2 immediate : ℕ)
    → format_of op ≡ b_format
    → m.pc < 2 ^ 16
    → immediate < 2 ^ 16
    → perform m word (branching op rs1 rs2 immediate) op
      ≡ goes_to m (
          if is_taken op (get m.registers rs1) (get m.registers rs2)
          then displaced 16 m.pc immediate
          else m.pc + 4)
unfolding format_of perform
branches_to Opcode.beq m word rs1 rs2 immediate f h i = ap (goes_to m) (ground arith)
branches_to Opcode.bne m word rs1 rs2 immediate f h i = ap (goes_to m) (ground arith)
branches_to Opcode.blt m word rs1 rs2 immediate f h i =
    ap (goes_to m)
      (branch_either (ltb_ℤ (signed32 (get m.registers rs1)) (signed32 (get m.registers rs2))) m
        immediate h i).0
branches_to Opcode.bge m word rs1 rs2 immediate f h i =
    ap (goes_to m)
      (branch_either (ltb_ℤ (signed32 (get m.registers rs1)) (signed32 (get m.registers rs2))) m
        immediate h i).1
branches_to _ m word rs1 rs2 immediate f h i = cc

-- With five ticks or more, at FETCH with a program counter that is an aligned address of the ROM,
-- registers that hold words and a ROM that holds bytes: where the test encoder's word of BEQ, BNE,
-- BLT or BGE stands, with register numbers below 32 and a 16-bit immediate, a step retires and
-- leaves the registers. If the registers named, as signed integers, are equal, not equal, less, or
-- not less, it goes from four past the program counter forward by as many words as the immediate
-- says if bit 15 is clear, and back by 2 ^ 16 minus the immediate if it is set, modulo 2 ^ 32;
-- otherwise it goes to four past the program counter.
pub step-encode_b :
    (cpu : CpuCore) (fuel : ℕ) (op : Opcode) (rs1 rs2 immediate : ℕ)
    → 5 ≤ fuel
    → format_of op ≡ b_format
    → rs1 < 32
    → rs2 < 32
    → immediate < 2 ^ 16
    → IsAt cpu (encode_b op rs1 rs2 immediate)
    → (cpu' : CpuCore) × (step fuel cpu ≡ ok (StepResult.retired, cpu'))
      × (cpu'.registers ≡ cpu.registers)
      × (cpu'.pc ≡ (
          if is_taken op (get cpu.registers rs1) (get cpu.registers rs2)
          then displaced 16 cpu.pc immediate
          else cpu.pc + 4))
step-encode_b cpu fuel op rs1 rs2 immediate enough f p q i v =
    let d = branching op rs1 rs2 immediate in
    let decodes : decode (encode_b op rs1 rs2 immediate) ≡ accepted d =
      ap decode (sym (encode-branching op rs1 rs2 immediate f))
      ∙ decode-encode d (branching-IsInstruction op rs1 rs2 immediate f p q i) in
    let (cpu', steps, o) =
      performs_decoded cpu fuel (encode_b op rs1 rs2 immediate) d _ enough v decodes (
        branches_to op (machine_of cpu) (load cpu.bus.rom.bytes cpu.pc) rs1 rs2 immediate f v.in_rom
          i) in
    (
      cpu',
      steps,
      ap (λ (x : Observation). x.machine.registers) o,
      ap (λ (x : Observation). x.machine.pc) o,
    )

abbrev jumping : Opcode → ℕ → DecodedInstruction
jumping op immediate = record {
  opcode = op;
  rd = 0;
  rs1 = 0;
  rs2 = 0;
  imm16 = 0;
  imm26 = immediate;
}

jumping-IsInstruction :
    (op : Opcode) (immediate : ℕ)
    → format_of op ≡ j_format
    → immediate < 2 ^ 26
    → IsInstruction (jumping op immediate)
unfolding format_of
jumping-IsInstruction op immediate f i = record {
  named = ground arith;
  fits = subst (λ k. Fits k (jumping op immediate)) (sym f) (refl, refl, refl, refl, i);
  plain = λ e. (refl, refl, refl);
  upper = λ e. refl;
}

encode-jumping :
    (op : Opcode) (immediate : ℕ)
    → format_of op ≡ j_format
    → encode (jumping op immediate) ≡ encode_j op immediate
unfolding encode
encode-jumping op immediate f = ap (λ k. encode_as k (jumping op immediate)) f

-- The registers after J, which is JAL when it links.
abbrev pub linked : Opcode → ℕ → RegisterFile → RegisterFile
linked Opcode.jal pc r = record { registers = λ j. if j == 31 then pc + 4 else r.registers j }
linked _ pc r = r

jumps_to :
    (op : Opcode) (m : Machine) (word immediate : ℕ)
    → format_of op ≡ j_format
    → m.pc < 2 ^ 16
    → immediate < 2 ^ 26
    → perform m word (jumping op immediate) op
      ≡ continues (record {
        registers = linked op m.pc m.registers;
        pc = displaced 26 m.pc immediate;
        bus = retire_tick m.bus;
      })
unfolding format_of perform put
jumps_to Opcode.j m word immediate f h i = ap (goes_to m) (ground arith)
jumps_to Opcode.jal m word immediate f h i =
    let following : next m ≡ m.pc + 4 = omega arith in
    ap₂
      (λ (a b : ℕ). continues (record {
        registers = record { registers = λ j. if j == 31 then a else m.registers.registers j };
        pc = b;
        bus = retire_tick m.bus;
      }))
      following (ground arith)
jumps_to _ m word immediate f h i = cc

-- With five ticks or more, at FETCH with a program counter that is an aligned address of the ROM,
-- registers that hold words and a ROM that holds bytes: where the test encoder's word of J or JAL
-- stands, with a 26-bit immediate, a step retires and goes from four past the program counter
-- forward by as many words as the immediate says if bit 25 is clear, and back by 2 ^ 26 minus the
-- immediate if it is set, modulo 2 ^ 32. JAL puts four past the program counter in register 31;
-- the other registers are left, and by J all of them.
pub step-encode_j :
    (cpu : CpuCore) (fuel : ℕ) (op : Opcode) (immediate : ℕ)
    → 5 ≤ fuel
    → format_of op ≡ j_format
    → immediate < 2 ^ 26
    → IsAt cpu (encode_j op immediate)
    → (cpu' : CpuCore) × (step fuel cpu ≡ ok (StepResult.retired, cpu'))
      × (cpu'.registers ≡ linked op cpu.pc cpu.registers)
      × (cpu'.pc ≡ displaced 26 cpu.pc immediate)
step-encode_j cpu fuel op immediate enough f i v =
    let d = jumping op immediate in
    let decodes : decode (encode_j op immediate) ≡ accepted d =
      ap decode (sym (encode-jumping op immediate f))
      ∙ decode-encode d (jumping-IsInstruction op immediate f i) in
    let (cpu', steps, o) =
      performs_decoded cpu fuel (encode_j op immediate) d _ enough v decodes
        (jumps_to op (machine_of cpu) (load cpu.bus.rom.bytes cpu.pc) immediate f v.in_rom i) in
    (
      cpu',
      steps,
      ap (λ (x : Observation). x.machine.registers) o,
      ap (λ (x : Observation). x.machine.pc) o,
    )
