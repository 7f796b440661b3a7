-- ===== src/Isa/Preservation.antt =====
-- One instruction of the set keeps words words and bytes bytes.
use bit_computer_system.Base.{
  ℕ, ◌+◌, ◌%◌, ◌^◌, ◌<◌, sym, subst, arith, Bool, true, false, ◌==◌, if◌then◌else◌, u32, ltb_ℤ,
  signed32, Option, none, inl, inr,
}
use native.Mathlib.Nat.{div-le_self}
use bit_computer_system.Alu as Alu
use bit_computer_system.Alu.Bounds.{execute-lt}
use bit_computer_system.Opcode.{Opcode}
use bit_computer_system.RegisterFile.{RegisterFile}
use bit_computer_system.Memory.Words.{little_endian-lt}
use bit_computer_system.Rom.Loading as RomLoading
use bit_computer_system.Decoder.{DecodedInstruction, DecodeResult, decode}
use bit_computer_system.Decoder.Fields.{decode_cases}
use bit_computer_system.Decoder.RoundTrip.{encode-decode}
use bit_computer_system.Bus.{is_none}
use bit_computer_system.Bus.MemoryMap.{
  region_of, store_in, map_fault, data_read_fault, data_write_fault, execute_fault,
}
use bit_computer_system.CpuCore.{CpuFault}
use bit_computer_system.CpuCore.Effects.{HasBounds, IsInstruction-bounds}
use bit_computer_system.Isa.{
  Machine, Effect, continues, stops, faults, get, put, next, goes_to, writes, loads, stores,
  perform, interpret, instruction, sign_extend, branch_to,
}
use bit_computer_system.Isa.Soundness.{
  IsSound, word_in-lt, store_in-HoldsWords, retire_tick-HoldsWords,
}

-- The machine that an effect leaves, if it leaves one, is sound.
abbrev pub Keeps : Effect → Type 0
Keeps (continues m) = IsSound m
Keeps (stops m) = IsSound m
Keeps (faults code word data_address) = Unit {0}

pub put-lt :
    (r : RegisterFile) (i value : ℕ)
    → ((j : ℕ) → r.registers j < 2 ^ 32)
    → value < 2 ^ 32
    → (j : ℕ) → (put r i value).registers j < 2 ^ 32
unfolding put
put-lt r i value v h j = ground (arith, v j)

module _ (m : Machine) (v : IsSound m) where
  get-lt : (i : ℕ) → get m.registers i < 2 ^ 32
  unfolding get
  get-lt i = ground (arith, v.register_words i)

  goes_to-Keeps : (target : ℕ) → target < 2 ^ 32 → Keeps (goes_to m target)
  goes_to-Keeps target h = record {
    pc_word = h;
    register_words = v.register_words;
    bus_words = retire_tick-HoldsWords m.bus v.bus_words;
  }

  writes-Keeps : (i value : ℕ) → value < 2 ^ 32 → Keeps (writes m i value)
  writes-Keeps i value h = record {
    pc_word = omega arith;
    register_words = put-lt m.registers i value v.register_words h;
    bus_words = retire_tick-HoldsWords m.bus v.bus_words;
  }

  either :
      (b : Bool) (e : Effect) (word : ℕ) (code : CpuFault) (a : Option ℕ)
      → Keeps e
      → Keeps (if b then e else faults code word a)
  either true e word code a k = k
  either false e word code a k = tt

  loads-Keeps : (word i address : ℕ) → Keeps (loads m word i address)
  loads-Keeps word i address =
      either (is_none (map_fault data_read_fault address)) _ word _ _
        (writes-Keeps i _ (word_in-lt (region_of address) m.bus address v.bus_words))

  stores-Keeps : (word address value : ℕ) → value < 2 ^ 32 → Keeps (stores m word address value)
  stores-Keeps word address value h =
      let bus = store_in (region_of address) m.bus address value in
      either (is_none (map_fault data_write_fault address)) _ word _ _ (record {
        pc_word = omega arith;
        register_words = v.register_words;
        bus_words =
            retire_tick-HoldsWords bus
              (store_in-HoldsWords (region_of address) m.bus address value h v.bus_words);
      })

  branches-Keeps :
      (test : Bool) (immediate : ℕ)
      → Keeps (goes_to m (if test then branch_to (next m) immediate else next m))
        × Keeps (goes_to m (if test then next m else branch_to (next m) immediate))
  branches-Keeps true immediate = (goes_to-Keeps _ (ground arith), goes_to-Keeps _ (omega arith))
  branches-Keeps false immediate = (goes_to-Keeps _ (omega arith), goes_to-Keeps _ (ground arith))

  module _ (word : ℕ) (d : DecodedInstruction) (b : HasBounds d) where
    abbrev x : ℕ
    x = get m.registers d.rs1

    abbrev y : ℕ
    y = get m.registers d.rs2

    -- The result of an operation of the arithmetic unit.
    computed :
        (operation : Alu.AluOperation) (k : ℕ) → k < 2 ^ 32 → Alu.execute operation x k < 2 ^ 32
    computed operation k h = execute-lt operation x k (get-lt d.rs1) h

    perform-Keeps : (op : Opcode) → Keeps (perform m word d op)
    unfolding perform Alu.execute
    perform-Keeps Opcode.nop = goes_to-Keeps _ (omega arith)
    perform-Keeps Opcode.add = writes-Keeps _ _ (omega arith)
    perform-Keeps Opcode.sub = writes-Keeps _ _ (omega arith)
    perform-Keeps Opcode.and = writes-Keeps _ _ (computed Alu.AluOperation.and y (get-lt d.rs2))
    perform-Keeps Opcode.or = writes-Keeps _ _ (computed Alu.AluOperation.or y (get-lt d.rs2))
    perform-Keeps Opcode.xor = writes-Keeps _ _ (computed Alu.AluOperation.xor y (get-lt d.rs2))
    perform-Keeps Opcode.slt = writes-Keeps _ _ (ground arith)
    perform-Keeps Opcode.shl = writes-Keeps _ _ (omega arith)
    perform-Keeps Opcode.shr =
        writes-Keeps _ _ (omega (arith, div-le_self x (2 ^ (y % 32)), get-lt d.rs1))
    perform-Keeps Opcode.addi = writes-Keeps _ _ (omega arith)
    perform-Keeps Opcode.andi =
        writes-Keeps _ _ (computed Alu.AluOperation.and d.imm16 (omega (arith, b.imm16)))
    perform-Keeps Opcode.ori =
        writes-Keeps _ _ (computed Alu.AluOperation.or d.imm16 (omega (arith, b.imm16)))
    perform-Keeps Opcode.xori =
        writes-Keeps _ _ (computed Alu.AluOperation.xor d.imm16 (omega (arith, b.imm16)))
    perform-Keeps Opcode.lui = writes-Keeps _ _ (omega (arith, b.imm16))
    perform-Keeps Opcode.lw = loads-Keeps word d.rd (u32 (x + sign_extend d.imm16))
    perform-Keeps Opcode.sw = stores-Keeps word (u32 (x + sign_extend d.imm16)) y (get-lt d.rs2)
    perform-Keeps Opcode.beq = (branches-Keeps (x == y) d.imm16).0
    perform-Keeps Opcode.bne = (branches-Keeps (x == y) d.imm16).1
    perform-Keeps Opcode.blt = (branches-Keeps (ltb_ℤ (signed32 x) (signed32 y)) d.imm16).0
    perform-Keeps Opcode.bge = (branches-Keeps (ltb_ℤ (signed32 x) (signed32 y)) d.imm16).1
    perform-Keeps Opcode.j = goes_to-Keeps _ (ground arith)
    perform-Keeps Opcode.jal = record {
      pc_word = ground arith;
      register_words = put-lt m.registers 31 (next m) v.register_words (omega arith);
      bus_words = retire_tick-HoldsWords m.bus v.bus_words;
    }
    perform-Keeps Opcode.jr = goes_to-Keeps _ (get-lt d.rs1)
    perform-Keeps Opcode.halt = record {
      pc_word = omega arith;
      register_words = v.register_words;
      bus_words = retire_tick-HoldsWords m.bus v.bus_words;
    }
    perform-Keeps (Opcode.unnamed raw) = tt

  abbrev fetched : ℕ
  fetched = RomLoading.load m.bus.rom.bytes m.pc

  fetched-lt : fetched < 2 ^ 32
  fetched-lt =
      let cells = v.bus_words.rom_bytes in
      little_endian-lt _ _ _ _ (cells _) (cells _) (cells _) (cells _)

  interpret-Keeps : Keeps (interpret m fetched (decode fetched))
  interpret-Keeps = elim (decode_cases fetched fetched-lt) [
    | inl e ↦ subst shown (sym e) tt
    | inr (inl e) ↦ subst shown (sym e) tt
    | inr (inr (d, e)) ↦ subst shown (sym e) (
        perform-Keeps fetched d (IsInstruction-bounds d (encode-decode fetched d fetched-lt e).0)
          d.opcode)
  ]
    where
      shown : DecodeResult → Type 0
      shown result = Keeps (interpret m fetched result)

-- An instruction that retires leaves a sound machine when it starts from one.
pub instruction-Keeps : (m : Machine) → IsSound m → Keeps (instruction m)
unfolding instruction
instruction-Keeps m v =
    either m v (is_none (map_fault execute_fault m.pc)) _ 0 _ none (interpret-Keeps m v)
