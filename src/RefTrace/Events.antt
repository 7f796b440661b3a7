-- ===== src/RefTrace/Events.antt =====
-- The records that simulator/app/ref_trace.cpp should emit, by the instruction set alone.
use bit_computer_system.Base.{
  ℕ, zero, suc, ◌+◌, ◌≡◌, ◌≢◌, refl, arith, Bool, true, false, if◌then◌else◌, Option, none, some,
  List, [], ◌∷◌, u32,
}
use bit_computer_system.Opcode.{Opcode}
use bit_computer_system.RegisterFile.{RegisterFile}
use bit_computer_system.Rom.Loading as RomLoading
use bit_computer_system.Decoder.{DecodedInstruction, decode}
use bit_computer_system.Bus.{is_none}
use bit_computer_system.Bus.MemoryMap.{map_fault, data_read_fault, data_write_fault}
use bit_computer_system.Isa.{
  Machine, Effect, continues, stops, faults, get, put, sign_extend, perform, instruction,
}
use bit_computer_system.RefTrace.{Retire, Stored, not_stored}
use bit_computer_system.RefTrace.Scan.{change_at}

-- The register that an instruction writes; register 0 stands for none.
abbrev pub written_register : DecodedInstruction → Opcode → ℕ
written_register d op = elim op [
  | Opcode.nop ↦ 0
  | Opcode.sw ↦ 0
  | Opcode.beq ↦ 0
  | Opcode.bne ↦ 0
  | Opcode.blt ↦ 0
  | Opcode.bge ↦ 0
  | Opcode.j ↦ 0
  | Opcode.jal ↦ 31
  | Opcode.jr ↦ 0
  | Opcode.halt ↦ 0
  | _ ↦ d.rd
]

-- The word that an instruction stores, and where.
abbrev pub stored_word : Machine → DecodedInstruction → Opcode → Stored
stored_word m d op = elim op [
  | Opcode.sw ↦ record {
    memory_write = true;
    memory_address = u32 (get m.registers d.rs1 + sign_extend d.imm16);
    memory_value = get m.registers d.rs2;
  }
  | _ ↦ not_stored
]

-- The effect writes no register but one.
abbrev pub Writes : RegisterFile → ℕ → Effect → Type 0
Writes r i (continues m) = (v : ℕ) × (m.registers ≡ put r i v)
Writes r i (stops m) = (v : ℕ) × (m.registers ≡ put r i v)
Writes r i (faults code word data_address) = Unit {0}

put_zero : (r : RegisterFile) → r ≡ put r 0 0
unfolding put
put_zero r = refl

either-Writes :
    (r : RegisterFile) (i : ℕ) (b : Bool) (e f : Effect)
    → Writes r i e
    → Writes r i f
    → Writes r i (if b then e else f)
either-Writes r i true e f k l = k
either-Writes r i false e f k l = l

pub perform-Writes :
    (m : Machine) (word : ℕ) (d : DecodedInstruction) (op : Opcode)
    → Writes m.registers (written_register d op) (perform m word d op)
unfolding perform
perform-Writes m word d Opcode.nop = (0, put_zero m.registers)
perform-Writes m word d Opcode.sw =
    let address = u32 (get m.registers d.rs1 + sign_extend d.imm16) in
    either-Writes m.registers 0 (is_none (map_fault data_write_fault address)) _ _
      (0, put_zero m.registers) tt
perform-Writes m word d Opcode.lw =
    let address = u32 (get m.registers d.rs1 + sign_extend d.imm16) in
    either-Writes m.registers d.rd (is_none (map_fault data_read_fault address)) _ _ (_, refl) tt
perform-Writes m word d Opcode.beq = (0, put_zero m.registers)
perform-Writes m word d Opcode.bne = (0, put_zero m.registers)
perform-Writes m word d Opcode.blt = (0, put_zero m.registers)
perform-Writes m word d Opcode.bge = (0, put_zero m.registers)
perform-Writes m word d Opcode.j = (0, put_zero m.registers)
perform-Writes m word d Opcode.jr = (0, put_zero m.registers)
perform-Writes m word d Opcode.halt = (0, put_zero m.registers)
perform-Writes m word d (Opcode.unnamed raw) = tt
perform-Writes m word d _ = (_, refl)

pub get-put_apart : (r : RegisterFile) (i j v : ℕ) → j ≢ i → get (put r i v) j ≡ get r j
unfolding get put
get-put_apart r i j v h = ground arith

-- The word of the next instruction.
abbrev pub word_of : Machine → ℕ
word_of m = RomLoading.load m.bus.rom.bytes m.pc

-- The record of an instruction that takes the machine `m` to `m'`: its register is named only if it
-- has a new value.
abbrev pub record_of : ℕ → Machine → DecodedInstruction → Machine → Retire
record_of index m d m' =
    let change = change_at m.registers m'.registers (written_register d d.opcode) in
    let stored = stored_word m d d.opcode in
    record {
      index = index;
      pc = m.pc;
      instruction = word_of m;
      next_pc = m'.pc;
      register_write = change.changed_register;
      register_value = change.register_value;
      memory_write = stored.memory_write;
      memory_address = stored.memory_address;
      memory_value = stored.memory_value;
    }

abbrev pub noted : Option DecodedInstruction → ℕ → Machine → Machine → List Retire → List Retire
noted none index m m' rest = rest
noted (some d) index m m' rest = record_of index m d m' ∷ rest

abbrev pub recorded : ℕ → Machine → Machine → List Retire → List Retire
recorded index m m' rest = noted ((decode (word_of m)).instruction) index m m' rest

-- The records of an effect, when `go_on` are those of the next machine.
abbrev pub emits : (Machine → List Retire) → ℕ → Machine → Effect → List Retire
emits go_on index m (continues m') = recorded index m m' (go_on m')
emits go_on index m (stops m') = recorded index m m' []
emits go_on index m (faults code word data_address) = []

-- The records of a run, after `retired` instructions and with `left` more allowed.
unfoldable pub events : ℕ → ℕ → Machine → List Retire
events zero retired m = []
events (suc left) retired m = emits (events left (suc retired)) retired m (instruction m)
