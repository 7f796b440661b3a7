-- ===== src/Isa.antt =====
-- The instruction set as docs/isa.md and docs/memory-map.md describe it: what one instruction does
-- to the registers, the program counter and the bus, with no clock and no datapath.
pub mod Soundness
pub mod Preservation
pub mod Execution
use bit_computer_system.Base.{
  Bool, ℕ, ◌+◌, ◌-◌, ◌*◌, ◌/◌, ◌%◌, ◌^◌, bit_and, bit_or, bit_xor, Option, none, some, ltb, ltb_ℤ,
  signed32, ◌==◌, ◌!=◌, true, false, if◌then◌else◌, u32, sub32,
}
use bit_computer_system.RegisterFile.{RegisterFile}
use bit_computer_system.Opcode
use bit_computer_system.Decoder.{DecodedInstruction, DecodeResult, DecodeError, decode}
use bit_computer_system.Rom.Loading as RomLoading
use bit_computer_system.Bus.{Bus, is_none, retire_tick}
use bit_computer_system.Bus.MemoryMap.{
  Region, nothing, map_fault, data_read_fault, data_write_fault, execute_fault, region_of, word_in,
  store_in,
}
use bit_computer_system.CpuCore.{
  CpuFault, misaligned_instruction_fetch, unmapped_instruction_fetch,
  non_executable_instruction_fetch, misaligned_load, unmapped_load, misaligned_store,
  read_only_store, unmapped_store, illegal_instruction, malformed_instruction,
  unsupported_instruction,
}

pub record Machine : Type 0 where
  pub registers : RegisterFile
  pub pc : ℕ
  pub bus : Bus

-- What one instruction comes to: it retires, it is HALT and retires, or it faults, in which case
-- the machine stays as it was.
pub data Effect : Type 0 where
  continues : Machine → Effect
  stops : Machine → Effect
  faults : CpuFault → ℕ → Option ℕ → Effect

-- Register 0 reads as zero and discards writes.
unfoldable pub get : RegisterFile → ℕ → ℕ
get r index = if index == 0 then 0 else r.registers index

unfoldable pub put : RegisterFile → ℕ → ℕ → RegisterFile
put r index value =
    if index == 0
    then r
    else record { registers = λ j. if j == index then value else r.registers j }

-- The sign extension of a 16-bit immediate.
abbrev pub sign_extend : ℕ → ℕ
sign_extend immediate = if ltb immediate 0x8000 then immediate else immediate + 0xffff0000

-- Whether the memory map gives the region to a memory or a device.
abbrev is_owned : Region → Bool
is_owned nothing = false
is_owned _ = true

-- The targets of branches and jumps, counted in words from the next instruction.
abbrev pub branch_to : ℕ → ℕ → ℕ
branch_to next immediate =
    if ltb immediate 0x8000
    then u32 (next + 4 * immediate)
    else sub32 next (4 * (0x10000 - immediate))

abbrev pub jump_to : ℕ → ℕ → ℕ
jump_to next immediate =
    if ltb immediate 0x02000000
    then u32 (next + 4 * immediate)
    else sub32 next (4 * (0x04000000 - immediate))

-- The faults of an access that the memory map does not allow, by its address.
abbrev pub fetch_error : ℕ → CpuFault
fetch_error address =
    if address % 4 != 0
    then misaligned_instruction_fetch
    else if is_owned (region_of address)
    then non_executable_instruction_fetch
    else unmapped_instruction_fetch

abbrev pub load_error : ℕ → CpuFault
load_error address = if address % 4 != 0 then misaligned_load else unmapped_load

abbrev pub store_error : ℕ → CpuFault
store_error address =
    if address % 4 != 0
    then misaligned_store
    else if ltb address 0x00010000
    then read_only_store
    else unmapped_store

module _ (m : Machine) where
  abbrev pub next : ℕ
  next = u32 (m.pc + 4)

  -- An instruction that retires ticks the timer.
  abbrev pub goes_to : ℕ → Effect
  goes_to target = continues (record m { pc = target; bus = retire_tick m.bus })

  abbrev pub writes : ℕ → ℕ → Effect
  writes index value =
      continues
        (record { registers = put m.registers index value; pc = next; bus = retire_tick m.bus })

  abbrev pub loads : ℕ → ℕ → ℕ → Effect
  loads word index address =
      let fault = map_fault data_read_fault address in
      if is_none fault
      then writes index (word_in (region_of address) m.bus address)
      else faults (load_error address) word (some address)

  abbrev pub stores : ℕ → ℕ → ℕ → Effect
  stores word address value =
      let fault = map_fault data_write_fault address in
      if is_none fault
      then continues (record {
        registers = m.registers;
        pc = next;
        bus = retire_tick (store_in (region_of address) m.bus address value);
      })
      else faults (store_error address) word (some address)

  -- The table of instructions; `word` is the instruction's own word.
  unfoldable pub perform : ℕ → DecodedInstruction → Opcode.Opcode → Effect
  perform word d op =
      let x = get m.registers d.rs1 in
      let y = get m.registers d.rs2 in
      elim op [
        | Opcode.Opcode.nop ↦ goes_to next
        | Opcode.Opcode.add ↦ writes d.rd (u32 (x + y))
        | Opcode.Opcode.sub ↦ writes d.rd (sub32 x y)
        | Opcode.Opcode.and ↦ writes d.rd (bit_and x y)
        | Opcode.Opcode.or ↦ writes d.rd (bit_or x y)
        | Opcode.Opcode.xor ↦ writes d.rd (bit_xor x y)
        | Opcode.Opcode.slt ↦ writes d.rd (if ltb_ℤ (signed32 x) (signed32 y) then 1 else 0)
        | Opcode.Opcode.shl ↦ writes d.rd (x * 2 ^ (y % 32) % 2 ^ 32)
        | Opcode.Opcode.shr ↦ writes d.rd (x / 2 ^ (y % 32))
        | Opcode.Opcode.addi ↦ writes d.rd (u32 (x + sign_extend d.imm16))
        | Opcode.Opcode.andi ↦ writes d.rd (bit_and x d.imm16)
        | Opcode.Opcode.ori ↦ writes d.rd (bit_or x d.imm16)
        | Opcode.Opcode.xori ↦ writes d.rd (bit_xor x d.imm16)
        | Opcode.Opcode.lui ↦ writes d.rd (d.imm16 * 2 ^ 16)
        | Opcode.Opcode.lw ↦ loads word d.rd (u32 (x + sign_extend d.imm16))
        | Opcode.Opcode.sw ↦ stores word (u32 (x + sign_extend d.imm16)) y
        | Opcode.Opcode.beq ↦ goes_to (if x == y then branch_to next d.imm16 else next)
        | Opcode.Opcode.bne ↦ goes_to (if x == y then next else branch_to next d.imm16)
        | Opcode.Opcode.blt ↦
            goes_to (if ltb_ℤ (signed32 x) (signed32 y) then branch_to next d.imm16 else next)
        | Opcode.Opcode.bge ↦
            goes_to (if ltb_ℤ (signed32 x) (signed32 y) then next else branch_to next d.imm16)
        | Opcode.Opcode.j ↦ goes_to (jump_to next d.imm26)
        | Opcode.Opcode.jal ↦ continues (record {
          registers = put m.registers 31 next;
          pc = jump_to next d.imm26;
          bus = retire_tick m.bus;
        })
        | Opcode.Opcode.jr ↦ goes_to x
        | Opcode.Opcode.halt ↦ stops (record m { pc = next; bus = retire_tick m.bus })
        | Opcode.Opcode.unnamed raw ↦ faults unsupported_instruction word none
      ]

  -- A word that decodes is performed; any other faults.
  abbrev pub interpret : ℕ → DecodeResult → Effect
  interpret word result = elim (result.error) [
    | DecodeError.illegal_opcode ↦ faults illegal_instruction word none
    | DecodeError.malformed_encoding ↦ faults malformed_instruction word none
    | DecodeError.none ↦ elim (result.instruction) [
      | none ↦ faults unsupported_instruction word none
      | some d ↦ perform word d d.opcode
    ]
  ]

  -- One instruction, fetched from the ROM at the program counter.
  unfoldable pub instruction : Effect
  unfolding perform
  instruction =
      let fault = map_fault execute_fault m.pc in
      let word = RomLoading.load m.bus.rom.bytes m.pc in
      if is_none fault then interpret word (decode word) else faults (fetch_error m.pc) 0 none
