-- ===== src/RefTrace.antt =====
-- The reference trace: simulator/app/ref_trace.cpp, its loop and the records that it emits.
pub mod Scan
pub mod Events
pub mod Rounds
pub mod Sights
pub mod Loop
pub mod Printing
pub mod Reading
pub mod Program
use bit_computer_system.Base.{
  ℕ, zero, suc, ◌+◌, Bool, true, false, Option, none, some, Result, ok, err, undefined_behaviour,
  ◌>>=◌, ltb, ◌==◌, ◌||◌, not, if◌then◌else◌, u32, List, [], ◌∷◌,
}
use bit_computer_system.RegisterFile as RegisterFile
use bit_computer_system.RegisterFile.{RegisterFile, register_count}
use bit_computer_system.Opcode.{same_opcode, sw}
use bit_computer_system.Immediate.{immediate_value, ImmediateKind}
use bit_computer_system.Decoder as Decoder
use bit_computer_system.Decoder.{DecodedInstruction, DecodeResult}
use bit_computer_system.Bus as Bus
use bit_computer_system.CpuCore.{CpuCore, deref}
use bit_computer_system.CpuCore.Ticks.{decode_ok}
use bit_computer_system.CpuCore.Steps.{is_halted, is_fault, step}

-- What `emit_retire` is called with.
pub record Retire : Type 0 where
  pub index : ℕ
  pub pc : ℕ
  pub instruction : ℕ
  pub next_pc : ℕ
  pub register_write : Option ℕ
  pub register_value : ℕ
  pub memory_write : Bool
  pub memory_address : ℕ
  pub memory_value : ℕ

-- std::array<std::uint32_t, kRegisterCount>: the cells below `register_count`.
abbrev pub Registers : Type 0
Registers = ℕ → ℕ

-- `before[index]`, undefined behaviour past the end.
unfoldable pub cell : Registers → ℕ → Result ℕ
cell before index = if ltb index register_count then ok (before index) else err undefined_behaviour

-- The loop that fills `before`, up to an index.
unfoldable pub snapshot : ℕ → RegisterFile → Result Registers
snapshot zero r = ok (λ _. 0)
snapshot (suc index) r = do
  before ← snapshot index r
  value ← RegisterFile.read r index
  ok (λ j. if j == index then value else before j)

-- `changed_register` and `register_value`.
pub record Change : Type 0 where
  pub changed_register : Option ℕ
  pub register_value : ℕ

abbrev pub has_value : Option ℕ → Bool
has_value none = false
has_value (some index) = true

-- The loop that looks for the register that changed, with `left` rounds to go from `index`; it has
-- no answer when there is a second one.
unfoldable pub scan : ℕ → ℕ → Registers → RegisterFile → Change → Result (Option Change)
scan zero index before r change = ok (some change)
scan (suc left) index before r change = do
  after ← RegisterFile.read r index
  old ← cell before index
  let same = scan left (index + 1) before r change
  let other =
      scan left (index + 1) before r
        (record { changed_register = some index; register_value = after })
  if after == old then same else if has_value change.changed_register then ok none else other

-- `memory_write`, `memory_address` and `memory_value`.
pub record Stored : Type 0 where
  pub memory_write : Bool
  pub memory_address : ℕ
  pub memory_value : ℕ

abbrev pub not_stored : Stored
not_stored = record { memory_write = false; memory_address = 0; memory_value = 0 }

-- The body of the test for a store, once the word is decoded.
unfoldable pub stored_by : DecodedInstruction → Registers → Result Stored
unfolding cell
stored_by decoded before =
    if same_opcode decoded.opcode sw
    then (do
      base ← cell before decoded.rs1
      value ← cell before decoded.rs2
      ok (record {
        memory_write = true;
        memory_address = u32 (base + immediate_value ImmediateKind.signed16 decoded.imm16);
        memory_value = value;
      }))
    else ok not_stored

unfoldable pub store_seen : DecodeResult → Registers → Result Stored
unfolding stored_by
store_seen result before =
    if decode_ok result.error
    then (do decoded ← deref result.instruction; stored_by decoded before)
    else ok not_stored

-- What one round of the loop comes to: nothing retired, a record is emitted, or more than one
-- register changed.
pub data Round : Type 0 where
  continued : Round
  emitted : Retire → Round
  several : Round

-- The record that is emitted, once the store is known, and once the change is; with a second change
-- the program ends.
unfoldable pub emit : ℕ → ℕ → ℕ → CpuCore → Change → Stored → Round
emit retired_before pc instruction cpu change stored = emitted (record {
  index = retired_before;
  pc = pc;
  instruction = instruction;
  next_pc = cpu.pc;
  register_write = change.changed_register;
  register_value = change.register_value;
  memory_write = stored.memory_write;
  memory_address = stored.memory_address;
  memory_value = stored.memory_value;
})

unfoldable pub emit_change : ℕ → ℕ → ℕ → Registers → CpuCore → Option Change → Result Round
emit_change retired_before pc instruction before cpu none = ok several
emit_change retired_before pc instruction before cpu (some change) = do
  stored ← store_seen (Decoder.decode instruction) before
  ok (emit retired_before pc instruction cpu change stored)

-- After a step that retired an instruction.
unfoldable pub observed : ℕ → ℕ → ℕ → Registers → CpuCore → Result Round
observed retired_before pc instruction before cpu = do
  change ←
      scan register_count 0 before cpu.registers
        (record { changed_register = none; register_value = 0 })
  emit_change retired_before pc instruction before cpu change

-- The body of the loop; the step has `ticks` ticks.
unfoldable pub round : ℕ → CpuCore → Result (Round × CpuCore)
round ticks cpu = do
  fetched ← Bus.fetch32 cpu.bus cpu.pc
  let instruction = if Bus.is_none fetched.fault then fetched.value else 0
  before ← snapshot register_count cpu.registers
  (_, cpu') ← step ticks cpu
  seen ←
      (if cpu'.retired_instructions == cpu.retired_instructions
        then ok continued
        else observed cpu.retired_instructions cpu.pc instruction before cpu')
  ok (seen, cpu')

-- The records emitted, whether the loop was left because several registers changed, and the
-- processor after it.
pub record Traced : Type 0 where
  pub records : List Retire
  pub failed : Bool
  pub cpu : CpuCore

-- What a round makes of the loop; `rest` are the rounds after it.
abbrev pub follow : Round → Result Traced → CpuCore → Result Traced
follow continued rest cpu = rest
follow (emitted r) rest cpu = do t ← rest; ok (record t { records = r ∷ t.records })
follow several rest cpu = ok (record { records = []; failed = true; cpu = cpu })

-- The loop with `left` rounds up to the limit.
unfoldable pub trace_loop : ℕ → ℕ → CpuCore → Result Traced
trace_loop ticks zero cpu = ok (record { records = []; failed = false; cpu = cpu })
trace_loop ticks (suc left) cpu =
    let next = (do
      (seen, cpu') ← round ticks cpu
      let rest = trace_loop ticks left cpu'
      follow seen rest cpu') in
    if is_halted cpu.microstate || is_fault cpu.microstate
    then ok (record { records = []; failed = false; cpu = cpu })
    else next
