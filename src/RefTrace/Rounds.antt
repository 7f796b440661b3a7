-- ===== src/RefTrace/Rounds.antt =====
-- One round of the loop of simulator/app/ref_trace.cpp.
use bit_computer_system.Base.{
  bind_ok, ℕ, ◌+◌, ◌<◌, ◌≡◌, ◌≢◌, ◌∙◌, refl, ap, arith, true, ◌==◌, if◌then◌else◌, if_true,
  if_false, Option, none, some, u64, Result, ok, ◌>>=◌, eq→==, ◌⊎◌, Bool-cases, inl, inr, ◌^◌,
}
use bit_computer_system.Opcode.{Opcode}
use bit_computer_system.RegisterFile.{RegisterFile}
use bit_computer_system.Decoder.{DecodedInstruction, DecodeResult, decode}
use bit_computer_system.Decoder.Fields.{decode_cases, is_named}
use bit_computer_system.Decoder.RoundTrip.{accepted}
use bit_computer_system.Immediate.Values.{immediate_value_signed}
use bit_computer_system.Bus as Bus
use bit_computer_system.Bus.{fetch32, is_none}
use bit_computer_system.Bus.MemoryMap.{map_fault, execute_fault}
use bit_computer_system.Memory.Words.{little_endian-lt}
use bit_computer_system.Isa.{
  Machine, Effect, continues, stops, faults, get, put, perform, interpret, instruction, fetch_error,
}
use bit_computer_system.Isa.Soundness.{IsSound}
use bit_computer_system.CpuCore.{CpuCore, CpuFault, illegal_instruction, malformed_instruction}
use bit_computer_system.CpuCore.Steps.{StepResult, step}
use bit_computer_system.CpuCore.Phases.{machine_of, observe, Observation, one_more}
use bit_computer_system.CpuCore.Effects.{shows, HasBounds}
use bit_computer_system.RefTrace.{
  Change, emit, emit_change, Registers, Stored, Round, continued, emitted, snapshot, scan,
  stored_by, store_seen, observed, round,
}
use bit_computer_system.RefTrace.Scan.{nothing, Copies, cell_lem, change_at, scan_lem}
use bit_computer_system.RefTrace.Events.{
  written_register, stored_word, Writes, get-put_apart, word_of, record_of,
}

stored_by_lem :
    (op : Opcode) (m : Machine) (d : DecodedInstruction) (before : Registers)
    → d.opcode ≡ op
    → is_named op ≡ true
    → HasBounds d
    → Copies 32 before m.registers
    → stored_by d before ≡ ok (stored_word m d op)
unfolding stored_by
stored_by_lem Opcode.sw m d before e n b c =
    rw
      (
        e,
        cell_lem before m.registers d.rs1 c b.rs1,
        cell_lem before m.registers d.rs2 c b.rs2,
        immediate_value_signed d.imm16 b.imm16,
      )
      refl
stored_by_lem (Opcode.unnamed raw) m d before e n b c = cc
stored_by_lem _ m d before e n b c = rw e refl

pub round_lem :
    (ticks : ℕ) (cpu cpu' : CpuCore) (fetched : Bus.BusReadResult) (before : Registers)
    (result : StepResult) (seen : Round)
    → fetch32 cpu.bus cpu.pc ≡ ok fetched
    → snapshot 32 cpu.registers ≡ ok before
    → step ticks cpu ≡ ok (result, cpu')
    → (let word = if Bus.is_none fetched.fault then fetched.value else 0 in
        if cpu'.retired_instructions == cpu.retired_instructions
        then ok continued
        else observed cpu.retired_instructions cpu.pc word before cpu')
      ≡ ok seen
    → round ticks cpu ≡ ok (seen, cpu')
unfolding round
round_lem ticks cpu cpu' fetched before result seen f s t o =
    bind_ok _ fetched _ f ∙ bind_ok _ before _ s ∙ bind_ok _ (result, cpu') _ t ∙ bind_ok _ seen _ o

written_register-lt :
    (d : DecodedInstruction) (op : Opcode) → d.rd < 32 → written_register d op < 32
written_register-lt d Opcode.jal h = omega arith
written_register-lt d Opcode.nop h = omega arith
written_register-lt d _ h = omega arith

store_seen_lem :
    (m : Machine) (d : DecodedInstruction) (before : Registers) (word : ℕ)
    → decode word ≡ accepted d
    → is_named d.opcode ≡ true
    → HasBounds d
    → Copies 32 before m.registers
    → store_seen (decode word) before ≡ ok (stored_word m d d.opcode)
unfolding store_seen
store_seen_lem m d before word e n b c = ap shown e ∙ stored_by_lem d.opcode m d before refl n b c
  where
    shown : DecodeResult → Result Stored
    shown result = store_seen result before

emit_change_lem :
    (n : ℕ) (cpu cpu' : CpuCore) (d : DecodedInstruction) (before : Registers) (change : Change)
    → decode (word_of (machine_of cpu)) ≡ accepted d
    → is_named d.opcode ≡ true
    → HasBounds d
    → Copies 32 before cpu.registers
    → emit_change n cpu.pc (word_of (machine_of cpu)) before cpu' (some change)
      ≡ ok (
          emit n cpu.pc
            (word_of (machine_of cpu))
            cpu'
            change
            (stored_word (machine_of cpu) d d.opcode))
unfolding emit_change
emit_change_lem n cpu cpu' d before change e named b c =
    let word = word_of (machine_of cpu) in
    ap (λ (r : Result Stored). r >>= λ stored. ok (emit n cpu.pc word cpu' change stored))
      (store_seen_lem (machine_of cpu) d before word e named b c)

-- What is emitted after an instruction that retires.
observed_lem :
    (n : ℕ) (cpu cpu' : CpuCore) (d : DecodedInstruction) (before : Registers) (v : ℕ)
    → decode (word_of (machine_of cpu)) ≡ accepted d
    → is_named d.opcode ≡ true
    → HasBounds d
    → Copies 32 before cpu.registers
    → cpu'.registers ≡ put cpu.registers (written_register d d.opcode) v
    → observed n cpu.pc (word_of (machine_of cpu)) before cpu'
      ≡ ok (emitted (record_of n (machine_of cpu) d (machine_of cpu')))
unfolding observed emit
observed_lem n cpu cpu' d before v e named b c w =
    let i = written_register d d.opcode in
    let same : (j : ℕ) → j ≢ i → get cpu'.registers j ≡ get cpu.registers j =
      λ j h. ap (λ (r : RegisterFile). get r j) w ∙ get-put_apart cpu.registers i j v h in
    let change = change_at cpu.registers cpu'.registers i in
    let word = word_of (machine_of cpu) in
    bind_ok (scan 32 0 before cpu'.registers nothing) (some change)
      (emit_change n cpu.pc word before cpu')
      (scan_lem before cpu.registers cpu'.registers c 32 0 i (omega arith) (omega arith)
        (written_register-lt d d.opcode b.rd) same)
    ∙ emit_change_lem n cpu cpu' d before change e named b c

-- What a round should come to, for an effect.
abbrev pub Sees : CpuCore → Effect → Round → Type 0
Sees cpu (continues m') s =
    (d : DecodedInstruction) × (decode (word_of (machine_of cpu)) ≡ accepted d)
    × (s ≡ emitted (record_of cpu.retired_instructions (machine_of cpu) d m'))
Sees cpu (stops m') s =
    (d : DecodedInstruction) × (decode (word_of (machine_of cpu)) ≡ accepted d)
    × (s ≡ emitted (record_of cpu.retired_instructions (machine_of cpu) d m'))
Sees cpu (faults code word data_address) s = s ≡ continued

pub word_of-lt : (m : Machine) → IsSound m → word_of m < 2 ^ 32
word_of-lt m v =
    let cells = v.bus_words.rom_bytes in
    little_endian-lt _ _ _ _ (cells _) (cells _) (cells _) (cells _)

-- An instruction is performed, or it faults.
pub performed_or_faults :
    (m : Machine)
    → IsSound m
    → ((d : DecodedInstruction) × (decode (word_of m) ≡ accepted d)
        × (is_none (map_fault execute_fault m.pc) ≡ true)
        × (instruction m ≡ perform m (word_of m) d d.opcode))
      ⊎ (code : CpuFault) × (word : ℕ) × (a : Option ℕ) × (instruction m ≡ faults code word a)
unfolding instruction
performed_or_faults m v = elim (Bool-cases (is_none (map_fault execute_fault m.pc))) [
  | inr bad ↦ inr (fetch_error m.pc, 0, none, if_false _ _ bad)
  | inl fine ↦ elim (decode_cases (word_of m) (word_of-lt m v)) [
    | inl e ↦ inr (illegal_instruction, word_of m, none, if_true _ _ fine ∙ ap shown e)
    | inr (inl e) ↦ inr (malformed_instruction, word_of m, none, if_true _ _ fine ∙ ap shown e)
    | inr (inr (d, e)) ↦ inl (d, e, fine, if_true _ _ fine ∙ ap shown e)
  ]
]
  where
    shown : DecodeResult → Effect
    shown result = interpret m (word_of m) result

module _ (cpu cpu' : CpuCore) (before : Registers) (c : Copies 32 before cpu.registers) where
  abbrev pub n : ℕ
  n = cpu.retired_instructions

  -- The end of a round, after a step.
  abbrev pub ending : ℕ → Result Round
  ending word =
      if cpu'.retired_instructions == n then ok continued else observed n cpu.pc word before cpu'

  pub ending_faults :
      (word : ℕ) (code : CpuFault) (w : ℕ) (a : Option ℕ)
      → observe cpu' ≡ shows cpu (faults code w a)
      → ending word ≡ ok continued
  ending_faults word code w a o =
      if_true _ _ (eq→== cpu'.retired_instructions n (ap (λ (x : Observation). x.retired) o))

  module _ (d : DecodedInstruction) (e : decode (word_of (machine_of cpu)) ≡ accepted d)
      (named : is_named d.opcode ≡ true) (b : HasBounds d) where
    ending_retires :
        (m' : Machine) (v : ℕ)
        → machine_of cpu' ≡ m'
        → cpu'.retired_instructions ≡ u64 (n + 1)
        → m'.registers ≡ put cpu.registers (written_register d d.opcode) v
        → ending (word_of (machine_of cpu)) ≡ ok (emitted (record_of n (machine_of cpu) d m'))
    ending_retires m' v same count w =
        if_false _ _ (ap (λ (k : ℕ). k == n) count ∙ one_more n)
        ∙ observed_lem n cpu cpu' d before v e named b c
            (ap (λ (m : Machine). m.registers) same ∙ w)
        ∙ ap (λ (m : Machine). ok (emitted (record_of n (machine_of cpu) d m))) same

    pub ending_performed :
        (effect : Effect)
        → Writes cpu.registers (written_register d d.opcode) effect
        → observe cpu' ≡ shows cpu effect
        → (s : Round) × (ending (word_of (machine_of cpu)) ≡ ok s) × Sees cpu effect s
    ending_performed (continues m') (v, w) o = (
      _,
      ending_retires m' v (ap (λ (x : Observation). x.machine) o)
          (ap (λ (x : Observation). x.retired) o) w,
      (d, e, refl),
    )
    ending_performed (stops m') (v, w) o = (
      _,
      ending_retires m' v (ap (λ (x : Observation). x.machine) o)
          (ap (λ (x : Observation). x.retired) o) w,
      (d, e, refl),
    )
    ending_performed (faults code w a) _ o =
        (continued, ending_faults (word_of (machine_of cpu)) code w a o, refl)
