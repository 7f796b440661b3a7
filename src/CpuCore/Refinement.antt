-- ===== src/CpuCore/Refinement.antt =====
-- The multi-cycle processor against the instruction set.
use bit_computer_system.Base.{
  ℕ, ◌+◌, ◌^◌, ◌%◌, ◌<◌, ◌≤◌, ◌≡◌, ◌∙◌, refl, ap, sym, arith, true, false, Option, some, none,
  Result, ok, ◌>>=◌, Bool-cases, inl, inr, if_true, if_false,
}
use bit_computer_system.Decoder.{
  DecodedInstruction, DecodeResult, DecodeError, illegal_opcode, malformed_encoding, decode,
}
use bit_computer_system.Decoder.Fields.{decode_cases}
use bit_computer_system.Decoder.RoundTrip.{accepted, encode-decode}
use bit_computer_system.Control.{ControlSignals, control_for}
use bit_computer_system.Memory.Words.{little_endian-lt}
use bit_computer_system.Rom.Loading.{load}
use bit_computer_system.Bus.{BusFault, is_none, fetch32}
use bit_computer_system.Bus.MemoryMap.{map_fault, execute_fault, fetch32-map}
use bit_computer_system.Isa.{Effect, continues, stops, faults, perform, interpret, instruction}
use bit_computer_system.CpuCore.{CpuFault, CpuCore, Microstate, enter_fault}
use bit_computer_system.CpuCore.Ticks.{tick, fetch_fault, decode_ok, decode_fault}
use bit_computer_system.CpuCore.Steps.{
  StepResult, retired, halted, faulted, is_running, is_halted, is_fault, step, step_result,
}
use bit_computer_system.CpuCore.Faults.{fetch_fault_lem}
use bit_computer_system.CpuCore.Fuel.{loop_more}
use bit_computer_system.CpuCore.Phases.{
  fetched, tick-fetched, tick-decoded, Observation, machine_of, observe, Ends, Ends-tick, Ends-now,
  same_count,
}
use bit_computer_system.CpuCore.Effects.{AreWords, shows, IsInstruction-bounds, Ends-as}
use bit_computer_system.CpuCore.Instructions.{Performs, performs}

-- Between two instructions: the program counter and the registers hold words, and the ROM bytes.
pub record IsReady (cpu : CpuCore) : Type 0 where
  pub at_fetch : cpu.microstate ≡ Microstate.fetch
  pub pc_word : cpu.pc < 2 ^ 32
  pub register_words : AreWords cpu.registers
  pub rom_bytes : (i : ℕ) → cpu.bus.rom.bytes i < 256

no_fault_at : (code : BusFault) → is_none code ≡ true → code ≡ BusFault.none
no_fault_at code e = ground arith

module _ (cpu : CpuCore) (v : IsReady cpu) where
  abbrev count : ℕ
  count = cpu.retired_instructions

  abbrev word_at_pc : ℕ
  word_at_pc = load cpu.bus.rom.bytes cpu.pc

  word_at_pc-lt : word_at_pc < 2 ^ 32
  word_at_pc-lt =
      little_endian-lt _ _ _ _ (v.rom_bytes _) (v.rom_bytes _) (v.rom_bytes _) (v.rom_bytes _)

  running : is_running count cpu ≡ true
  running = rw v.at_fetch (same_count count)

  fetch_faults :
      is_none (map_fault execute_fault cpu.pc) ≡ false
      → Ends 5 count cpu (shows cpu (faults (fetch_fault (map_fault execute_fault cpu.pc)) 0 none))
  unfolding tick
  fetch_faults bad =
      let last : CpuCore =
        enter_fault (fetch_fault (map_fault execute_fault cpu.pc)) none (record cpu {
          instruction_register = 0;
          pc_plus_4 = (cpu.pc + 4) % 2 ^ 32;
          next_pc = (cpu.pc + 4) % 2 ^ 32;
        }) in
      Ends-tick 4 count cpu last (rw (v.at_fetch, fetch32-map cpu.bus cpu.pc v.pc_word, bad) refl)
        running (Ends-now 4 count last refl refl)

  -- A word that is no instruction faults in DECODE.
  decode_faults :
      (error : DecodeError)
      → decode word_at_pc ≡ record { instruction = none; error = error }
      → decode_ok error ≡ false
      → Ends 4 count
          (fetched word_at_pc cpu)
          (shows cpu (faults (decode_fault error) word_at_pc none))
  unfolding tick
  decode_faults error e bad =
      let last : CpuCore = enter_fault (decode_fault error) none (fetched word_at_pc cpu) in
      Ends-tick 3 count _ last (rw (e, bad) refl) (same_count count)
        (Ends-now 3 count last refl refl)

  -- A word that is an instruction goes on to EXECUTE.
  accepted-Ends :
      (d : DecodedInstruction) (signals : Option ControlSignals)
      → (e : decode word_at_pc ≡ accepted d) → control_for d.opcode ≡ signals
      → Performs cpu word_at_pc d v.register_words
          (encode-decode word_at_pc d word_at_pc-lt e).0
          d.opcode
          signals
      → Ends 4 count
          (fetched word_at_pc cpu)
          (shows cpu (perform (machine_of cpu) word_at_pc d d.opcode))
  accepted-Ends d none e c p = absurd p
  accepted-Ends d (some s) e c p =
      let bounds = IsInstruction-bounds d (encode-decode word_at_pc d word_at_pc-lt e).0 in
      Ends-tick 3 count _ _ (tick-decoded cpu word_at_pc d s e c bounds.rs1 bounds.rs2)
        (same_count count) p

  interpreted :
      Ends 4 count
        (fetched word_at_pc cpu)
        (shows cpu (interpret (machine_of cpu) word_at_pc (decode word_at_pc)))
  interpreted = elim (decode_cases word_at_pc word_at_pc-lt) [
    | inl e ↦ Ends-as 4 count _ (decode_faults illegal_opcode e refl) (ap shown (sym e))
    | inr (inl e) ↦ Ends-as 4 count _ (decode_faults malformed_encoding e refl) (ap shown (sym e))
    | inr (inr (d, e)) ↦
        Ends-as 4 count _
          (accepted-Ends d _ e refl (
            performs cpu word_at_pc d v.register_words
              (encode-decode word_at_pc d word_at_pc-lt e).0 d.opcode refl))
          (ap shown (sym e))
  ]
    where
      shown : DecodeResult → Observation
      shown result = shows cpu (interpret (machine_of cpu) word_at_pc result)

  instruction-Ends : Ends 5 count cpu (shows cpu (instruction (machine_of cpu)))
  unfolding instruction
  instruction-Ends = elim (Bool-cases (is_none (map_fault execute_fault cpu.pc))) [
    | inl fine ↦
        Ends-as 5 count cpu
          (Ends-tick 4 count cpu (fetched word_at_pc cpu)
            (tick-fetched cpu word_at_pc v.at_fetch (fetched_word fine)) running interpreted)
          (ap (shows cpu) (sym (if_true _ _ fine)))
    | inr bad ↦ Ends-as 5 count cpu (fetch_faults bad) (
        ap (λ (c : CpuFault). shows cpu (faults c 0 none)) (fetch_fault_lem cpu.pc bad)
        ∙ ap (shows cpu) (sym (if_false _ _ bad)))
  ]
    where
      fetched_word :
          is_none (map_fault execute_fault cpu.pc) ≡ true
          → fetch32 cpu.bus cpu.pc ≡ ok (record { value = word_at_pc; fault = BusFault.none })
      fetched_word fine = rw (fetch32-map cpu.bus cpu.pc v.pc_word, fine, no_fault_at _ fine) refl

-- What `step` answers for an effect.
abbrev pub answer : Effect → StepResult
answer (continues m) = retired
answer (stops m) = halted
answer (faults code word data_address) = faulted

answer_shown :
    (cpu cpu' : CpuCore) (effect : Effect)
    → observe cpu' ≡ shows cpu effect
    → step_result cpu'.microstate ≡ answer effect
answer_shown cpu cpu' (continues m) e = ap (λ (o : Observation). step_result o.microstate) e
answer_shown cpu cpu' (stops m) e = ap (λ (o : Observation). step_result o.microstate) e
answer_shown cpu cpu' (faults code word data_address) e =
    ap (λ (o : Observation). step_result o.microstate) e

-- From a core at FETCH whose program counter and registers are 32-bit words and whose ROM cells
-- are bytes, `step` with five ticks or more returns; its answer and the registers, program
-- counter, bus, retired count, fault information and microstate after it are those of one
-- instruction of the instruction-set description.
pub step-instruction :
    (cpu : CpuCore)
    → IsReady cpu
    → (fuel : ℕ) → 5 ≤ fuel
    → let effect = instruction (machine_of cpu) in
      (cpu' : CpuCore) × (step fuel cpu ≡ ok (answer effect, cpu'))
      × (observe cpu' ≡ shows cpu effect)
unfolding step
step-instruction cpu v fuel h =
    let (cpu', runs, same) = instruction-Ends cpu v in
    (
      cpu',
      if_false _ _ (ap is_halted v.at_fetch)
          ∙ if_false _ _ (ap is_fault v.at_fetch)
          ∙ ap after (loop_more 5 fuel cpu.retired_instructions cpu cpu' h runs)
          ∙ ap (λ (r : StepResult). ok (r, cpu'))
              (answer_shown cpu cpu' (instruction (machine_of cpu)) same),
      same,
    )
  where
    after : Result CpuCore → Result (StepResult × CpuCore)
    after r = r >>= λ (last : CpuCore). ok (step_result last.microstate, last)
