-- ===== src/RefTrace/Loop.antt =====
-- The loop of simulator/app/ref_trace.cpp against the records of a run by the instruction set.
use bit_computer_system.Base.{
  bind_ok, ℕ, zero, suc, ◌+◌, ◌≤◌, ◌<◌, ◌≡◌, ◌∙◌, refl, sym, ap, ap₂, subst, arith, true, false,
  ◌||◌, if_true, if_false, Option, List, [], ◌∷◌, Result, ok, ◌^◌,
}
use bit_computer_system.Decoder.{DecodedInstruction, DecodeResult, decode}
use bit_computer_system.Decoder.RoundTrip.{accepted}
use bit_computer_system.Isa.{Machine, Effect, continues, stops, faults, instruction}
use bit_computer_system.Isa.Soundness.{IsSound}
use bit_computer_system.Isa.Preservation.{Keeps, instruction-Keeps}
use bit_computer_system.Isa.Execution.{Execution, outcome, execute}
use bit_computer_system.CpuCore.{CpuCore, Microstate, CpuFault, FaultInfo}
use bit_computer_system.CpuCore.Steps.{is_halted, is_fault}
use bit_computer_system.CpuCore.Phases.{machine_of, observe, Observation}
use bit_computer_system.CpuCore.Effects.{shows}
use bit_computer_system.Simulator.Runs.{Agrees}
use bit_computer_system.RefTrace.{follow, Retire, Round, Traced, round, trace_loop}
use bit_computer_system.RefTrace.Events.{word_of, record_of, noted, recorded, emits, events}
use bit_computer_system.RefTrace.Sights.{round-Sees}
use bit_computer_system.RefTrace.Rounds.{Sees}

loop_done :
    (ticks left : ℕ) (cpu : CpuCore)
    → (is_halted cpu.microstate || is_fault cpu.microstate) ≡ true
    → trace_loop ticks left cpu ≡ ok (record { records = []; failed = false; cpu = cpu })
unfolding trace_loop
loop_done ticks zero cpu h = refl
loop_done ticks (suc left) cpu h = if_true _ _ h

loop_round :
    (ticks left : ℕ) (cpu cpu' : CpuCore) (s : Round)
    → cpu.microstate ≡ Microstate.fetch
    → round ticks cpu ≡ ok (s, cpu')
    → trace_loop ticks (suc left) cpu ≡ follow s (trace_loop ticks left cpu') cpu'
unfolding trace_loop
loop_round ticks left cpu cpu' s f e =
    if_false _ _ (ap (λ (k : Microstate). is_halted k || is_fault k) f)
    ∙ bind_ok (round ticks cpu) (s, cpu')
        (λ ((seen, last) : Round × CpuCore). follow seen (trace_loop ticks left last) last) e

-- The loop returns with the records and the ending of a run.
abbrev pub Traces : Result Traced → List Retire → Execution → Type 0
Traces r records e =
    (t : Traced) × (r ≡ ok t) × (t.records ≡ records) × (t.failed ≡ false) × Agrees t.cpu e

recorded_lem :
    (n : ℕ) (m m' : Machine) (d : DecodedInstruction) (rest : List Retire)
    → decode (word_of m) ≡ accepted d
    → recorded n m m' rest ≡ record_of n m d m' ∷ rest
recorded_lem n m m' d rest e = ap (λ (r : DecodeResult). noted r.instruction n m m' rest) e

abbrev info : CpuFault → ℕ → ℕ → Option ℕ → FaultInfo
info code pc word address = record {
  code = code;
  pc = pc;
  instruction = word;
  data_address = address;
}

fault_at :
    (code : CpuFault) (w : ℕ) (a : Option ℕ) (cpu cpu' : CpuCore)
    → observe cpu' ≡ shows cpu (faults code w a)
    → info code cpu.pc w a ≡ info code cpu'.pc w a
fault_at code w a cpu cpu' o =
    ap (λ (k : ℕ). info code k w a) (ap (λ (x : Observation). x.machine.pc) (sym o))

module _ (ticks : ℕ) (enough : 5 ≤ ticks) where
  -- The loop from a round on that sees an effect.
  after_round :
      (left : ℕ) (cpu cpu' : CpuCore) (s : Round) (effect : Effect)
      → ((next : CpuCore)
          → next.retired_instructions + left < 2 ^ 64
          → next.microstate ≡ Microstate.fetch
          → IsSound (machine_of next)
          → Traces
              (trace_loop ticks left next)
              (events left next.retired_instructions (machine_of next))
              (execute left next.retired_instructions (machine_of next)))
      → cpu.retired_instructions + suc left < 2 ^ 64
      → Keeps effect
      → observe cpu' ≡ shows cpu effect
      → Sees cpu effect s
      → Traces
          (follow s (trace_loop ticks left cpu') cpu')
          (emits
            (events left (suc cpu.retired_instructions))
            cpu.retired_instructions
            (machine_of cpu)
            effect)
          (outcome
            (execute left (suc cpu.retired_instructions))
            cpu.retired_instructions
            (machine_of cpu)
            effect)
  after_round left cpu cpu' s (continues m') ih small k o (d, e, seen) =
      let same : machine_of cpu' ≡ m' = ap (λ (w : Observation). w.machine) o in
      let count : cpu'.retired_instructions ≡ suc cpu.retired_instructions =
        ap (λ (w : Observation). w.retired) o ∙ omega arith in
      let (t, runs, records, fine, agrees) =
        ih cpu' (omega arith) (ap (λ (w : Observation). w.microstate) o)
          (subst IsSound (sym same) k) in
      let r = record_of cpu.retired_instructions (machine_of cpu) d m' in
      (
        record t { records = r ∷ t.records },
        ap (λ (x : Round). follow x (trace_loop ticks left cpu') cpu') seen
            ∙ bind_ok (trace_loop ticks left cpu') t
                (λ (x : Traced). ok (record x { records = r ∷ x.records })) runs,
        ap (λ (l : List Retire). r ∷ l) (records ∙ ap₂ (events left) count same)
            ∙ sym (recorded_lem cpu.retired_instructions (machine_of cpu) m' d _ e),
        fine,
        subst (Agrees t.cpu) (ap₂ (execute left) count same) agrees,
      )
  after_round left cpu cpu' s (stops m') ih small k o (d, e, seen) =
      let halted : cpu'.microstate ≡ Microstate.halted = ap (λ (w : Observation). w.microstate) o in
      let r = record_of cpu.retired_instructions (machine_of cpu) d m' in
      (
        record { records = r ∷ []; failed = false; cpu = cpu' },
        ap (λ (x : Round). follow x (trace_loop ticks left cpu') cpu') seen
            ∙ bind_ok (trace_loop ticks left cpu')
                (record { records = []; failed = false; cpu = cpu' })
                (λ (x : Traced). ok (record x { records = r ∷ x.records }))
                (loop_done ticks left cpu'
                  (ap (λ (w : Microstate). is_halted w || is_fault w) halted)),
        sym (recorded_lem cpu.retired_instructions (machine_of cpu) m' d [] e),
        refl,
        record {
          same_machine = ap (λ (w : Observation). w.machine) o;
          same_count = ap (λ (w : Observation). w.retired) o ∙ omega arith;
          reports = halted;
        },
      )
  after_round left cpu cpu' s (faults code w a) ih small k o seen =
      let stuck : cpu'.microstate ≡ Microstate.fault = ap (λ (x : Observation). x.microstate) o in
      (
        record { records = []; failed = false; cpu = cpu' },
        ap (λ (x : Round). follow x (trace_loop ticks left cpu') cpu') seen
            ∙ loop_done ticks left cpu' (ap (λ (x : Microstate). is_halted x || is_fault x) stuck),
        refl,
        refl,
        record {
          same_machine = ap (λ (x : Observation). x.machine) o;
          same_count = ap (λ (x : Observation). x.retired) o;
          reports =
              (stuck, ap (λ (x : Observation). x.fault_info) o ∙ fault_at code w a cpu cpu' o);
        },
      )

  traces :
      (left : ℕ) (cpu : CpuCore)
      → cpu.retired_instructions + left < 2 ^ 64
      → cpu.microstate ≡ Microstate.fetch
      → IsSound (machine_of cpu)
      → Traces
          (trace_loop ticks left cpu)
          (events left cpu.retired_instructions (machine_of cpu))
          (execute left cpu.retired_instructions (machine_of cpu))
  unfolding trace_loop events execute
  traces zero cpu small f v =
      (_, refl, refl, refl, record { same_machine = refl; same_count = refl; reports = f })
  traces (suc left) cpu small f v =
      let (cpu', s, returns, o, seen) = round-Sees ticks cpu enough f v in
      let (t, runs, records, fine, agrees) =
        after_round left cpu cpu' s (instruction (machine_of cpu)) (traces left) small
          (instruction-Keeps (machine_of cpu) v) o seen in
      (t, loop_round ticks left cpu cpu' s f returns ∙ runs, records, fine, agrees)

-- Started at FETCH on a machine that holds words and bytes, with five ticks a step or more and a
-- retired count that stays below 2 ^ 64, the loop returns: it does not meet an instruction that
-- changes two registers, it emits the records of the run by the instruction set, in order, and it
-- leaves the processor as that run leaves its machine.
pub trace_loop-events :
    (ticks left : ℕ) (cpu : CpuCore)
    → 5 ≤ ticks
    → cpu.retired_instructions + left < 2 ^ 64
    → cpu.microstate ≡ Microstate.fetch
    → IsSound (machine_of cpu)
    → Traces
        (trace_loop ticks left cpu)
        (events left cpu.retired_instructions (machine_of cpu))
        (execute left cpu.retired_instructions (machine_of cpu))
trace_loop-events ticks left cpu enough small f v = traces ticks enough left cpu small f v
