-- ===== src/Simulator/Runs.antt =====
-- The run loop of simulator/app/main.cpp against the execution of a program by the instruction set.
use bit_computer_system.Base.{
  ℕ, zero, suc, ◌+◌, ◌^◌, ◌<◌, ◌≤◌, ◌≡◌, ◌∙◌, refl, sym, ap, ap₂, subst, arith, true, false, ◌||◌,
  leb, if◌then◌else◌, if_true, if_false, Result, ok, ◌>>=◌,
}
use bit_computer_system.Isa.{Effect, continues, stops, faults}
use bit_computer_system.Isa.Soundness.{IsSound}
use bit_computer_system.Isa.Preservation.{Keeps, instruction-Keeps}
use bit_computer_system.Isa.Execution.{Ending, halts, fails, exceeds, Execution, outcome, execute}
use bit_computer_system.CpuCore.{CpuCore, Microstate}
use bit_computer_system.CpuCore.Steps.{StepResult, step, is_halted, is_fault}
use bit_computer_system.CpuCore.Phases.{machine_of, observe, Observation}
use bit_computer_system.CpuCore.Effects.{shows}
use bit_computer_system.CpuCore.Refinement.{answer, step-instruction}
use bit_computer_system.CpuCore.Soundness.{sound-IsReady}
use bit_computer_system.Simulator.{
  Exit, limit_exceeded, cpu_halted, cpu_faulted, run_loop, is_step_halted,
}

abbrev pub exit_of : Ending → Exit
exit_of halts = cpu_halted
exit_of (fails code word data_address) = cpu_faulted
exit_of exceeds = limit_exceeded

-- The state in which the processor stands at an ending, and the fault that it reports.
abbrev pub Reports : CpuCore → Ending → Type 0
Reports cpu halts = cpu.microstate ≡ Microstate.halted
Reports cpu (fails code word data_address) =
    (cpu.microstate ≡ Microstate.fault)
    × (cpu.fault_info
        ≡ record { code = code; pc = cpu.pc; instruction = word; data_address = data_address })
Reports cpu exceeds = cpu.microstate ≡ Microstate.fetch

pub record Agrees (cpu : CpuCore) (e : Execution) : Type 0 where
  pub same_machine : machine_of cpu ≡ e.machine
  pub same_count : cpu.retired_instructions ≡ e.retired
  pub reports : Reports cpu e.ending

-- The loop returns with what an execution comes to.
abbrev pub Comes : Result (Exit × CpuCore) → Execution → Type 0
Comes r e = (cpu' : CpuCore) × (r ≡ ok (exit_of e.ending, cpu')) × Agrees cpu' e

loop_faulted :
    (ticks rounds limit : ℕ) (cpu : CpuCore)
    → cpu.microstate ≡ Microstate.fault
    → run_loop ticks rounds limit cpu ≡ ok (cpu_faulted, cpu)
unfolding run_loop
loop_faulted ticks zero limit cpu h = rw h refl
loop_faulted ticks (suc rounds) limit cpu h = rw h refl

module _ (ticks limit : ℕ) (enough : 5 ≤ ticks) (small : limit < 2 ^ 64) where
  limit_reached :
      (rounds : ℕ) (cpu : CpuCore)
      → cpu.microstate ≡ Microstate.fetch
      → leb limit cpu.retired_instructions ≡ true
      → run_loop ticks (suc rounds) limit cpu ≡ ok (limit_exceeded, cpu)
  unfolding run_loop
  limit_reached rounds cpu f l =
      if_false _ _ (ap (λ (k : Microstate). is_halted k || is_fault k) f) ∙ if_true _ _ l

  -- A round that steps.
  round :
      (rounds : ℕ) (cpu cpu' : CpuCore) (result : StepResult)
      → cpu.microstate ≡ Microstate.fetch
      → leb limit cpu.retired_instructions ≡ false
      → step ticks cpu ≡ ok (result, cpu')
      → run_loop ticks (suc rounds) limit cpu ≡ (
          let rest = run_loop ticks rounds limit cpu' in
          if is_step_halted result then ok (cpu_halted, cpu') else rest)
  unfolding run_loop
  round rounds cpu cpu' result f l s =
      if_false _ _ (ap (λ (k : Microstate). is_halted k || is_fault k) f)
      ∙ if_false _ _ l
      ∙ ap after s
    where
      after : Result (StepResult × CpuCore) → Result (Exit × CpuCore)
      after r = do
        (result', last) ← r
        let rest = run_loop ticks rounds limit last
        if is_step_halted result' then ok (cpu_halted, last) else rest

  -- What the rest of the loop makes of an instruction's effect.
  after_effect :
      (left rounds : ℕ) (cpu cpu' : CpuCore) (effect : Effect)
      → ((next : CpuCore)
          → next.retired_instructions + left ≡ limit
          → next.microstate ≡ Microstate.fetch
          → IsSound (machine_of next)
          → Comes
              (run_loop ticks rounds limit next)
              (execute left next.retired_instructions (machine_of next)))
      → cpu.retired_instructions + suc left ≡ limit
      → cpu.microstate ≡ Microstate.fetch
      → Keeps effect
      → step ticks cpu ≡ ok (answer effect, cpu')
      → observe cpu' ≡ shows cpu effect
      → Comes (run_loop ticks (suc rounds) limit cpu) (
          outcome
            (execute left (suc cpu.retired_instructions))
            cpu.retired_instructions
            (machine_of cpu)
            effect)
  after_effect left rounds cpu cpu' (continues m) ih n f k s o =
      let same : machine_of cpu' ≡ m = ap (λ (w : Observation). w.machine) o in
      let count : cpu'.retired_instructions ≡ suc cpu.retired_instructions =
        ap (λ (w : Observation). w.retired) o ∙ omega arith in
      let (last, runs_on, agrees) =
        ih cpu' (omega arith) (ap (λ (w : Observation). w.microstate) o)
          (subst IsSound (sym same) k) in
      let rest : execute left cpu'.retired_instructions (machine_of cpu')
          ≡ execute left (suc cpu.retired_instructions) m =
        ap₂ (execute left) count same in
      (
        last,
        round rounds cpu cpu' _ f (ground arith) s
            ∙ runs_on
            ∙ ap (λ (x : Execution). ok (exit_of x.ending, last)) rest,
        subst (Agrees last) rest agrees,
      )
  after_effect left rounds cpu cpu' (stops m) ih n f k s o = (
    cpu',
    round rounds cpu cpu' _ f (ground arith) s,
    record {
      same_machine = ap (λ (w : Observation). w.machine) o;
      same_count = ap (λ (w : Observation). w.retired) o ∙ omega arith;
      reports = ap (λ (w : Observation). w.microstate) o;
    },
  )
  after_effect left rounds cpu cpu' (faults code word data_address) ih n f k s o =
      let stuck : cpu'.microstate ≡ Microstate.fault = ap (λ (w : Observation). w.microstate) o in
      (
        cpu',
        round rounds cpu cpu' _ f (ground arith) s ∙ loop_faulted ticks rounds limit cpu' stuck,
        record {
          same_machine = ap (λ (w : Observation). w.machine) o;
          same_count = ap (λ (w : Observation). w.retired) o;
          reports = (
            stuck,
            ap (λ (w : Observation). w.fault_info) o
                ∙ ap
                    (λ (k : ℕ). record {
                      code = code;
                      pc = k;
                      instruction = word;
                      data_address = data_address;
                    })
                    (ap (λ (w : Observation). w.machine.pc) (sym o)),
          );
        },
      )

  -- The loop from a state that has retired `limit - left` instructions.
  runs :
      (left rounds : ℕ) (cpu : CpuCore)
      → left < rounds
      → cpu.retired_instructions + left ≡ limit
      → cpu.microstate ≡ Microstate.fetch
      → IsSound (machine_of cpu)
      → Comes
          (run_loop ticks rounds limit cpu)
          (execute left cpu.retired_instructions (machine_of cpu))
  unfolding execute
  runs zero (suc rounds) cpu r n f v = (
    cpu,
    limit_reached rounds cpu f (ground arith),
    record { same_machine = refl; same_count = refl; reports = f },
  )
  runs (suc left) (suc rounds) cpu r n f v =
      let (cpu', s, o) = step-instruction cpu (sound-IsReady cpu f v) ticks enough in
      after_effect left rounds cpu cpu' _ (λ next. runs left rounds next (omega arith)) n f
        (instruction-Keeps (machine_of cpu) v) s o
  runs left zero cpu r n f v = absurd (omega arith)

-- Started at FETCH on a machine that holds words and bytes, with five ticks a step or more and
-- more rounds than instructions left up to a limit below 2 ^ 64, the run loop returns with the
-- ending, registers, program counter, bus and retired count of the execution by the instruction
-- set.
pub run_loop-execute :
    (ticks rounds limit left : ℕ) (cpu : CpuCore)
    → 5 ≤ ticks
    → limit < 2 ^ 64
    → cpu.retired_instructions + left ≡ limit
    → left < rounds
    → cpu.microstate ≡ Microstate.fetch
    → IsSound (machine_of cpu)
    → Comes
        (run_loop ticks rounds limit cpu)
        (execute left cpu.retired_instructions (machine_of cpu))
run_loop-execute ticks rounds limit left cpu enough small n more f v =
    runs ticks limit enough small left rounds cpu more n f v
