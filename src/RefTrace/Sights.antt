-- ===== src/RefTrace/Sights.antt =====
-- A round of the loop of simulator/app/ref_trace.cpp, whatever the instruction comes to.
use bit_computer_system.Base.{
  ℕ, ◌≤◌, ◌≡◌, ◌∙◌, refl, sym, ap, subst, arith, Bool, true, if◌then◌else◌, ok, inl, inr,
}
use bit_computer_system.Decoder.RoundTrip.{encode-decode}
use bit_computer_system.Bus.MemoryMap.{map_fault, execute_fault, fetch32-map}
use bit_computer_system.Bus.{is_none}
use bit_computer_system.Isa.{perform, instruction}
use bit_computer_system.Isa.Soundness.{IsSound}
use bit_computer_system.CpuCore.{CpuCore, Microstate}
use bit_computer_system.CpuCore.Phases.{machine_of, observe}
use bit_computer_system.CpuCore.Effects.{shows, IsInstruction-bounds}
use bit_computer_system.CpuCore.Refinement.{step-instruction, answer}
use bit_computer_system.CpuCore.Soundness.{sound-IsReady}
use bit_computer_system.RefTrace.{Round, continued, round}
use bit_computer_system.RefTrace.Scan.{snapshot_lem}
use bit_computer_system.RefTrace.Events.{perform-Writes, word_of}
use bit_computer_system.RefTrace.Rounds.{
  Sees, round_lem, performed_or_faults, ending, ending_faults, ending_performed, word_of-lt,
}

fetched_word : (b : Bool) (w : ℕ) → b ≡ true → (if b then (if b then w else 0) else 0) ≡ w
fetched_word b w e = rw e refl

-- A round returns, and comes to what the instruction set makes of the instruction.
pub round-Sees :
    (ticks : ℕ) (cpu : CpuCore)
    → 5 ≤ ticks
    → cpu.microstate ≡ Microstate.fetch
    → IsSound (machine_of cpu)
    → let effect = instruction (machine_of cpu) in
      (cpu' : CpuCore) × (s : Round) × (round ticks cpu ≡ ok (s, cpu'))
      × (observe cpu' ≡ shows cpu effect)
      × Sees cpu effect s
round-Sees ticks cpu enough f v =
    let effect = instruction (machine_of cpu) in
    let (cpu', steps, o) = step-instruction cpu (sound-IsReady cpu f v) ticks enough in
    let (before, copied, c) = snapshot_lem 32 cpu.registers (omega arith) in
    let code = map_fault execute_fault cpu.pc in
    let word = if is_none code then (if is_none code then word_of (machine_of cpu) else 0) else 0 in
    let returns = λ (s : Round) (e : ending cpu cpu' before c word ≡ ok s).
      round_lem ticks cpu cpu' _ before (answer effect) s (fetch32-map cpu.bus cpu.pc v.pc_word)
        copied steps e in
    elim (performed_or_faults (machine_of cpu) v) [
      | inl (d, e, fine, performed) ↦
          let valid =
            (encode-decode (word_of (machine_of cpu)) d (word_of-lt (machine_of cpu) v) e).0 in
          let (s, ends, sees) =
            ending_performed cpu cpu' before c d e valid.named (IsInstruction-bounds d valid)
              (perform (machine_of cpu) (word_of (machine_of cpu)) d d.opcode)
              (perform-Writes (machine_of cpu) (word_of (machine_of cpu)) d d.opcode)
              (o ∙ ap (shows cpu) performed) in
          (
            cpu',
            s,
            returns s (
                ap (ending cpu cpu' before c)
                  (fetched_word (is_none code) (word_of (machine_of cpu)) fine)
                ∙ ends),
            o,
            subst (λ x. Sees cpu x s) (sym performed) sees,
          )
      | inr (fault, w, a, faulted) ↦ (
        cpu',
        continued,
        returns continued
            (ending_faults cpu cpu' before c word fault w a (o ∙ ap (shows cpu) faulted)),
        o,
        subst (λ x. Sees cpu x continued) (sym faulted) refl,
      )
    ]
