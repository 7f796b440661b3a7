-- ===== src/CpuCore/Liveness.antt =====
-- Ticks in a row: `CpuCore::tick` of simulator/src/cpu_core.cpp always comes to an end of the
-- instruction.
use bit_computer_system.Base.{
  ℕ, zero, suc, ◌+◌, ◌%◌, ◌^◌, ◌<◌, ◌≤◌, ◌≡◌, ◌≢◌, ◌⊎◌, ◌∙◌, refl, ap, subst, arith, Result, ok,
  ◌>>=◌, bind_ok, inl, inr,
}
use bit_computer_system.CpuCore.{
  Microstate, fetch, decode, execute, memory, writeback, halted, fault, CpuCore,
}
use bit_computer_system.CpuCore.Ticks.{tick}
use bit_computer_system.CpuCore.Stages.{
  Follows, fetches, fetch_faults, decodes, decode_faults, accesses, computes, transfers, loads,
  stores, access_faults, retires, halts, stays_halted, stays_faulted, IsWellFormed,
}
use bit_computer_system.CpuCore.Invariant.{tick-Ticked}

-- Some ticks, one after the other.
unfoldable pub ticks : ℕ → CpuCore → Result CpuCore
ticks zero cpu = ok cpu
ticks (suc n) cpu = do cpu' ← tick cpu; ticks n cpu'

-- The ticks that an instruction has left behind this one, at most.
abbrev pub left : Microstate → ℕ
left fetch = 4
left decode = 3
left execute = 2
left memory = 1
left writeback = 0
left halted = 0
left fault = 0

-- One more instruction has retired, or none has and the processor stands in FAULT.
pub data Settled (n : ℕ) (cpu : CpuCore) : Type 0 where
  retired_one : cpu.retired_instructions ≡ (n + 1) % 2 ^ 64 → Settled n cpu
  faulted : cpu.retired_instructions ≡ n → cpu.microstate ≡ fault → Settled n cpu

-- What a transition brings.
data Brings (s s' : Microstate) (k : ℕ) : Type 0 where
  one : k ≡ 1 → Brings s s' k
  stop : k ≡ 0 → s' ≡ fault → Brings s s' k
  nearer : k ≡ 0 → left s' < left s → s' ≢ halted → Brings s s' k
  idle : s ≡ halted → Brings s s' k

brings : (s s' : Microstate) (k : ℕ) → Follows s s' k → Brings s s' k
brings _ _ _ fetches = nearer refl (omega arith) (λ e. cc)
brings _ _ _ fetch_faults = stop refl refl
brings _ _ _ decodes = nearer refl (omega arith) (λ e. cc)
brings _ _ _ decode_faults = stop refl refl
brings _ _ _ accesses = nearer refl (omega arith) (λ e. cc)
brings _ _ _ computes = nearer refl (omega arith) (λ e. cc)
brings _ _ _ transfers = one refl
brings _ _ _ loads = nearer refl (omega arith) (λ e. cc)
brings _ _ _ stores = one refl
brings _ _ _ access_faults = stop refl refl
brings _ _ _ retires = one refl
brings _ _ _ halts = one refl
brings _ _ _ stays_halted = idle refl
brings _ _ _ stays_faulted = stop refl refl

-- The processor settles within a number of ticks.
abbrev pub SettlesWithin : ℕ → CpuCore → Type 0
SettlesWithin bound cpu =
    (k : ℕ) × (cpu' : CpuCore) × (k ≤ bound)
    × (ticks k cpu ≡ ok cpu')
    × IsWellFormed cpu'
    × Settled cpu.retired_instructions cpu'

one_tick : (cpu cpu' : CpuCore) → tick cpu ≡ ok cpu' → ticks 1 cpu ≡ ok cpu'
unfolding ticks
one_tick cpu cpu' e = bind_ok (tick cpu) cpu' (ticks 0) e

more_ticks :
    (k : ℕ) (cpu cpu' last : CpuCore)
    → tick cpu ≡ ok cpu'
    → ticks k cpu' ≡ ok last
    → ticks (suc k) cpu ≡ ok last
unfolding ticks
more_ticks k cpu cpu' last e r = bind_ok (tick cpu) cpu' (ticks k) e ∙ r

-- One tick, and what the rest of them comes to.
settles_after :
    (r : ℕ) (cpu : CpuCore)
    → ((next : CpuCore)
        → left next.microstate < r
        → next.microstate ≢ halted
        → IsWellFormed next
        → SettlesWithin r next)
    → left cpu.microstate ≤ r
    → cpu.microstate ≢ halted
    → IsWellFormed cpu
    → SettlesWithin (suc r) cpu
settles_after r cpu ih bound n v =
    let (cpu', e, t) = tick-Ticked cpu v in
    let count = cpu.retired_instructions in
    let small = v.words.retired_instructions in
    let counted =
      λ (x : ℕ) (k : t.retiring ≡ x). t.counts ∙ ap (λ (y : ℕ). (count + y) % 2 ^ 64) k in
    elim (brings cpu.microstate cpu'.microstate t.retiring t.follows) [
      | one k ↦
          (1, cpu', omega arith, one_tick cpu cpu' e, t.well_formed, retired_one (counted 1 k))
      | stop k f ↦ (
        1,
        cpu',
        omega arith,
        one_tick cpu cpu' e,
        t.well_formed,
        faulted (counted 0 k ∙ omega arith) f,
      )
      | nearer k closer alive ↦
          let (more, last, few, runs, w, settled) = ih cpu' (omega arith) alive t.well_formed in
          (
            suc more,
            last,
            omega arith,
            more_ticks more cpu cpu' last e runs,
            w,
            subst (λ (x : ℕ). Settled x last) (counted 0 k ∙ omega arith) settled,
          )
      | idle h ↦ absurd (n h)
    ]

settles :
    (r : ℕ) (cpu : CpuCore)
    → left cpu.microstate ≤ r
    → cpu.microstate ≢ halted
    → IsWellFormed cpu
    → SettlesWithin (suc r) cpu
settles zero = λ cpu. settles_after zero cpu (λ next h. absurd (omega arith))
settles (suc r) = λ cpu. settles_after (suc r) cpu (λ next h. settles r next (omega arith))

left-le : (s : Microstate) → left s ≤ 4
left-le fetch = omega arith
left-le decode = omega arith
left-le execute = omega arith
left-le memory = omega arith
left-le writeback = omega arith
left-le halted = omega arith
left-le fault = omega arith

halted_or_not : (s : Microstate) → (s ≡ halted) ⊎ (s ≢ halted)
halted_or_not halted = inl refl
halted_or_not fetch = inr (λ e. cc)
halted_or_not decode = inr (λ e. cc)
halted_or_not execute = inr (λ e. cc)
halted_or_not memory = inr (λ e. cc)
halted_or_not writeback = inr (λ e. cc)
halted_or_not fault = inr (λ e. cc)

-- From a state that holds words and bytes and has latched what its microstate relies on, any
-- number of ticks return in such a state; unless it is HALT, at most five ticks more either retire
-- an instruction or stop at FAULT with none retired.
pub ticks-Settled :
    (n : ℕ) (cpu : CpuCore)
    → IsWellFormed cpu
    → (cpu' : CpuCore) × (ticks n cpu ≡ ok cpu')
      × IsWellFormed cpu'
      × ((cpu'.microstate ≡ halted) ⊎ SettlesWithin 5 cpu')
unfolding ticks
ticks-Settled zero cpu v = (
  cpu,
  refl,
  v,
  elim (halted_or_not cpu.microstate) [
    | inl h ↦ inl h
    | inr n ↦ inr (settles 4 cpu (left-le cpu.microstate) n v)
  ],
)
ticks-Settled (suc n) cpu v =
    let (next, e, t) = tick-Ticked cpu v in
    let (last, runs, w, comes) = ticks-Settled n next t.well_formed in
    (last, bind_ok (tick cpu) next (ticks n) e ∙ runs, w, comes)
