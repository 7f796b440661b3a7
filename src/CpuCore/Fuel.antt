-- ===== src/CpuCore/Fuel.antt =====
-- The fuel of the loop of `step` in simulator/src/cpu_core.cpp: more than enough changes nothing.
use bit_computer_system.Base.{
  ℕ, zero, suc, ◌≤◌, ◌≡◌, ◌∙◌, sym, arith, false, Result, ok, err, ◌>>=◌, Bool-cases, inl, inr,
  if_true, if_false, out_of_fuel,
}
use bit_computer_system.CpuCore.{CpuCore}
use bit_computer_system.CpuCore.Ticks.{tick}
use bit_computer_system.CpuCore.Steps.{is_running, step_loop}

bind_more :
    (r : Result CpuCore) (k k' : CpuCore → Result CpuCore) (cpu' : CpuCore)
    → ((cpu : CpuCore) → k cpu ≡ ok cpu' → k' cpu ≡ ok cpu')
    → (r >>= k) ≡ ok cpu'
    → (r >>= k') ≡ ok cpu'
bind_more (ok cpu) k k' cpu' h e = h cpu e
bind_more (err x) k k' cpu' h e = e

loop_now : (more n : ℕ) (cpu : CpuCore) → is_running n cpu ≡ false → step_loop more n cpu ≡ ok cpu
unfolding step_loop
loop_now zero n cpu r = if_false _ _ r
loop_now (suc more) n cpu r = if_false _ _ r

-- More fuel than enough changes nothing.
pub loop_more :
    (fuel more n : ℕ) (cpu cpu' : CpuCore)
    → fuel ≤ more
    → step_loop fuel n cpu ≡ ok cpu'
    → step_loop more n cpu ≡ ok cpu'
unfolding step_loop
loop_more zero more n cpu cpu' h e = elim (Bool-cases (is_running n cpu)) [
  | inl r ↦ let stuck : err out_of_fuel ≡ ok cpu' = sym (if_true _ _ r) ∙ e in cc
  | inr r ↦ loop_now more n cpu r ∙ sym (if_false _ _ r) ∙ e
]
loop_more (suc fuel) zero n cpu cpu' h e = absurd (omega arith)
loop_more (suc fuel) (suc more) n cpu cpu' h e = elim (Bool-cases (is_running n cpu)) [
  | inl r ↦
      if_true _ _ r
      ∙ bind_more (tick cpu) (step_loop fuel n) (step_loop more n) cpu'
          (λ (next : CpuCore). loop_more fuel more n next cpu' (omega arith))
          (sym (if_true _ _ r) ∙ e)
  | inr r ↦ if_false _ _ r ∙ sym (if_false _ _ r) ∙ e
]
