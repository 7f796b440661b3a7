-- ===== src/CpuCore/Steps.antt =====
-- One instruction: `CpuCore::step` of simulator/src/cpu_core.cpp.
use bit_computer_system.Base.{
  ℕ, zero, suc, Bool, true, false, not, ◌&&◌, ◌==◌, if◌then◌else◌, Result, ok, err, out_of_fuel,
  ◌>>=◌,
}
use bit_computer_system.CpuCore.{Microstate, CpuCore}
use bit_computer_system.CpuCore.Ticks.{tick}

pub data StepResult : Type 0 where
  retired halted faulted : StepResult

abbrev pub is_halted : Microstate → Bool
is_halted Microstate.halted = true
is_halted _ = false

abbrev pub is_fault : Microstate → Bool
is_fault Microstate.fault = true
is_fault _ = false

-- The condition of the loop.
abbrev pub is_running : ℕ → CpuCore → Bool
is_running retired_before cpu =
    not (is_halted cpu.microstate)
    && (not (is_fault cpu.microstate) && cpu.retired_instructions == retired_before)

-- The loop, cut off after a number of ticks.
unfoldable pub step_loop : ℕ → ℕ → CpuCore → Result CpuCore
step_loop zero retired_before cpu =
    if is_running retired_before cpu then err out_of_fuel else ok cpu
step_loop (suc fuel) retired_before cpu =
    let rest = tick cpu >>= step_loop fuel retired_before in
    if is_running retired_before cpu then rest else ok cpu

abbrev pub step_result : Microstate → StepResult
step_result Microstate.fault = faulted
step_result Microstate.halted = halted
step_result _ = retired

unfoldable pub step : ℕ → CpuCore → Result (StepResult × CpuCore)
step fuel cpu =
    if is_halted cpu.microstate
    then ok (halted, cpu)
    else if is_fault cpu.microstate
    then ok (faulted, cpu)
    else do
      cpu' ← step_loop fuel cpu.retired_instructions cpu
      ok (step_result cpu'.microstate, cpu')
