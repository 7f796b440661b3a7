-- ===== src/Simulator.antt =====
-- The simulator's program: the run loop of simulator/app/main.cpp.
pub mod Runs
pub mod Images
pub mod Program
use bit_computer_system.Base.{
  ℕ, zero, suc, Bool, true, false, if◌then◌else◌, leb, ◌||◌, ltb, ◌%◌, ◌!=◌, length, none, some,
  Option, Result, ok, err, out_of_fuel, ◌>>=◌, List,
}
use bit_computer_system.Rom as Rom
use bit_computer_system.Ram as Ram
use bit_computer_system.Uart as Uart
use bit_computer_system.Timer as Timer
use bit_computer_system.Gpio as Gpio
use bit_computer_system.DebugDevice as DebugDevice
use bit_computer_system.Bus.{Bus}
use bit_computer_system.Memory.{size_bytes}
use bit_computer_system.CpuCore.{CpuCore, cpu_core}
use bit_computer_system.CpuCore.Steps.{StepResult, is_halted, is_fault, step}

-- The messages about the run that `main` ends in.
pub data Exit : Type 0 where
  limit_exceeded cpu_halted cpu_faulted : Exit

unfoldable pub exit_code : Exit → ℕ
exit_code limit_exceeded = 1
exit_code cpu_halted = 0
exit_code cpu_faulted = 1

abbrev pub is_step_halted : StepResult → Bool
is_step_halted StepResult.halted = true
is_step_halted StepResult.retired = false
is_step_halted StepResult.faulted = false

-- The while loop, cut off after a number of rounds; each `step` has `ticks` ticks.
unfoldable pub run_loop : ℕ → ℕ → ℕ → CpuCore → Result (Exit × CpuCore)
run_loop ticks zero instruction_limit cpu =
    if is_halted cpu.microstate || is_fault cpu.microstate
    then ok (cpu_faulted, cpu)
    else err out_of_fuel
run_loop ticks (suc rounds) instruction_limit cpu =
    let next = (do
      (result, cpu') ← step ticks cpu
      let rest = run_loop ticks rounds instruction_limit cpu'
      if is_step_halted result then ok (cpu_halted, cpu') else rest) in
    if is_halted cpu.microstate || is_fault cpu.microstate
    then ok (cpu_faulted, cpu)
    else if leb instruction_limit cpu.retired_instructions
    then ok (limit_exceeded, cpu)
    else next

-- The objects that `main` builds around a loaded ROM; the UART writes to the standard output.
abbrev pub new_bus : Rom.Rom → Bus
new_bus rom = record {
  rom = rom;
  ram = record { bytes = λ _. 0 };
  uart = Uart.uart true;
  debug = record { value = 0 };
  timer = record { counter = 0; compare = 0; enabled = false };
  gpio = record { input = 0; output = 0; direction = 0 };
}

abbrev pub new_rom : Rom.Rom
new_rom = record { bytes = λ _. 0 }

-- From an image that is accepted on.
unfoldable pub run_image : ℕ → ℕ → ℕ → List ℕ → Result (Exit × CpuCore)
run_image ticks rounds instruction_limit image = do
  rom ← Rom.load_bytes new_rom 0 image
  run_loop ticks rounds instruction_limit (cpu_core (new_bus rom))
