-- ===== src/Examples/Ticks.antt =====
-- Ticks of a processor that starts.
use bit_computer_system.Base.{◌≡◌, ◌⊎◌, arith, ok, Returns}
use bit_computer_system.CpuCore.{CpuCore, Microstate, cpu_core}
use bit_computer_system.CpuCore.Ticks.{tick}
use bit_computer_system.CpuCore.Stages.{IsWellFormed, Ticked, cpu_core-IsWellFormed}
use bit_computer_system.CpuCore.Invariant.{tick-Ticked}
use bit_computer_system.CpuCore.Liveness.{ticks, SettlesWithin, ticks-Settled}
use bit_computer_system.Examples.Machines.{small_bus, start, start-IsSound}

start-IsWellFormed : IsWellFormed start
start-IsWellFormed = record { sound = start-IsSound; words = omega arith; stage = tt }

tick-Ticked_example : Returns (Ticked Microstate.fetch 0) (tick start)
tick-Ticked_example = tick-Ticked start start-IsWellFormed

ticks-Settled_example :
    (cpu' : CpuCore) × (ticks 2 (cpu_core small_bus) ≡ ok cpu')
    × IsWellFormed cpu'
    × ((cpu'.microstate ≡ Microstate.halted) ⊎ SettlesWithin 5 cpu')
ticks-Settled_example =
    ticks-Settled 2 (cpu_core small_bus) (cpu_core-IsWellFormed small_bus start-IsSound.bus_words)
