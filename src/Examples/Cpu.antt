-- ===== src/Examples/Cpu.antt =====
-- One instruction of the processor of simulator/src/cpu_core.cpp.
use bit_computer_system.Base.{◌≡◌, arith, ok}
use bit_computer_system.Isa.{instruction}
use bit_computer_system.CpuCore.{CpuCore}
use bit_computer_system.CpuCore.Steps.{step}
use bit_computer_system.CpuCore.Phases.{machine_of, observe}
use bit_computer_system.CpuCore.Effects.{shows}
use bit_computer_system.CpuCore.Refinement.{answer, step-instruction}
use bit_computer_system.Examples.Machines.{start, start-IsReady}

step-instruction_example :
    (cpu' : CpuCore) × (step 5 start ≡ ok (answer (instruction (machine_of start)), cpu'))
    × (observe cpu' ≡ shows start (instruction (machine_of start)))
step-instruction_example = step-instruction start start-IsReady 5 (omega arith)
