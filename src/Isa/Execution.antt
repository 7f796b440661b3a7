-- ===== src/Isa/Execution.antt =====
-- Running a program by the instruction set alone: instruction after instruction, up to a limit.
use bit_computer_system.Base.{ℕ, zero, suc, Option}
use bit_computer_system.Isa.{Machine, Effect, continues, stops, faults, instruction}
use bit_computer_system.CpuCore.{CpuFault}

-- How a run ends: at HALT, at a fault, or with all the instructions that it may retire.
pub data Ending : Type 0 where
  halts : Ending
  fails : CpuFault → ℕ → Option ℕ → Ending
  exceeds : Ending

pub record Execution : Type 0 where
  pub ending : Ending
  pub machine : Machine
  pub retired : ℕ

-- What an effect comes to, when `go_on` is what the next machine comes to.
abbrev pub outcome : (Machine → Execution) → ℕ → Machine → Effect → Execution
outcome go_on retired m (continues m') = go_on m'
outcome go_on retired m (stops m') = record { ending = halts; machine = m'; retired = suc retired }
outcome go_on retired m (faults code word data_address) = record {
  ending = fails code word data_address;
  machine = m;
  retired = retired;
}

-- After `retired` instructions, with `left` more allowed.
unfoldable pub execute : ℕ → ℕ → Machine → Execution
execute zero retired m = record { ending = exceeds; machine = m; retired = retired }
execute (suc left) retired m = outcome (execute left (suc retired)) retired m (instruction m)
