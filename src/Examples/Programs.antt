-- ===== src/Examples/Programs.antt =====
-- Whole programs on the simulator of simulator/app/main.cpp.
use bit_computer_system.Base.{refl, ℕ, ◌<◌, arith, refl, List, [], ◌∷◌, zero, suc}
use bit_computer_system.Isa.Execution.{execute}
use bit_computer_system.CpuCore.Phases.{machine_of}
use bit_computer_system.Simulator.{run_loop}
use bit_computer_system.Simulator.Runs.{Comes, run_loop-execute}
use bit_computer_system.Simulator.Images.{AreBytes}
use bit_computer_system.Examples.Machines.{start, start-IsSound}

run_loop-execute_example : Comes (run_loop 5 9 3 start) (execute 3 0 (machine_of start))
run_loop-execute_example =
    run_loop-execute 5 9 3 3 start (omega arith) (omega arith) refl (omega arith) refl start-IsSound

-- ADDI r1, r0, 5 and HALT.
abbrev pub image : List ℕ
image = 0x05 ∷ 0x00 ∷ 0x20 ∷ 0x24 ∷ 0x00 ∷ 0x00 ∷ 0x00 ∷ 0x5c ∷ []

byte-AreBytes : (x : ℕ) (xs : List ℕ) → x < 256 → AreBytes xs → AreBytes (x ∷ xs)
byte-AreBytes x xs small rest zero b h = ground arith
byte-AreBytes x xs small rest (suc i) b h = rest i b h

pub image-AreBytes : AreBytes image
image-AreBytes =
    byte-AreBytes 0x05 (0x00 ∷ 0x20 ∷ 0x24 ∷ 0x00 ∷ 0x00 ∷ 0x00 ∷ 0x5c ∷ []) (omega arith) (
      byte-AreBytes 0x00 (0x20 ∷ 0x24 ∷ 0x00 ∷ 0x00 ∷ 0x00 ∷ 0x5c ∷ []) (omega arith) (
        byte-AreBytes 0x20 (0x24 ∷ 0x00 ∷ 0x00 ∷ 0x00 ∷ 0x5c ∷ []) (omega arith) (
          byte-AreBytes 0x24 (0x00 ∷ 0x00 ∷ 0x00 ∷ 0x5c ∷ []) (omega arith) (
            byte-AreBytes 0x00 (0x00 ∷ 0x00 ∷ 0x5c ∷ []) (omega arith) (
              byte-AreBytes 0x00 (0x00 ∷ 0x5c ∷ []) (omega arith) (
                byte-AreBytes 0x00 (0x5c ∷ []) (omega arith)
                  (byte-AreBytes 0x5c [] (omega arith) (λ i b h. cc))))))))
