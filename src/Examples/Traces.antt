-- ===== src/Examples/Traces.antt =====
-- The two programs of simulator/app/ on a file, and the reference trace's loop.
use bit_computer_system.Base.{
  none, false, ◌++◌, ℕ, ◌≡◌, refl, arith, some, List, [], ◌∷◌, ok, length, subst, sym, ap, ◌∙◌,
}
use bit_computer_system.Text.{codes}
use bit_computer_system.Host.{InputFile, Files, Process}
use bit_computer_system.Host.Commands.{by_default, Holds}
use bit_computer_system.Rom as Rom
use bit_computer_system.Isa.Execution.{execute}
use bit_computer_system.CpuCore.Phases.{machine_of}
use bit_computer_system.Simulator.{new_rom}
use bit_computer_system.Simulator.Images.{powered, AreBytes}
use bit_computer_system.Simulator.Program as Simulator
use bit_computer_system.Simulator.Program.Runs as SimulatorRuns
use bit_computer_system.Simulator.Program.Endings.{AreReadable, Ends, main-Ends}
use bit_computer_system.RefTrace.{trace_loop, Retire}
use bit_computer_system.RefTrace.Printing.{emit_all}
use bit_computer_system.RefTrace.Reading.{read_lines}
use bit_computer_system.RefTrace.Reading.RoundTrip.{read_lines-emit_all}
use bit_computer_system.RefTrace.Events.{events}
use bit_computer_system.RefTrace.Loop.{Traces, trace_loop-events}
use bit_computer_system.RefTrace.Program as RefTrace
use bit_computer_system.RefTrace.Program.Reports as RefTraceReports
use bit_computer_system.RefTrace.Program.Runs as RefTraceRuns
use bit_computer_system.RefTrace.Program.Readable.{main-read_lines}
use bit_computer_system.Examples.Machines.{start, start-IsSound}
use bit_computer_system.Examples.Programs.{image, image-AreBytes}

trace_loop-events_example :
    Traces (trace_loop 5 3 start) (events 3 0 (machine_of start)) (execute 3 0 (machine_of start))
trace_loop-events_example =
    trace_loop-events 5 3 start (omega arith) (omega arith) refl start-IsSound

-- One file for every name.
abbrev stored : InputFile
stored = record { size = some 8; content = some image }

abbrev disk : Files
disk filename = some stored

stored-Holds : Holds stored image
stored-Holds = record { sized = refl; brings = refl }

abbrev command : List (List ℕ)
command = codes "mini32" ∷ codes "a.bin" ∷ []

main-execute_example :
    (rom : Rom.Rom) × (Rom.load_bytes new_rom 0 image ≡ ok rom)
    × (Simulator.main 5 disk command ≡ ok (SimulatorRuns.report (execute 1000000 0 (powered rom))))
main-execute_example =
    SimulatorRuns.main-execute 5 1000000 disk command (codes "a.bin") image stored (omega arith)
      (by_default (codes "mini32") (codes "a.bin")) refl stored-Holds image-AreBytes (omega arith)
      refl

main-events_example :
    (rom : Rom.Rom) × (Rom.load_bytes new_rom 0 image ≡ ok rom)
    × (RefTrace.main 5 disk command
        ≡ ok (
            RefTraceReports.report
              (events 1000000 0 (powered rom))
              (execute 1000000 0 (powered rom))))
main-events_example =
    RefTraceRuns.main-events 5 1000000 disk command (codes "a.bin") image stored (omega arith)
      (by_default (codes "mini32") (codes "a.bin")) refl stored-Holds image-AreBytes (omega arith)
      refl

disk-AreReadable : AreReadable disk
disk-AreReadable filename input size bytes e s c =
    let held : some image ≡ some bytes = cc in
    let same : image ≡ bytes = cc in
    let sized : length image ≡ size = cc in
    (sym (ap length same) ∙ sized, subst AreBytes same image-AreBytes)

main-Ends_example : Ends (Simulator.main 5 disk command)
main-Ends_example =
    main-Ends 5 disk (codes "mini32") (codes "a.bin" ∷ []) (omega arith) disk-AreReadable

main-read_lines_example :
    (rom : Rom.Rom) × (p : Process) × (last : List ℕ) × (Rom.load_bytes new_rom 0 image ≡ ok rom)
    × (RefTrace.main 5 disk command ≡ ok p)
    × (read_lines (length (events 1000000 0 (powered rom))) p.output
        ≡ some (events 1000000 0 (powered rom), last))
main-read_lines_example =
    main-read_lines 5 1000000 disk command (codes "a.bin") image stored (omega arith)
      (by_default (codes "mini32") (codes "a.bin")) refl stored-Holds image-AreBytes (omega arith)
      refl

-- The records of ADDI r1, r0, 5 and HALT.
abbrev records : List Retire
records =
    record {
      index = 0;
      pc = 0;
      instruction = 0x24200005;
      next_pc = 4;
      register_write = some 1;
      register_value = 5;
      memory_write = false;
      memory_address = 0;
      memory_value = 0;
    }
    ∷ record {
      index = 1;
      pc = 4;
      instruction = 0x5c000000;
      next_pc = 8;
      register_write = none;
      register_value = 0;
      memory_write = false;
      memory_address = 0;
      memory_value = 0;
    }
    ∷ []

read_lines-emit_all_example :
    read_lines 2 (emit_all records ++ codes "end") ≡ some (records, codes "end")
read_lines-emit_all_example =
    read_lines-emit_all records (codes "end") (omega arith, (omega arith, tt))
