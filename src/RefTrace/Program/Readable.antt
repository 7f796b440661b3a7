-- ===== src/RefTrace/Program/Readable.antt =====
-- What simulator/app/ref_trace.cpp writes, to a reader of its lines.
use mathlib.Core.List.{append-nil}
use bit_computer_system.Base.{
  ℕ, zero, suc, ◌==◌, ◌^◌, ◌<◌, ◌≤◌, ◌≡◌, ◌∙◌, ◌%◌, sym, ap, subst, arith, Option, none, some, List,
  [], length, ok,
}
use bit_computer_system.Host.{InputFile, Files, Process}
use bit_computer_system.Host.Commands.{Asks, Holds}
use bit_computer_system.Memory.{size_bytes}
use bit_computer_system.Opcode.{Opcode}
use bit_computer_system.RegisterFile.{RegisterFile}
use bit_computer_system.Rom as Rom
use bit_computer_system.Decoder.{DecodedInstruction, decode}
use bit_computer_system.Isa.{Machine, Effect, continues, stops, faults, get, instruction}
use bit_computer_system.Isa.Soundness.{IsSound}
use bit_computer_system.Isa.Preservation.{Keeps, instruction-Keeps}
use bit_computer_system.Isa.Execution.{Ending, halts, fails, exceeds, execute}
use bit_computer_system.CpuCore.Effects.{get-lt}
use bit_computer_system.CpuCore.Stages.{either}
use bit_computer_system.Simulator.{new_rom}
use bit_computer_system.Simulator.Images.{AreBytes, powered, loaded-IsSound}
use bit_computer_system.RefTrace.{Retire, Change}
use bit_computer_system.RefTrace.Scan.{change_at, nothing}
use bit_computer_system.RefTrace.Events.{
  written_register, stored_word, record_of, noted, word_of, emits, events,
}
use bit_computer_system.RefTrace.Rounds.{word_of-lt}
use bit_computer_system.RefTrace.Printing.{emit_all}
use bit_computer_system.RefTrace.Reading.{read_lines}
use bit_computer_system.RefTrace.Reading.RoundTrip.{IsShort, AreAllShort, read_lines-emit_all}
use bit_computer_system.RefTrace.Program.{default_instruction_limit, main}
use bit_computer_system.RefTrace.Program.Reports.{report, report_of}
use bit_computer_system.RefTrace.Program.Runs.{main-events}

-- The address and the value of a store.
stored_word-lt :
    (m : Machine) (d : DecodedInstruction) (op : Opcode)
    → IsSound m
    → ((stored_word m d op).memory_address < 2 ^ 32) × ((stored_word m d op).memory_value < 2 ^ 32)
stored_word-lt m d Opcode.sw v = (omega arith, get-lt m.registers d.rs2 v.register_words)
stored_word-lt m d _ v = (omega arith, omega arith)

change_at-lt :
    (r r' : RegisterFile) (i : ℕ)
    → ((j : ℕ) → r'.registers j < 2 ^ 32)
    → (change_at r r' i).register_value < 2 ^ 32
change_at-lt r r' i v =
    either (λ (c : Change). c.register_value < 2 ^ 32) (get r' i == get r i) nothing _ (omega arith)
      (get-lt r' i v)

record_of-IsShort :
    (n : ℕ) (m m' : Machine) (d : DecodedInstruction)
    → IsSound m
    → IsSound m'
    → IsShort (record_of n m d m')
record_of-IsShort n m m' d v v' =
    let (address, value) = stored_word-lt m d d.opcode v in
    record {
      pc = v.pc_word;
      instruction = word_of-lt m v;
      next_pc = v'.pc_word;
      register_value =
          change_at-lt m.registers m'.registers (written_register d d.opcode) v'.register_words;
      memory_address = address;
      memory_value = value;
    }

noted-AreAllShort :
    (o : Option DecodedInstruction) (n : ℕ) (m m' : Machine) (rest : List Retire)
    → IsSound m
    → IsSound m'
    → AreAllShort rest
    → AreAllShort (noted o n m m' rest)
noted-AreAllShort none n m m' rest v v' short = short
noted-AreAllShort (some d) n m m' rest v v' short = (record_of-IsShort n m m' d v v', short)

emits-AreAllShort :
    (go_on : Machine → List Retire) (n : ℕ) (m : Machine) (effect : Effect)
    → ((m' : Machine) → IsSound m' → AreAllShort (go_on m'))
    → IsSound m
    → Keeps effect
    → AreAllShort (emits go_on n m effect)
emits-AreAllShort go_on n m (continues m') ih v k =
    noted-AreAllShort (decode (word_of m)).instruction n m m' (go_on m') v k (ih m' k)
emits-AreAllShort go_on n m (stops m') ih v k =
    noted-AreAllShort (decode (word_of m)).instruction n m m' [] v k tt
emits-AreAllShort go_on n m (faults code w a) ih v k = tt

events-AreAllShort : (left n : ℕ) (m : Machine) → IsSound m → AreAllShort (events left n m)
unfolding events
events-AreAllShort zero n m v = tt
events-AreAllShort (suc left) n m v =
    emits-AreAllShort (events left (suc n)) n m (instruction m) (events-AreAllShort left (suc n)) v
      (instruction-Keeps m v)

-- Behind the records there is the last line, or nothing.
report-read :
    (ending : Ending) (records : List Retire) (m : Machine) (n : ℕ)
    → AreAllShort records
    → (last : List ℕ) × (read_lines (length records) (report_of ending records m n).output
        ≡ some (records, last))
report-read halts records m n short = (_, read_lines-emit_all records _ short)
report-read (fails code w a) records m n short = (_, read_lines-emit_all records _ short)
report-read exceeds records m n short = (
  [],
  ap (read_lines (length records)) (sym (append-nil (emit_all records)))
      ∙ read_lines-emit_all records [] short,
)

-- With five ticks a step or more, a command line that asks for a limit and a file, and a file that
-- holds an image of bytes which fits in the ROM and is divisible into words, the reference trace
-- program returns, and from its output a reader of as many lines gets the records of the run by
-- the instruction set, in order.
pub main-read_lines :
    (ticks limit : ℕ) (files : Files) (argv : List (List ℕ)) (filename image : List ℕ)
    (input : InputFile)
    → 5 ≤ ticks
    → Asks default_instruction_limit argv limit filename
    → files filename ≡ some input
    → Holds input image
    → AreBytes image
    → length image ≤ size_bytes
    → length image % 4 ≡ 0
    → (rom : Rom.Rom) × (p : Process) × (last : List ℕ) × (Rom.load_bytes new_rom 0 image ≡ ok rom)
      × (main ticks files argv ≡ ok p)
      × (read_lines (length (events limit 0 (powered rom))) p.output
          ≡ some (events limit 0 (powered rom), last))
main-read_lines ticks limit files argv filename image input enough asks there holds v room words =
    let (rom, loads, runs) =
      main-events ticks limit files argv filename image input enough asks there holds v room
        words in
    let (rom', loads', sound) = loaded-IsSound image v room in
    let same : rom' ≡ rom = cc in
    let e = execute limit 0 (powered rom) in
    let (last, reads) = report-read e.ending (events limit 0 (powered rom)) e.machine e.retired (
      events-AreAllShort limit 0 (powered rom)
        (subst (λ (x : Rom.Rom). IsSound (powered x)) same sound)) in
    (rom, report (events limit 0 (powered rom)) e, last, loads, runs, reads)
