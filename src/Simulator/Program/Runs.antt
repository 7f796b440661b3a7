-- ===== src/Simulator/Program/Runs.antt =====
-- The program of simulator/app/main.cpp against the execution by the instruction set.
use bit_computer_system.Base.{
  bind_ok, ℕ, suc, ◌%◌, ◌^◌, ◌<◌, ◌≤◌, ◌≡◌, ◌∙◌, refl, ap, ap₂, arith, false, ◌&&◌, ◌!=◌, ltb,
  if_false, Option, none, some, List, [], ◌++◌, length, ok,
}
use bit_computer_system.Text.{codes, decimal, hex, size_max}
use bit_computer_system.Text.Numerals.{from_chars-decimal}
use bit_computer_system.Host.{InputFile, Files, Process, argument, same_text_refl}
use bit_computer_system.Host.Commands.{Asks, by_default, limited, Asks-lt, Holds, read_image}
use bit_computer_system.Memory.{size_bytes}
use bit_computer_system.Rom as Rom
use bit_computer_system.Isa.Execution.{Ending, halts, fails, exceeds, Execution, execute}
use bit_computer_system.CpuCore.{CpuCore, FaultInfo}
use bit_computer_system.CpuCore.Phases.{machine_of}
use bit_computer_system.Isa.{Machine}
use bit_computer_system.Simulator.{Exit, exit_code, new_rom, run_image}
use bit_computer_system.Simulator.Runs.{Reports, exit_of}
use bit_computer_system.Simulator.Images.{AreBytes, powered, run_image-execute}
use bit_computer_system.Simulator.Program.{
  default_instruction_limit, parse_limit, limit_asked, message, finish, fault_report, fault_name,
  print_hex, run, read_result, with_size, with_file, with_limit, main,
}

parse_limit-decimal : (n : ℕ) → n < 2 ^ 64 → parse_limit (decimal n) ≡ some n
unfolding parse_limit
parse_limit-decimal n h =
    rw (from_chars-decimal n h) (if_false {b = ltb size_max n} _ _ (ground arith))

asked :
    (argv : List (List ℕ)) (limit : ℕ) (filename : List ℕ)
    → Asks default_instruction_limit argv limit filename
    → (limit_asked argv ≡ ok (some limit))
      × ((length argv != 2 && length argv != 4) ≡ false)
      × (argument argv 1 ≡ ok filename)
unfolding limit_asked argument
asked _ _ _ (by_default program filename) = (refl, refl, refl)
asked _ _ _ (limited program filename n small) =
    (rw (same_text_refl (codes "--max-instructions"), parse_limit-decimal n small) refl, refl, refl)

abbrev address_line : Option ℕ → List ℕ
address_line none = []
address_line (some address) = codes "data address: 0x" ++ hex 8 address ++ codes "\n"

-- What the program writes of an execution.
abbrev pub words_of : Ending → Execution → List ℕ
words_of halts e = codes "CPU halted after " ++ decimal e.retired ++ codes " instructions\n"
words_of exceeds e =
    codes "instruction limit exceeded after " ++ decimal e.retired ++ codes " instructions\n"
words_of (fails code word data_address) e =
    codes "Mini32 fault: "
    ++ fault_name code
    ++ codes "\n"
    ++ (codes "PC: 0x" ++ hex 8 e.machine.pc ++ codes "\n")
    ++ (codes "instruction: 0x" ++ hex 8 word ++ codes "\n")
    ++ address_line data_address

abbrev pub code_of : Ending → ℕ
code_of halts = 0
code_of (fails code word data_address) = 1
code_of exceeds = 1

abbrev pub report : Execution → Process
report e = record {
  exit_code = code_of e.ending;
  output = e.machine.bus.uart.transmitted;
  diagnostics = words_of e.ending e;
}

-- What the program writes of a fault.
fault_report_lem :
    (fault : FaultInfo)
    → fault_report fault
      ≡ codes "Mini32 fault: "
        ++ fault_name fault.code
        ++ codes "\n"
        ++ (codes "PC: 0x" ++ hex 8 fault.pc ++ codes "\n")
        ++ (codes "instruction: 0x" ++ hex 8 fault.instruction ++ codes "\n")
        ++ address_line fault.data_address
unfolding fault_report print_hex
fault_report_lem fault = elim (fault.data_address) [ none ↦ refl | some address ↦ refl ]

finish_lem :
    (cpu : CpuCore) (ending : Ending) (m : Machine) (n : ℕ)
    → machine_of cpu ≡ m
    → cpu.retired_instructions ≡ n
    → Reports cpu ending
    → finish (exit_of ending) cpu ≡ report (record { ending = ending; machine = m; retired = n })
unfolding finish message exit_code
finish_lem cpu halts m n e c r =
    ap₂ (λ (x : Machine) (k : ℕ). report (record { ending = halts; machine = x; retired = k })) e c
finish_lem cpu exceeds m n e c r =
    ap₂ (λ (x : Machine) (k : ℕ). report (record { ending = exceeds; machine = x; retired = k })) e
      c
finish_lem cpu (fails code word address) m n e c (stuck, told) =
    ap
      (λ (text : List ℕ). record {
        exit_code = 1;
        output = cpu.bus.uart.transmitted;
        diagnostics = text;
      })
      (ap fault_report told
        ∙ fault_report_lem
            (record { code = code; pc = cpu.pc; instruction = word; data_address = address }))
    ∙ ap₂
        (λ (x : Machine) (k : ℕ).
          report (record { ending = fails code word address; machine = x; retired = k }))
        e c

pub run-report :
    (ticks rounds limit : ℕ) (image : List ℕ)
    → 5 ≤ ticks
    → limit < rounds
    → limit < 2 ^ 64
    → AreBytes image
    → length image ≤ size_bytes
    → (rom : Rom.Rom) × (Rom.load_bytes new_rom 0 image ≡ ok rom)
      × (run ticks rounds limit image ≡ ok (report (execute limit 0 (powered rom))))
unfolding run
run-report ticks rounds limit image enough more small v room =
    let (rom, cpu, loads, runs, agrees) =
      run_image-execute ticks rounds limit image enough more small v room in
    let e = execute limit 0 (powered rom) in
    (
      rom,
      loads,
      bind_ok (run_image ticks rounds limit image) (exit_of e.ending, cpu)
            (λ ((exit, last) : Exit × CpuCore). ok (finish exit last)) runs
          ∙ ap (λ (p : Process). ok p)
              (finish_lem cpu e.ending e.machine e.retired agrees.same_machine agrees.same_count
                agrees.reports),
    )

with_file_lem :
    (ticks rounds limit : ℕ) (filename image : List ℕ) (file : Option InputFile) (input : InputFile)
    → file ≡ some input
    → Holds input image
    → length image ≤ size_bytes
    → length image % 4 ≡ 0
    → with_file ticks rounds limit filename file ≡ run ticks rounds limit image
unfolding with_file with_size
with_file_lem ticks rounds limit filename image file input there holds room words =
    ap (with_file ticks rounds limit filename) there
    ∙ ap (with_size ticks rounds limit filename input) holds.sized
    ∙ if_false {b = ltb size_bytes (length image)} _ _ (ground arith)
    ∙ if_false {b = length image % 4 != 0} _ _ (ground arith)
    ∙ ap (read_result ticks rounds limit filename) (read_image input image holds)

main_lem :
    (ticks limit : ℕ) (files : Files) (argv : List (List ℕ)) (filename : List ℕ)
    → Asks default_instruction_limit argv limit filename
    → main ticks files argv ≡ with_file ticks (suc limit) limit filename (files filename)
unfolding main
main_lem ticks limit files argv filename asks =
    let (limited_to, counted, named) = asked argv limit filename asks in
    if_false _ _ counted
    ∙ bind_ok (limit_asked argv) (some limit) (with_limit suc ticks files argv) limited_to
    ∙ bind_ok (argument argv 1) filename
        (λ (name : List ℕ). with_file ticks (suc limit) limit name (files name)) named

-- With five ticks a step or more, a command line that asks for a limit and a file, and a file that
-- holds an image of bytes which fits in the ROM and is divisible into words, the simulator program
-- returns; its standard output is what the UART sent in the run by the instruction set, and its
-- exit code and messages are those of that run's ending.
pub main-execute :
    (ticks limit : ℕ) (files : Files) (argv : List (List ℕ)) (filename image : List ℕ)
    (input : InputFile)
    → 5 ≤ ticks
    → Asks default_instruction_limit argv limit filename
    → files filename ≡ some input
    → Holds input image
    → AreBytes image
    → length image ≤ size_bytes
    → length image % 4 ≡ 0
    → (rom : Rom.Rom) × (Rom.load_bytes new_rom 0 image ≡ ok rom)
      × (main ticks files argv ≡ ok (report (execute limit 0 (powered rom))))
main-execute ticks limit files argv filename image input enough asks there holds v room words =
    let small = Asks-lt default_instruction_limit argv limit filename (omega arith) asks in
    let (rom, loads, runs) =
      run-report ticks (suc limit) limit image enough (omega arith) small v room in
    (
      rom,
      loads,
      main_lem ticks limit files argv filename asks
          ∙ with_file_lem ticks (suc limit) limit filename image (files filename) input there holds
              room words
          ∙ runs,
    )
