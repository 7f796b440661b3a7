-- ===== src/RefTrace/Program/Runs.antt =====
-- The program of simulator/app/ref_trace.cpp against the records and the run by the instruction set.
use bit_computer_system.Base.{
  ℕ, ◌%◌, ◌^◌, ◌<◌, ◌≤◌, ◌≡◌, ◌∙◌, refl, ap, arith, false, ◌&&◌, ◌||◌, ◌!=◌, ltb, if_false, some,
  List, length, ok, ◌>>=◌, bind_ok,
}
use bit_computer_system.Text.{codes, decimal, size_max}
use bit_computer_system.Text.Numerals.{from_chars-decimal}
use bit_computer_system.Host.{InputFile, Files, Process, argument, same_text_refl}
use bit_computer_system.Host.Commands.{Asks, by_default, limited, Asks-lt, Holds, read_image}
use bit_computer_system.Memory.{size_bytes}
use bit_computer_system.Uart as Uart
use bit_computer_system.Rom as Rom
use bit_computer_system.RegisterFile as RegisterFile
use bit_computer_system.Isa.Execution.{execute}
use bit_computer_system.CpuCore.{cpu_core}
use bit_computer_system.Simulator.{new_bus, new_rom}
use bit_computer_system.Simulator.Images.{AreBytes, powered, loaded-IsSound}
use bit_computer_system.RefTrace.{Retire, Traced, trace_loop}
use bit_computer_system.RefTrace.Events.{events}
use bit_computer_system.RefTrace.Loop.{trace_loop-events}
use bit_computer_system.RefTrace.Program.Reports.{report, finish_lem}
use bit_computer_system.RefTrace.Program.{
  default_instruction_limit, parse_limit, limit_asked, load_image, finish, trace, image_of_known,
  image_of_file, image_of_size, with_limit, with_image, main,
}

parse_limit-decimal : (n : ℕ) → n < 2 ^ 64 → parse_limit (decimal n) ≡ some n
unfolding parse_limit
parse_limit-decimal n h =
    rw (from_chars-decimal n h) (if_false {b = ltb size_max n} _ _ (ground arith))

asked :
    (argv : List (List ℕ)) (limit : ℕ) (filename : List ℕ)
    → Asks default_instruction_limit argv limit filename
    → (limit_asked argv ≡ ok (some limit))
      × ((length argv != 2 && length argv != 4) ≡ false)
      × (argument argv 1 ≡ ok filename)
unfolding limit_asked argument
asked _ _ _ (by_default program filename) = (refl, refl, refl)
asked _ _ _ (limited program filename n small) =
    (rw (same_text_refl (codes "--max-instructions"), parse_limit-decimal n small) refl, refl, refl)

trace-report :
    (ticks limit : ℕ) (image : List ℕ)
    → 5 ≤ ticks
    → limit < 2 ^ 64
    → AreBytes image
    → length image ≤ size_bytes
    → (rom : Rom.Rom) × (Rom.load_bytes new_rom 0 image ≡ ok rom)
      × (trace ticks limit image
          ≡ ok (report (events limit 0 (powered rom)) (execute limit 0 (powered rom))))
unfolding trace cpu_core RegisterFile.reset Uart.uart
trace-report ticks limit image enough small v room =
    let (rom, loads, sound) = loaded-IsSound image v room in
    let start = cpu_core (new_bus rom) in
    let e = execute limit 0 (powered rom) in
    let (t, runs, records, fine, agrees) =
      trace_loop-events ticks limit start enough (omega arith) refl sound in
    (
      rom,
      loads,
      bind_ok (Rom.load_bytes new_rom 0 image) rom
            (λ (r : Rom.Rom). trace_loop ticks limit (cpu_core (new_bus r)) >>= λ x. ok (finish x))
            loads
          ∙ bind_ok (trace_loop ticks limit start) t (λ (x : Traced). ok (finish x)) runs
          ∙ ap (λ (p : Process). ok p)
              (finish_lem t e.ending e.machine e.retired fine agrees.same_machine agrees.same_count
                  agrees.reports
                ∙ ap (λ (l : List Retire). report l e) records),
    )

image_lem :
    (files : Files) (filename image : List ℕ) (input : InputFile)
    → files filename ≡ some input
    → Holds input image
    → length image ≤ size_bytes
    → length image % 4 ≡ 0
    → load_image files filename ≡ some image
unfolding load_image image_of_size
image_lem files filename image input there holds room words =
    ap image_of_file there
    ∙ ap (image_of_known input) holds.sized
    ∙ if_false {b = ltb size_bytes (length image) || length image % 4 != 0} _ _ (ground arith)
    ∙ read_image input image holds

main_lem :
    (ticks limit : ℕ) (files : Files) (argv : List (List ℕ)) (filename : List ℕ)
    → Asks default_instruction_limit argv limit filename
    → main ticks files argv ≡ with_image ticks limit (load_image files filename)
unfolding main
main_lem ticks limit files argv filename asks =
    let (limited_to, counted, named) = asked argv limit filename asks in
    if_false _ _ counted
    ∙ bind_ok (limit_asked argv) (some limit) (with_limit ticks files argv) limited_to
    ∙ bind_ok (argument argv 1) filename
        (λ (name : List ℕ). with_image ticks limit (load_image files name)) named

-- With five ticks a step or more, a command line that asks for a limit and a file, and a file that
-- holds an image of bytes which fits in the ROM and is divisible into words, the reference trace
-- program returns; its output is the printed records of the run by the instruction set, in order,
-- and unless the limit was reached the last line with the ending, machine and retired count of
-- that run; the exit code is 3 and a message is written if the limit was reached, and 0 otherwise.
pub main-events :
    (ticks limit : ℕ) (files : Files) (argv : List (List ℕ)) (filename image : List ℕ)
    (input : InputFile)
    → 5 ≤ ticks
    → Asks default_instruction_limit argv limit filename
    → files filename ≡ some input
    → Holds input image
    → AreBytes image
    → length image ≤ size_bytes
    → length image % 4 ≡ 0
    → (rom : Rom.Rom) × (Rom.load_bytes new_rom 0 image ≡ ok rom)
      × (main ticks files argv
          ≡ ok (report (events limit 0 (powered rom)) (execute limit 0 (powered rom))))
main-events ticks limit files argv filename image input enough asks there holds v room words =
    let small = Asks-lt default_instruction_limit argv limit filename (omega arith) asks in
    let (rom, loads, runs) = trace-report ticks limit image enough small v room in
    (
      rom,
      loads,
      main_lem ticks limit files argv filename asks
          ∙ ap (with_image ticks limit)
              (image_lem files filename image input there holds room words)
          ∙ runs,
    )
