-- ===== src/RefTrace/Program.antt =====
-- The program of simulator/app/ref_trace.cpp: arguments, the image, and what is written.
pub mod Reports
pub mod Runs
pub mod Readable
use bit_computer_system.Base.{
  ℕ, zero, suc, ◌+◌, ◌-◌, ◌%◌, ◌^◌, Bool, true, false, not, ◌||◌, ◌&&◌, ltb, ◌==◌, ◌!=◌,
  if◌then◌else◌, Option, none, some, List, [], ◌∷◌, ◌++◌, length, Result, ok, ◌>>=◌,
}
use bit_computer_system.Text.{codes, from_chars, FromChars, is_fine, is_empty, size_max}
use bit_computer_system.Host.{InputFile, Files, Process, argument, same_text}
use bit_computer_system.Memory.{size_bytes}
use bit_computer_system.Rom as Rom
use bit_computer_system.CpuCore.{CpuCore, cpu_core}
use bit_computer_system.CpuCore.Steps.{is_halted, is_fault}
use bit_computer_system.Simulator.{new_bus, new_rom}
use bit_computer_system.RefTrace.{Retire, Traced, trace_loop}
use bit_computer_system.RefTrace.Printing.{emit_all, final_line}

abbrev pub default_instruction_limit : ℕ
default_instruction_limit = 1000000

unfoldable pub usage : List ℕ → List ℕ
usage executable = codes "Usage: " ++ executable ++ codes " <rom-image> [--max-instructions N]\n"

-- The limit that is stored, when it returns true.
unfoldable pub parse_limit : List ℕ → Option ℕ
parse_limit text =
    let r = from_chars text in
    if not (is_fine r.error) || not (is_empty r.rest) || ltb size_max r.parsed
    then none
    else some r.parsed

-- The image, once the size of the file is there.
unfoldable pub image_of_size : ℕ → InputFile → Option (List ℕ)
image_of_size size input =
    if ltb size_bytes size || size % 4 != 0
    then none
    else if size == 0
    then some []
    else input.content

abbrev pub image_of_known : InputFile → Option ℕ → Option (List ℕ)
image_of_known input none = none
image_of_known input (some size) = image_of_size size input

abbrev pub image_of_file : Option InputFile → Option (List ℕ)
image_of_file none = none
image_of_file (some input) = image_of_known input input.size

unfoldable pub load_image : Files → List ℕ → Option (List ℕ)
unfolding image_of_size
load_image files filename = image_of_file (files filename)

abbrev pub failure : ℕ → List ℕ → List ℕ → Process
failure code output diagnostics = record {
  exit_code = code;
  output = output;
  diagnostics = diagnostics;
}

-- The end of `main`, once the loop is left.
unfoldable pub finish : Traced → Process
finish t =
    let lines = emit_all t.records in
    if t.failed
    then failure 3 lines
        (codes "reference trace error: one instruction changed multiple registers\n")
    else if not (is_halted t.cpu.microstate) && not (is_fault t.cpu.microstate)
    then failure 3 lines (codes "reference trace instruction limit reached\n")
    else record { exit_code = 0; output = lines ++ final_line t.cpu; diagnostics = [] }

-- The objects and the loop.
unfoldable pub trace : ℕ → ℕ → List ℕ → Result Process
trace ticks limit image = do
  rom ← Rom.load_bytes new_rom 0 image
  t ← trace_loop ticks limit (cpu_core (new_bus rom))
  ok (finish t)

-- The limit that the arguments ask for, nothing when they are wrong.
unfoldable pub limit_asked : List (List ℕ) → Result (Option ℕ)
limit_asked argv =
    if length argv == 4
    then (do
      option ← argument argv 2
      text ← argument argv 3
      ok (if not (same_text option (codes "--max-instructions")) then none else parse_limit text))
    else ok (some default_instruction_limit)

abbrev pub wrong_usage : List (List ℕ) → Result Process
wrong_usage argv = do executable ← argument argv 0; ok (failure 2 [] (usage executable))

abbrev pub with_image : ℕ → ℕ → Option (List ℕ) → Result Process
with_image ticks limit none =
    ok (failure 2 [] (codes "ROM image must exist, be <= 65536 bytes, and contain whole words\n"))
with_image ticks limit (some image) = trace ticks limit image

abbrev pub with_limit : ℕ → Files → List (List ℕ) → Option ℕ → Result Process
with_limit ticks files argv none = wrong_usage argv
with_limit ticks files argv (some limit) = do
  filename ← argument argv 1
  with_image ticks limit (load_image files filename)

-- The program; each step of the processor has `ticks` ticks.
unfoldable pub main : ℕ → Files → List (List ℕ) → Result Process
main ticks files argv =
    if length argv != 2 && length argv != 4
    then wrong_usage argv
    else do limit ← limit_asked argv; with_limit ticks files argv limit
