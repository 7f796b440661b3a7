-- ===== src/Simulator/Program.antt =====
-- The program of simulator/app/main.cpp: arguments, the image, and what is written.
pub mod Runs
pub mod Endings
use bit_computer_system.Base.{
  ℕ, zero, suc, ◌-◌, ◌%◌, ◌^◌, Bool, true, false, not, ◌||◌, ◌&&◌, ltb, ◌==◌, ◌!=◌, if◌then◌else◌,
  Option, none, some, List, [], ◌∷◌, ◌++◌, length, Result, ok, ◌>>=◌,
}
use bit_computer_system.Text.{
  codes, decimal, hex, from_chars, FromChars, is_fine, is_empty, size_max,
}
use bit_computer_system.Host.{InputFile, Files, Process, argument, same_text}
use bit_computer_system.Memory.{size_bytes}
use bit_computer_system.CpuCore.{CpuCore, CpuFault, FaultInfo}
use bit_computer_system.Simulator.{
  Exit, limit_exceeded, cpu_halted, cpu_faulted, exit_code, run_image,
}

abbrev pub default_instruction_limit : ℕ
default_instruction_limit = 1000000

unfoldable pub print_usage : List ℕ → List ℕ
print_usage executable =
    codes "Usage: " ++ executable ++ codes " <rom-image> [--max-instructions N]\n"

-- The limit that is stored, when it returns true.
unfoldable pub parse_limit : List ℕ → Option ℕ
parse_limit text =
    let r = from_chars text in
    if not (is_fine r.error) || not (is_empty r.rest) || ltb size_max r.parsed
    then none
    else some r.parsed

unfoldable pub fault_name : CpuFault → List ℕ
fault_name CpuFault.none = codes "None"
fault_name CpuFault.misaligned_instruction_fetch = codes "MisalignedInstructionFetch"
fault_name CpuFault.unmapped_instruction_fetch = codes "UnmappedInstructionFetch"
fault_name CpuFault.non_executable_instruction_fetch = codes "NonExecutableInstructionFetch"
fault_name CpuFault.illegal_instruction = codes "IllegalInstruction"
fault_name CpuFault.malformed_instruction = codes "MalformedInstruction"
fault_name CpuFault.unsupported_instruction = codes "UnsupportedInstruction"
fault_name CpuFault.misaligned_load = codes "MisalignedLoad"
fault_name CpuFault.misaligned_store = codes "MisalignedStore"
fault_name CpuFault.unmapped_load = codes "UnmappedLoad"
fault_name CpuFault.unmapped_store = codes "UnmappedStore"
fault_name CpuFault.read_only_store = codes "ReadOnlyStore"

unfoldable pub print_hex : List ℕ → ℕ → List ℕ
print_hex label value = label ++ codes "0x" ++ hex 8 value ++ codes "\n"

abbrev pub print_address : Option ℕ → List ℕ
unfolding print_hex
print_address none = []
print_address (some address) = print_hex (codes "data address: ") address

-- What is written of a fault.
unfoldable pub fault_report : FaultInfo → List ℕ
unfolding fault_name print_hex
fault_report fault =
    codes "Mini32 fault: "
    ++ fault_name fault.code
    ++ codes "\n"
    ++ print_hex (codes "PC: ") fault.pc
    ++ print_hex (codes "instruction: ") fault.instruction
    ++ print_address fault.data_address

-- The message of a run.
unfoldable pub message : Exit → CpuCore → List ℕ
unfolding fault_report
message limit_exceeded cpu =
    codes "instruction limit exceeded after "
    ++ decimal cpu.retired_instructions
    ++ codes " instructions\n"
message cpu_halted cpu =
    codes "CPU halted after " ++ decimal cpu.retired_instructions ++ codes " instructions\n"
message cpu_faulted cpu = fault_report cpu.fault_info

abbrev pub rejected : List ℕ → Result Process
rejected message = ok (record { exit_code = 2; output = []; diagnostics = message })

-- The end of `main`: the transmitter has written to the standard output.
unfoldable pub finish : Exit → CpuCore → Process
unfolding message exit_code
finish exit cpu = record {
  exit_code = exit_code exit;
  output = cpu.bus.uart.transmitted;
  diagnostics = message exit cpu;
}

unfoldable pub run : ℕ → ℕ → ℕ → List ℕ → Result Process
run ticks rounds limit image = do
  (exit, cpu) ← run_image ticks rounds limit image
  ok (finish exit cpu)

abbrev pub read_result : ℕ → ℕ → ℕ → List ℕ → Option (List ℕ) → Result Process
read_result ticks rounds limit filename none =
    rejected (codes "unable to read ROM image: " ++ filename ++ codes "\n")
read_result ticks rounds limit filename (some image) = run ticks rounds limit image

abbrev pub too_large : List ℕ
too_large = codes "ROM image must be at most " ++ decimal size_bytes ++ codes " bytes\n"

-- From the size of the file on.
unfoldable pub with_size : ℕ → ℕ → ℕ → List ℕ → InputFile → Option ℕ → Result Process
with_size ticks rounds limit filename input none = rejected too_large
with_size ticks rounds limit filename input (some size) =
    if ltb size_bytes size
    then rejected too_large
    else if size % 4 != 0
    then rejected (codes "ROM image size must be divisible by 4 bytes\n")
    else read_result ticks rounds limit filename (if size == 0 then some [] else input.content)

unfoldable pub with_file : ℕ → ℕ → ℕ → List ℕ → Option InputFile → Result Process
unfolding with_size
with_file ticks rounds limit filename none =
    rejected (codes "unable to open ROM image: " ++ filename ++ codes "\n")
with_file ticks rounds limit filename (some input) =
    with_size ticks rounds limit filename input input.size

-- The limit that the arguments ask for, nothing when they are wrong.
unfoldable pub limit_asked : List (List ℕ) → Result (Option ℕ)
limit_asked argv =
    if length argv == 4
    then (do
      option ← argument argv 2
      text ← argument argv 3
      ok (if not (same_text option (codes "--max-instructions")) then none else parse_limit text))
    else ok (some default_instruction_limit)

abbrev pub wrong_usage : List (List ℕ) → Result Process
wrong_usage argv = do executable ← argument argv 0; rejected (print_usage executable)

abbrev pub with_limit : (ℕ → ℕ) → ℕ → Files → List (List ℕ) → Option ℕ → Result Process
with_limit rounds ticks files argv none = wrong_usage argv
with_limit rounds ticks files argv (some limit) = do
  filename ← argument argv 1
  with_file ticks (rounds limit) limit filename (files filename)

-- The program on a host whose standard output takes every byte; each step of the processor has
-- `ticks` ticks, and the loop has one round more than instructions allowed.
unfoldable pub main : ℕ → Files → List (List ℕ) → Result Process
main ticks files argv =
    if length argv != 2 && length argv != 4
    then wrong_usage argv
    else do limit ← limit_asked argv; with_limit suc ticks files argv limit
