-- ===== src/RefTrace/Program/Reports.antt =====
-- What simulator/app/ref_trace.cpp is to write of a run, and that its end writes that.
use bit_computer_system.Base.{
  ℕ, ◌≡◌, ◌∙◌, refl, ap, ap₂, true, false, not, ◌&&◌, if◌then◌else◌, if_false, Option, List, [],
  ◌++◌,
}
use mathlib.Core.List.{append-nil}
use bit_computer_system.Text.{codes, decimal, hex}
use bit_computer_system.Host.{Process}
use bit_computer_system.Isa.{Machine}
use bit_computer_system.Isa.Execution.{Ending, halts, fails, exceeds, Execution}
use bit_computer_system.CpuCore.{CpuCore, CpuFault, FaultInfo, Microstate}
use bit_computer_system.CpuCore.Steps.{is_halted, is_fault}
use bit_computer_system.CpuCore.Phases.{machine_of}
use bit_computer_system.Simulator.Runs.{Reports}
use bit_computer_system.RefTrace.{Retire, has_value, Traced}
use bit_computer_system.RefTrace.Printing.{
  emit_all, final_line, final_fields, fault_fields, fault_name, hex32, hex_bytes, truth, value_or,
}
use bit_computer_system.RefTrace.Program.{finish, failure}

-- The last line up to what it says of a fault: each value of the machine in its field.
abbrev last_text : List ℕ → Machine → ℕ → List ℕ
last_text status m n =
    codes "{\"type\":\"final\",\"status\":\""
    ++ status
    ++ codes "\",\"pc\":\""
    ++ hex 8 m.pc
    ++ codes "\",\"retired\":"
    ++ decimal n
    ++ codes ",\"uart_tx\":\""
    ++ hex_bytes m.bus.uart.transmitted
    ++ codes "\",\"debug_value\":\""
    ++ hex 8 m.bus.debug.value
    ++ codes "\",\"gpio_output\":\""
    ++ hex 8 m.bus.gpio.output
    ++ codes "\",\"gpio_direction\":\""
    ++ hex 8 m.bus.gpio.direction
    ++ codes "\",\"timer_counter\":\""
    ++ hex 8 m.bus.timer.counter
    ++ codes "\",\"timer_compare\":\""
    ++ hex 8 m.bus.timer.compare
    ++ codes "\",\"timer_control\":\""
    ++ hex 8 (if m.bus.timer.enabled then 1 else 0)
    ++ codes "\""

-- The last line of a run that halts, and of one that faults.
abbrev pub halted_line : Machine → ℕ → List ℕ
halted_line m n = last_text (codes "halted") m n ++ codes "}\n"

abbrev pub faulted_line : CpuFault → ℕ → Option ℕ → Machine → ℕ → List ℕ
faulted_line code word data_address m n =
    last_text (codes "faulted") m n
    ++ (codes ",\"fault\":\""
        ++ fault_name code
        ++ codes "\",\"fault_pc\":\""
        ++ hex 8 m.pc
        ++ codes "\",\"fault_instruction\":\""
        ++ hex 8 word
        ++ codes "\",\"fault_address_valid\":"
        ++ truth (has_value data_address)
        ++ codes ",\"fault_address\":\""
        ++ hex 8 (value_or 0 data_address)
        ++ codes "\"")
    ++ codes "}\n"

halted_fields :
    (m : Machine) (n : ℕ) (fault : FaultInfo)
    → final_fields true false m.pc n m.bus fault ≡ halted_line m n
unfolding final_fields hex32
halted_fields m n fault =
    ap (λ (x : List ℕ). x ++ codes "}\n") (append-nil (last_text (codes "halted") m n))

faulted_fields :
    (code : CpuFault) (word : ℕ) (data_address : Option ℕ) (m : Machine) (n : ℕ)
    → final_fields false true m.pc n m.bus
        (record { code = code; pc = m.pc; instruction = word; data_address = data_address })
      ≡ faulted_line code word data_address m n
unfolding final_fields fault_fields hex32
faulted_fields code word data_address m n = refl

-- What the program writes of the records and of the ending.
abbrev pub report_of : Ending → List Retire → Machine → ℕ → Process
report_of halts records m n = record {
  exit_code = 0;
  output = emit_all records ++ halted_line m n;
  diagnostics = [];
}
report_of (fails code word data_address) records m n = record {
  exit_code = 0;
  output = emit_all records ++ faulted_line code word data_address m n;
  diagnostics = [];
}
report_of exceeds records m n = record {
  exit_code = 3;
  output = emit_all records;
  diagnostics = codes "reference trace instruction limit reached\n";
}

abbrev pub report : List Retire → Execution → Process
report records e = report_of e.ending records e.machine e.retired

-- The last line by a microstate that is known.
line_at :
    (cpu : CpuCore) (s : Microstate)
    → cpu.microstate ≡ s
    → final_line cpu
      ≡ final_fields
          (is_halted s)
          (is_fault s)
          cpu.pc
          cpu.retired_instructions
          cpu.bus
          cpu.fault_info
unfolding final_line
line_at cpu s e =
    ap
      (λ (x : Microstate).
        final_fields (is_halted x) (is_fault x) cpu.pc cpu.retired_instructions cpu.bus
          cpu.fault_info)
      e

-- The end of `main` by the microstate in which the processor stands.
abbrev ending_at : Microstate → List ℕ → List ℕ → Process
ending_at s lines last =
    if not (is_halted s) && not (is_fault s)
    then failure 3 lines (codes "reference trace instruction limit reached\n")
    else record { exit_code = 0; output = lines ++ last; diagnostics = [] }

finish_at :
    (t : Traced) (s : Microstate) (last : List ℕ)
    → t.failed ≡ false
    → t.cpu.microstate ≡ s
    → final_line t.cpu ≡ last
    → finish t ≡ ending_at s (emit_all t.records) last
unfolding finish
finish_at t s last fine e l =
    if_false _ _ fine
    ∙ ap₂ (λ (x : Microstate) (w : List ℕ). ending_at x (emit_all t.records) w) e l

pub finish_lem :
    (t : Traced) (ending : Ending) (m : Machine) (n : ℕ)
    → t.failed ≡ false
    → machine_of t.cpu ≡ m
    → t.cpu.retired_instructions ≡ n
    → Reports t.cpu ending
    → finish t ≡ report_of ending t.records m n
finish_lem t halts m n fine e c r =
    finish_at t Microstate.halted _ fine r (
      line_at t.cpu Microstate.halted r
      ∙ halted_fields (machine_of t.cpu) t.cpu.retired_instructions t.cpu.fault_info)
    ∙ ap₂ (λ (x : Machine) (k : ℕ). report_of halts t.records x k) e c
finish_lem t (fails code word address) m n fine e c (stuck, told) =
    finish_at t Microstate.fault _ fine stuck (
      line_at t.cpu Microstate.fault stuck
      ∙ ap (final_fields false true t.cpu.pc t.cpu.retired_instructions t.cpu.bus) told
      ∙ faulted_fields code word address (machine_of t.cpu) t.cpu.retired_instructions)
    ∙ ap₂ (λ (x : Machine) (k : ℕ). report_of (fails code word address) t.records x k) e c
finish_lem t exceeds m n fine e c r = finish_at t Microstate.fetch _ fine r refl
