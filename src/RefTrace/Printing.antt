-- ===== src/RefTrace/Printing.antt =====
-- The text that simulator/app/ref_trace.cpp writes: the helpers, `emit_retire` and the last line.
use bit_computer_system.Base.{ℕ, Bool, Option, none, some, List, [], ◌∷◌, ◌++◌, if◌then◌else◌}
use bit_computer_system.Text.{codes, decimal, hex}
use bit_computer_system.Bus.{Bus}
use bit_computer_system.CpuCore.{CpuCore, CpuFault, FaultInfo}
use bit_computer_system.CpuCore.Steps.{is_halted, is_fault}
use bit_computer_system.RefTrace.{Retire, has_value}

unfoldable pub hex32 : ℕ → List ℕ
hex32 value = hex 8 value

unfoldable pub hex_bytes : List ℕ → List ℕ
hex_bytes [] = []
hex_bytes (byte ∷ bytes) = hex 2 byte ++ hex_bytes bytes

unfoldable pub fault_name : CpuFault → List ℕ
fault_name CpuFault.none = codes "None"
fault_name CpuFault.misaligned_instruction_fetch = codes "MisalignedInstructionFetch"
fault_name CpuFault.unmapped_instruction_fetch = codes "UnmappedInstructionFetch"
fault_name CpuFault.non_executable_instruction_fetch = codes "NonExecutableInstructionFetch"
fault_name CpuFault.illegal_instruction = codes "IllegalInstruction"
fault_name CpuFault.malformed_instruction = codes "MalformedInstruction"
fault_name CpuFault.unsupported_instruction = codes "UnsupportedInstruction"
fault_name CpuFault.misaligned_load = codes "MisalignedLoad"
fault_name CpuFault.unmapped_load = codes "UnmappedLoad"
fault_name CpuFault.misaligned_store = codes "MisalignedStore"
fault_name CpuFault.unmapped_store = codes "UnmappedStore"
fault_name CpuFault.read_only_store = codes "ReadOnlyStore"

abbrev pub truth : Bool → List ℕ
truth b = if b then codes "true" else codes "false"

abbrev pub value_or : ℕ → Option ℕ → ℕ
value_or n none = n
value_or n (some k) = k

-- The line of a record.
unfoldable pub emit_retire : Retire → List ℕ
unfolding hex32
emit_retire r =
    codes "{\"type\":\"retire\",\"index\":"
    ++ decimal r.index
    ++ codes ",\"pc\":\""
    ++ hex32 r.pc
    ++ codes "\",\"instruction\":\""
    ++ hex32 r.instruction
    ++ codes "\",\"next_pc\":\""
    ++ hex32 r.next_pc
    ++ codes "\",\"reg_write\":"
    ++ truth (has_value r.register_write)
    ++ codes ",\"rd\":"
    ++ decimal (value_or 0 r.register_write)
    ++ codes ",\"reg_value\":\""
    ++ hex32 r.register_value
    ++ codes "\",\"mem_write\":"
    ++ truth r.memory_write
    ++ codes ",\"mem_addr\":\""
    ++ hex32 r.memory_address
    ++ codes "\",\"mem_value\":\""
    ++ hex32 r.memory_value
    ++ codes "\"}\n"

unfoldable pub emit_all : List Retire → List ℕ
unfolding emit_retire
emit_all [] = []
emit_all (r ∷ records) = emit_retire r ++ emit_all records

-- What the last line says of a fault.
unfoldable pub fault_fields : FaultInfo → List ℕ
unfolding hex32 fault_name
fault_fields fault =
    codes ",\"fault\":\""
    ++ fault_name fault.code
    ++ codes "\",\"fault_pc\":\""
    ++ hex32 fault.pc
    ++ codes "\",\"fault_instruction\":\""
    ++ hex32 fault.instruction
    ++ codes "\",\"fault_address_valid\":"
    ++ truth (has_value fault.data_address)
    ++ codes ",\"fault_address\":\""
    ++ hex32 (value_or 0 fault.data_address)
    ++ codes "\""

-- The last line, for the status, the program counter, the retired count, the devices and the fault.
unfoldable pub final_fields : Bool → Bool → ℕ → ℕ → Bus → FaultInfo → List ℕ
unfolding hex32 hex_bytes fault_fields
final_fields halted faulted pc retired bus fault =
    codes "{\"type\":\"final\",\"status\":\""
    ++ (if halted then codes "halted" else codes "faulted")
    ++ codes "\",\"pc\":\""
    ++ hex32 pc
    ++ codes "\",\"retired\":"
    ++ decimal retired
    ++ codes ",\"uart_tx\":\""
    ++ hex_bytes bus.uart.transmitted
    ++ codes "\",\"debug_value\":\""
    ++ hex32 bus.debug.value
    ++ codes "\",\"gpio_output\":\""
    ++ hex32 bus.gpio.output
    ++ codes "\",\"gpio_direction\":\""
    ++ hex32 bus.gpio.direction
    ++ codes "\",\"timer_counter\":\""
    ++ hex32 bus.timer.counter
    ++ codes "\",\"timer_compare\":\""
    ++ hex32 bus.timer.compare
    ++ codes "\",\"timer_control\":\""
    ++ hex32 (if bus.timer.enabled then 1 else 0)
    ++ codes "\""
    ++ (if faulted then fault_fields fault else [])
    ++ codes "}\n"

unfoldable pub final_line : CpuCore → List ℕ
unfolding final_fields
final_line cpu =
    final_fields (is_halted cpu.microstate) (is_fault cpu.microstate) cpu.pc
      cpu.retired_instructions cpu.bus cpu.fault_info
