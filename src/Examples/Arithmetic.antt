-- ===== src/Examples/Arithmetic.antt =====
-- Single operations of simulator/src/alu.cpp.
use bit_computer_system.Base.{◌≡◌, arith}
use bit_computer_system.Alu.{execute, AluOperation}
use bit_computer_system.Alu.Bitwise.{bit, execute-bit}
use bit_computer_system.Alu.Shifts.{execute-shift, execute-shift_back}
use bit_computer_system.Alu.Signed.{execute-slt}

execute-slt_example : execute AluOperation.slt 0xffffffff 1 ≡ 1
execute-slt_example = execute-slt 0xffffffff 1 (omega arith) (omega arith)

execute-shift_example :
    (execute AluOperation.shift_left 0x80000001 33 ≡ 2)
    × (execute AluOperation.shift_right 0x80000001 33 ≡ 0x40000000)
execute-shift_example = execute-shift 0x80000001 33

execute-shift_back_example :
    execute AluOperation.shift_right (execute AluOperation.shift_left 0x80000001 1) 1 ≡ 1
execute-shift_back_example = execute-shift_back 0x80000001 1

execute-bit_example :
    (bit 2 (execute AluOperation.and 6 3) ≡ 0)
    × (bit 2 (execute AluOperation.or 6 3) ≡ 1)
    × (bit 2 (execute AluOperation.xor 6 3) ≡ 1)
execute-bit_example = execute-bit 2 6 3
