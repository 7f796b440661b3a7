-- ===== src/Examples/Machines.antt =====
-- A machine that the examples share: simulator/src/bus.cpp and cpu_core.cpp after a reset.
use bit_computer_system.Base.{ℕ, ◌==◌, if◌then◌else◌, false, arith, none, [], refl}
use bit_computer_system.Ram.{Ram}
use bit_computer_system.Timer.{Timer}
use bit_computer_system.Gpio.{Gpio}
use bit_computer_system.Bus.{Bus}
use bit_computer_system.CpuCore.{CpuCore, no_fault, Microstate}
use bit_computer_system.CpuCore.Refinement.{IsReady}
use bit_computer_system.CpuCore.Phases.{machine_of}
use bit_computer_system.Isa.Soundness.{IsSound}

abbrev pub empty_ram : Ram
empty_ram = record { bytes = λ _. 0 }

abbrev pub quiet_timer : Timer
quiet_timer = record { counter = 0; compare = 7; enabled = false }

abbrev pub quiet_gpio : Gpio
quiet_gpio = record { input = 0; output = 0; direction = 0 }

-- ADDI r1, r0, 5 at address 0, and NOP everywhere else.
abbrev pub program : ℕ → ℕ
program i = if i == 0 then 0x05 else if i == 2 then 0x20 else if i == 3 then 0x24 else 0

abbrev pub small_bus : Bus
small_bus = record {
  rom = record { bytes = program };
  ram = empty_ram;
  uart = record { tx_callback = false; transmitted = [] };
  debug = record { value = 0 };
  timer = quiet_timer;
  gpio = quiet_gpio;
}

abbrev pub start : CpuCore
start = record {
  bus = small_bus;
  registers = record { registers = λ _. 0 };
  pc = 0;
  instruction_register = 0;
  operand_lhs = 0;
  operand_rhs = 0;
  alu_result = 0;
  store_data = 0;
  memory_data = 0;
  pc_plus_4 = 0;
  next_pc = 0;
  microstate = Microstate.fetch;
  decoded_instruction = none;
  control_signals = none;
  retired_instructions = 0;
  fault_info = no_fault;
}

pub start-IsReady : IsReady start
start-IsReady = record {
  at_fetch = refl;
  pc_word = omega arith;
  register_words = λ _. omega arith;
  rom_bytes = λ i. ground arith;
}

pub start-IsSound : IsSound (machine_of start)
start-IsSound = record {
  pc_word = omega arith;
  register_words = λ _. omega arith;
  bus_words = record {
    rom_bytes = λ i. ground arith;
    ram_bytes = λ _. omega arith;
    counter = omega arith;
    compare = omega arith;
    input = omega arith;
    output = omega arith;
    direction = omega arith;
    debug_value = omega arith;
  };
}
