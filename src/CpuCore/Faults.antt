-- ===== src/CpuCore/Faults.antt =====
-- The fault codes that `CpuCore::tick` of simulator/src/cpu_core.cpp takes from the bus's faults,
-- against those that the instruction set gives to addresses.
use bit_computer_system.Base.{ℕ, ◌≡◌, arith, false}
use bit_computer_system.Bus.{is_none}
use bit_computer_system.Bus.MemoryMap.{map_fault, data_read_fault, data_write_fault, execute_fault}
use bit_computer_system.CpuCore.Ticks.{fetch_fault, load_fault, store_fault}
use bit_computer_system.Isa.{fetch_error, load_error, store_error}

pub fetch_fault_lem :
    (address : ℕ)
    → is_none (map_fault execute_fault address) ≡ false
    → fetch_fault (map_fault execute_fault address) ≡ fetch_error address
fetch_fault_lem address bad = ground arith

pub load_fault_lem :
    (address : ℕ)
    → is_none (map_fault data_read_fault address) ≡ false
    → load_fault (map_fault data_read_fault address) ≡ load_error address
load_fault_lem address bad = ground arith

pub store_fault_lem :
    (address : ℕ)
    → is_none (map_fault data_write_fault address) ≡ false
    → store_fault (map_fault data_write_fault address) ≡ store_error address
store_fault_lem address bad = ground arith
