-- ===== src/Examples.antt =====
-- The theorems at concrete inputs: one instruction on a small machine, and single operations of the
-- components.
pub mod Machines
mod Cpu
mod Programs
mod Codes
mod Memories
mod Devices
mod Arithmetic
mod Traces
mod Ticks
mod Buses
mod Jumps
