-- ===== src/CpuCore/Invariant.antt =====
-- The invariant of `CpuCore::tick`, simulator/src/cpu_core.cpp, from every microstate.
mod Fetching
mod Executing
mod Accessing
mod Retiring
use bit_computer_system.Base.{
  ℕ, ◌+◌, ◌%◌, ◌^◌, ◌<◌, ◌≡◌, ◌≢◌, ◌∙◌, refl, sym, ap, subst, arith, Bool, true, false, not,
  if◌then◌else◌, Option, none, some, Result, ok, ◌>>=◌, Returns, bind_ok, Bool-cases, inl, inr,
  if_true, if_false, u32, u64,
}
use bit_computer_system.Alu as Alu
use bit_computer_system.Alu.Bounds.{execute-lt}
use bit_computer_system.RegisterFile as RegisterFile
use bit_computer_system.RegisterFile.{RegisterFile}
use bit_computer_system.Immediate.{immediate_value, branch_displacement, jump_displacement}
use bit_computer_system.Immediate.Values.{immediate_value-lt}
use bit_computer_system.Decoder as Decoder
use bit_computer_system.Decoder.{DecodedInstruction, DecodeResult}
use bit_computer_system.Decoder.Fields.{decode_cases}
use bit_computer_system.Decoder.RoundTrip.{accepted, encode-decode}
use bit_computer_system.Control.{
  ControlSignals, control_for, MemoryOperation, ControlFlowKind, WritebackSource,
  RegisterDestination,
}
use bit_computer_system.Memory.Words.{little_endian-lt}
use bit_computer_system.Rom.Loading as RomLoading
use bit_computer_system.Bus as Bus
use bit_computer_system.Bus.{Bus, BusFault}
use bit_computer_system.Bus.MemoryMap.{
  map_fault, execute_fault, data_read_fault, data_write_fault, region_of, word_in, store_in,
  fetch32-map, read32-map, write32-map,
}
use bit_computer_system.Isa.{get, put}
use bit_computer_system.Isa.Soundness.{
  IsSound, HoldsWords, word_in-lt, store_in-HoldsWords, retire_tick-HoldsWords,
}
use bit_computer_system.Isa.Preservation.{put-lt}
use bit_computer_system.CpuCore.{
  Microstate, fetch, decode, execute, memory, writeback, halted, fault, CpuFault, CpuCore, deref,
  enter_fault, retire_to, branch_taken,
}
use bit_computer_system.CpuCore.Ticks.{
  fetch_fault, decode_ok, decode_fault, load_fault, store_fault, tick_fetch, tick_decode,
  with_signals, read_operands, after_execute, execute_flow, tick_execute, memory_access,
  tick_memory, writeback_value, destination, tick_writeback, tick_in, tick,
}
use bit_computer_system.CpuCore.Effects.{HasBounds, IsInstruction-bounds, get-lt}
use bit_computer_system.CpuCore.Phases.{machine_of, read-get, write-put, ok_either}
use bit_computer_system.CpuCore.Stages.{
  Follows, fetches, fetch_faults, decodes, decode_faults, accesses, computes, transfers, loads,
  stores, access_faults, retires, halts, stays_halted, stays_faulted, HasWords, Knows, Stage,
  IsWellFormed, Ticked, either, choice, same, retired_to,
}
use bit_computer_system.CpuCore.Invariant.Fetching.{tick_fetch_keeps, tick_decode_keeps}
use bit_computer_system.CpuCore.Invariant.Executing.{tick_execute_keeps}
use bit_computer_system.CpuCore.Invariant.Accessing.{tick_memory_keeps}
use bit_computer_system.CpuCore.Invariant.Retiring.{tick_writeback_keeps}

-- A tick from a microstate.
tick_in_keeps :
    (s : Microstate) (cpu : CpuCore)
    → cpu.microstate ≡ s
    → Stage s cpu
    → IsSound (machine_of cpu)
    → HasWords cpu
    → Returns (Ticked s cpu.retired_instructions) (tick_in s cpu)
unfolding tick_in
tick_in_keeps fetch cpu e stage v w = tick_fetch_keeps cpu v w
tick_in_keeps decode cpu e stage v w = tick_decode_keeps cpu v w
tick_in_keeps execute cpu e stage v w = tick_execute_keeps cpu stage v w
tick_in_keeps memory cpu e (k, n) v w = tick_memory_keeps cpu k n v w
tick_in_keeps writeback cpu e stage v w = tick_writeback_keeps cpu stage v w
tick_in_keeps halted cpu e stage v w = (
  cpu,
  refl,
  record {
    well_formed = record { sound = v; words = w; stage = subst (λ x. Stage x cpu) (sym e) stage };
    retiring = 0;
    follows = subst (λ x. Follows halted x 0) (sym e) stays_halted;
    counts = same cpu.retired_instructions w.retired_instructions;
  },
)
tick_in_keeps fault cpu e stage v w = (
  cpu,
  refl,
  record {
    well_formed = record { sound = v; words = w; stage = subst (λ x. Stage x cpu) (sym e) stage };
    retiring = 0;
    follows = subst (λ x. Follows fault x 0) (sym e) stays_faulted;
    counts = same cpu.retired_instructions w.retired_instructions;
  },
)

-- From a state that holds words and bytes and has latched what its microstate relies on, a tick
-- returns in such a state; the microstates are joined by a transition of the diagram, and the
-- retired count grows, modulo 2 ^ 64, by what that transition retires.
pub tick-Ticked :
    (cpu : CpuCore)
    → IsWellFormed cpu
    → Returns (Ticked cpu.microstate cpu.retired_instructions) (tick cpu)
unfolding tick
tick-Ticked cpu v = tick_in_keeps cpu.microstate cpu refl v.stage v.sound v.words
