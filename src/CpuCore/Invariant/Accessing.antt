-- ===== src/CpuCore/Invariant/Accessing.antt =====
-- The invariant over MEMORY of `CpuCore::tick`, simulator/src/cpu_core.cpp.
use bit_computer_system.Base.{
  ◌^◌, ◌<◌, ◌≢◌, ◌∙◌, refl, ap, arith, not, if◌then◌else◌, some, Returns, bind_ok,
}
use bit_computer_system.Control.{ControlSignals, MemoryOperation}
use bit_computer_system.Bus as Bus
use bit_computer_system.Bus.{Bus, BusFault}
use bit_computer_system.Bus.MemoryMap.{
  map_fault, data_read_fault, data_write_fault, region_of, word_in, store_in, read32-map,
  write32-map,
}
use bit_computer_system.Isa.Soundness.{IsSound, HoldsWords, word_in-lt, store_in-HoldsWords}
use bit_computer_system.CpuCore.{memory, CpuFault, CpuCore, deref, enter_fault}
use bit_computer_system.CpuCore.Ticks.{load_fault, store_fault, memory_access, tick_memory}
use bit_computer_system.CpuCore.Phases.{machine_of}
use bit_computer_system.CpuCore.Stages.{
  loads, stores, access_faults, HasWords, Knows, Ticked, either, same, retired_to,
}

-- A fault of a data access.
access_stops :
    (cpu : CpuCore) (code : CpuFault)
    → IsSound (machine_of cpu)
    → HasWords cpu
    → Ticked memory cpu.retired_instructions (enter_fault code (some cpu.alu_result) cpu)
access_stops cpu code v w = record {
  well_formed = record { sound = v; words = omega arith; stage = tt };
  retiring = 0;
  follows = access_faults;
  counts = same cpu.retired_instructions w.retired_instructions;
}

memory_access_keeps :
    (operation : MemoryOperation) (cpu : CpuCore)
    → operation ≢ MemoryOperation.none
    → Knows cpu.control_signals cpu.decoded_instruction
    → IsSound (machine_of cpu)
    → HasWords cpu
    → Returns (Ticked memory cpu.retired_instructions) (memory_access operation cpu)
unfolding memory_access
memory_access_keeps MemoryOperation.none cpu n k v w = absurd (n refl)
memory_access_keeps MemoryOperation.load cpu n k v w =
    let code = map_fault data_read_fault cpu.alu_result in
    let value =
      if Bus.is_none code then word_in (region_of cpu.alu_result) cpu.bus cpu.alu_result else 0 in
    let small : value < 2 ^ 32 =
      either (λ x. x < 2 ^ 32) (Bus.is_none code) _ _
        (word_in-lt (region_of cpu.alu_result) cpu.bus cpu.alu_result v.bus_words) (omega arith) in
    (
      _,
      bind_ok (Bus.read32 cpu.bus cpu.alu_result) (record { value = value; fault = code }) _
          (read32-map cpu.bus cpu.alu_result w.alu_result),
      either (Ticked memory cpu.retired_instructions) (not (Bus.is_none code)) _ _
          (access_stops cpu (load_fault code) v w)
          (record {
            well_formed = record { sound = v; words = omega arith; stage = k };
            retiring = 0;
            follows = loads;
            counts = same cpu.retired_instructions w.retired_instructions;
          }),
    )
memory_access_keeps MemoryOperation.store cpu n k v w =
    let code = map_fault data_write_fault cpu.alu_result in
    let bus =
      if Bus.is_none code
      then store_in (region_of cpu.alu_result) cpu.bus cpu.alu_result cpu.store_data
      else cpu.bus in
    let next : CpuCore = record cpu { bus = bus } in
    let sound : IsSound (machine_of next) = record {
      pc_word = v.pc_word;
      register_words = v.register_words;
      bus_words =
          either HoldsWords (Bus.is_none code) _ _
            (store_in-HoldsWords (region_of cpu.alu_result) cpu.bus cpu.alu_result cpu.store_data
              w.store_data v.bus_words)
            v.bus_words;
    } in
    (
      _,
      bind_ok (Bus.write32 cpu.bus cpu.alu_result cpu.store_data) (bus, record { fault = code }) _
          (write32-map cpu.bus cpu.alu_result cpu.store_data w.alu_result),
      either (Ticked memory cpu.retired_instructions) (not (Bus.is_none code)) _ _
          (access_stops next (store_fault code) sound (omega arith))
          (retired_to memory next next.next_pc stores w.next_pc sound (omega arith)),
    )

pub tick_memory_keeps :
    (cpu : CpuCore) (k : Knows cpu.control_signals cpu.decoded_instruction)
    → k.signals.memory_operation ≢ MemoryOperation.none
    → IsSound (machine_of cpu)
    → HasWords cpu
    → Returns (Ticked memory cpu.retired_instructions) (tick_memory cpu)
unfolding tick_memory
tick_memory_keeps cpu k n v w =
    let (cpu', goes, ticked) = memory_access_keeps k.signals.memory_operation cpu n k v w in
    (
      cpu',
      bind_ok (deref cpu.control_signals) k.signals
            (λ (s : ControlSignals). memory_access s.memory_operation cpu)
            (ap deref k.signals_latched)
          ∙ goes,
      ticked,
    )
