-- ===== src/CpuCore/Accesses.antt =====
-- The ways of loads and stores from EXECUTE on, faults included.
use bit_computer_system.Base.{ℕ, ◌+◌, ◌<◌, ◌≡◌, refl, true, false, some, ok, u64}
use bit_computer_system.Alu
use bit_computer_system.Decoder.{DecodedInstruction}
use bit_computer_system.Immediate.{ImmediateKind}
use bit_computer_system.Control.{ControlSignals, defaults, WritebackSource, MemoryOperation}
use bit_computer_system.Bus
use bit_computer_system.Bus.{Bus, BusFault}
use bit_computer_system.Isa.{get, put}
use bit_computer_system.CpuCore.{fetch, memory, writeback, CpuCore, enter_fault, retire_to}
use bit_computer_system.CpuCore.Ticks.{tick, load_fault, store_fault}
use bit_computer_system.CpuCore.Phases.{
  decoded, Ends, Ends-tick, Ends-now, same_count, one_more, write-put,
}
use bit_computer_system.CpuCore.Paths.{result, following, retires, access_faults, executed}

module _ (cpu : CpuCore) (w : ℕ) (d : DecodedInstruction) where
  -- A load ends in WRITEBACK, or faults in MEMORY.
  abbrev pub loading : ControlSignals
  loading = record defaults {
    reg_write = true;
    alu_src_immediate = true;
    alu_operation = Alu.AluOperation.add;
    immediate_kind = ImmediateKind.signed16;
    writeback_source = WritebackSource.memory;
    memory_operation = MemoryOperation.load;
  }

  pub load-Ends :
      (value : ℕ)
      → d.rd < 32
      → Bus.read32 cpu.bus (result cpu w d loading)
        ≡ ok (record { value = value; fault = BusFault.none })
      → Ends 3 cpu.retired_instructions (decoded w d loading cpu) (
          retires cpu w d
            (record {
              registers = put cpu.registers d.rd value;
              pc = following cpu w d;
              bus = cpu.bus;
            })
            fetch)
  unfolding tick
  load-Ends value h e =
      let n = cpu.retired_instructions in
      let mid : CpuCore = executed cpu w d loading memory in
      let full : CpuCore = record mid { memory_data = value; microstate = writeback } in
      let after : CpuCore = record full {
        registers = put cpu.registers d.rd value;
        pc = following cpu w d;
        retired_instructions = u64 (n + 1);
        bus = Bus.retire_tick cpu.bus;
        microstate = fetch;
      } in
      Ends-tick 2 n _ mid refl (same_count n) (
        Ends-tick 1 n mid full (rw e refl) (same_count n) (
          Ends-tick 0 n full after (rw (write-put cpu.registers d.rd value h) refl) (same_count n)
            (Ends-now 0 n after (one_more n) refl)))

  pub load_faults :
      (code : BusFault)
      → Bus.is_none code ≡ false
      → Bus.read32 cpu.bus (result cpu w d loading) ≡ ok (record { value = 0; fault = code })
      → Ends 3 cpu.retired_instructions
          (decoded w d loading cpu)
          (access_faults cpu w d (load_fault code) (result cpu w d loading))
  unfolding tick
  load_faults code bad e =
      let n = cpu.retired_instructions in
      let mid : CpuCore = executed cpu w d loading memory in
      let last : CpuCore = enter_fault (load_fault code) (some (result cpu w d loading)) mid in
      Ends-tick 2 n _ mid refl (same_count n)
        (Ends-tick 1 n mid last (rw (e, bad) refl) (same_count n) (Ends-now 1 n last refl refl))

  -- A store retires cpu w d from MEMORY, or faults there.
  abbrev pub storing : ControlSignals
  storing = record defaults {
    alu_src_immediate = true;
    alu_operation = Alu.AluOperation.add;
    immediate_kind = ImmediateKind.signed16;
    memory_operation = MemoryOperation.store;
  }

  pub store-Ends :
      (bus : Bus)
      → Bus.write32 cpu.bus (result cpu w d storing) (get cpu.registers d.rs2)
        ≡ ok (bus, record { fault = BusFault.none })
      → Ends 3 cpu.retired_instructions (decoded w d storing cpu) (
          retires cpu w d
            (record { registers = cpu.registers; pc = following cpu w d; bus = bus })
            fetch)
  unfolding tick
  store-Ends bus e =
      let n = cpu.retired_instructions in
      let mid : CpuCore = executed cpu w d storing memory in
      let last : CpuCore = retire_to (following cpu w d) (record mid { bus = bus }) in
      Ends-tick 2 n _ mid refl (same_count n)
        (Ends-tick 1 n mid last (rw e refl) (same_count n) (Ends-now 1 n last (one_more n) refl))

  pub store_faults :
      (code : BusFault)
      → Bus.is_none code ≡ false
      → Bus.write32 cpu.bus (result cpu w d storing) (get cpu.registers d.rs2)
        ≡ ok (cpu.bus, record { fault = code })
      → Ends 3 cpu.retired_instructions
          (decoded w d storing cpu)
          (access_faults cpu w d (store_fault code) (result cpu w d storing))
  unfolding tick
  store_faults code bad e =
      let n = cpu.retired_instructions in
      let mid : CpuCore = executed cpu w d storing memory in
      let last : CpuCore = enter_fault (store_fault code) (some (result cpu w d storing)) mid in
      Ends-tick 2 n _ mid refl (same_count n)
        (Ends-tick 1 n mid last (rw (e, bad) refl) (same_count n) (Ends-now 1 n last refl refl))
