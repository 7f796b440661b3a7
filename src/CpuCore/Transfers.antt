-- ===== src/CpuCore/Transfers.antt =====
-- LW and SW of simulator/src/cpu_core.cpp, from EXECUTE on, against the instruction set.
use bit_computer_system.Base.{
  ℕ, if_true, if_false, ◌+◌, ◌^◌, ◌<◌, ◌≡◌, ◌∙◌, refl, ap, sym, arith, some, u32, Bool-cases, inl,
  inr,
}
use bit_computer_system.Alu
use bit_computer_system.Alu.{execute, AluOperation}
use bit_computer_system.Opcode.{Opcode}
use bit_computer_system.Decoder.{DecodedInstruction}
use bit_computer_system.Immediate.{ImmediateKind, immediate_value}
use bit_computer_system.Immediate.Values.{immediate_value_signed}
use bit_computer_system.Bus
use bit_computer_system.Bus.{BusFault, is_none}
use bit_computer_system.Bus.MemoryMap.{
  map_fault, data_read_fault, data_write_fault, region_of, word_in, store_in, read32_fine,
  read32_bad, write32_fine, write32_bad,
}
use bit_computer_system.Isa.{get, Machine, faults, perform, sign_extend}
use bit_computer_system.CpuCore.{CpuFault, CpuCore}
use bit_computer_system.CpuCore.Ticks.{load_fault, store_fault}
use bit_computer_system.CpuCore.Faults.{load_fault_lem, store_fault_lem}
use bit_computer_system.CpuCore.Phases.{decoded, machine_of, Ends}
use bit_computer_system.CpuCore.Accesses.{
  loading, storing, load-Ends, load_faults, store-Ends, store_faults,
}
use bit_computer_system.CpuCore.Effects.{shows, HasBounds, Ends-as}

module _ (cpu : CpuCore) (w : ℕ) (d : DecodedInstruction) (bounds : HasBounds d) where
  abbrev m : Machine
  m = machine_of cpu

  abbrev x : ℕ
  x = get cpu.registers d.rs1

  abbrev y : ℕ
  y = get cpu.registers d.rs2

  pub add_immediate :
      Alu.execute AluOperation.add x (immediate_value ImmediateKind.signed16 d.imm16)
      ≡ u32 (x + sign_extend d.imm16)
  unfolding Alu.execute
  add_immediate = rw (immediate_value_signed d.imm16 bounds.imm16) refl

  abbrev address : ℕ
  address = u32 (x + sign_extend d.imm16)

  address-lt : address < 2 ^ 32
  address-lt = omega arith

  -- A load ends as the instruction set says.
  pub lw-Ends :
      Ends 3 cpu.retired_instructions
        (decoded w d (loading cpu w d) cpu)
        (shows cpu (perform m w d Opcode.lw))
  unfolding perform
  lw-Ends = elim (Bool-cases (is_none (map_fault data_read_fault address))) [
    | inl fine ↦
        Ends-as 3 cpu.retired_instructions _
          (load-Ends cpu w d (word_in (region_of address) cpu.bus address) bounds.rd
            (ap (Bus.read32 cpu.bus) add_immediate ∙ read32_fine cpu.bus address address-lt fine))
          (ap (shows cpu) (sym (if_true _ _ fine)))
    | inr bad ↦
        Ends-as 3 cpu.retired_instructions _
          (load_faults cpu w d (map_fault data_read_fault address) bad
            (ap (Bus.read32 cpu.bus) add_immediate ∙ read32_bad cpu.bus address address-lt bad))
          (ap
              (λ (k : ℕ).
                shows cpu (faults (load_fault (map_fault data_read_fault address)) w (some k)))
              add_immediate
            ∙ ap (λ (c : CpuFault). shows cpu (faults c w (some address)))
                (load_fault_lem address bad)
            ∙ ap (shows cpu) (sym (if_false _ _ bad)))
  ]

  -- A store ends as the instruction set says.
  pub sw-Ends :
      Ends 3 cpu.retired_instructions
        (decoded w d (storing cpu w d) cpu)
        (shows cpu (perform m w d Opcode.sw))
  unfolding perform
  sw-Ends = elim (Bool-cases (is_none (map_fault data_write_fault address))) [
    | inl fine ↦
        Ends-as 3 cpu.retired_instructions _
          (store-Ends cpu w d (store_in (region_of address) cpu.bus address y) (
            ap (λ (a : ℕ). Bus.write32 cpu.bus a y) add_immediate
            ∙ write32_fine cpu.bus address address-lt y fine))
          (ap (shows cpu) (sym (if_true _ _ fine)))
    | inr bad ↦
        Ends-as 3 cpu.retired_instructions _
          (store_faults cpu w d (map_fault data_write_fault address) bad (
            ap (λ (a : ℕ). Bus.write32 cpu.bus a y) add_immediate
            ∙ write32_bad cpu.bus address address-lt y bad))
          (ap
              (λ (k : ℕ).
                shows cpu (faults (store_fault (map_fault data_write_fault address)) w (some k)))
              add_immediate
            ∙ ap (λ (c : CpuFault). shows cpu (faults c w (some address)))
                (store_fault_lem address bad)
            ∙ ap (shows cpu) (sym (if_false _ _ bad)))
  ]
