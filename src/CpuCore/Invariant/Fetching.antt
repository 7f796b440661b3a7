-- ===== src/CpuCore/Invariant/Fetching.antt =====
-- The invariant over FETCH and DECODE of `CpuCore::tick`, simulator/src/cpu_core.cpp.
use bit_computer_system.Base.{
  ◌^◌, ◌<◌, ◌≡◌, ◌∙◌, refl, ap, arith, not, if◌then◌else◌, Option, none, some, Result, ok, ◌>>=◌,
  Returns, bind_ok, inl, inr,
}
use bit_computer_system.Immediate.{immediate_value}
use bit_computer_system.Immediate.Values.{immediate_value-lt}
use bit_computer_system.Decoder.{DecodedInstruction, DecodeResult}
use bit_computer_system.Decoder.Fields.{decode_cases}
use bit_computer_system.Decoder.RoundTrip.{encode-decode}
use bit_computer_system.Control.{ControlSignals, control_for}
use bit_computer_system.Memory.Words.{little_endian-lt}
use bit_computer_system.Rom.Loading as RomLoading
use bit_computer_system.Bus as Bus
use bit_computer_system.Bus.{Bus, BusFault}
use bit_computer_system.Bus.MemoryMap.{map_fault, execute_fault, fetch32-map}
use bit_computer_system.Isa.{get}
use bit_computer_system.Isa.Soundness.{IsSound}
use bit_computer_system.CpuCore.{fetch, decode, execute, CpuFault, CpuCore, deref, enter_fault}
use bit_computer_system.CpuCore.Ticks.{
  decode_ok, decode_fault, tick_fetch, tick_decode, with_signals, read_operands,
}
use bit_computer_system.CpuCore.Effects.{HasBounds, IsInstruction-bounds, get-lt}
use bit_computer_system.CpuCore.Phases.{machine_of, read-get, ok_either}
use bit_computer_system.CpuCore.Stages.{
  fetches, fetch_faults, decodes, decode_faults, HasWords, Ticked, either, same,
}

pub tick_fetch_keeps :
    (cpu : CpuCore)
    → IsSound (machine_of cpu)
    → HasWords cpu
    → Returns (Ticked fetch cpu.retired_instructions) (tick_fetch cpu)
unfolding tick_fetch
tick_fetch_keeps cpu v w =
    let code = map_fault execute_fault cpu.pc in
    let cells = v.bus_words.rom_bytes in
    let word = if Bus.is_none code then RomLoading.load cpu.bus.rom.bytes cpu.pc else 0 in
    let small : word < 2 ^ 32 =
      either (λ k. k < 2 ^ 32) (Bus.is_none code) _ _
        (little_endian-lt _ _ _ _ (cells _) (cells _) (cells _) (cells _)) (omega arith) in
    (
      _,
      bind_ok (Bus.fetch32 cpu.bus cpu.pc) (record { value = word; fault = code }) _
          (fetch32-map cpu.bus cpu.pc v.pc_word),
      either (Ticked fetch cpu.retired_instructions) (not (Bus.is_none code)) _ _
          (record {
            well_formed = record { sound = v; words = omega arith; stage = tt };
            retiring = 0;
            follows = fetch_faults;
            counts = same cpu.retired_instructions w.retired_instructions;
          })
          (record {
            well_formed = record { sound = v; words = omega arith; stage = tt };
            retiring = 0;
            follows = fetches;
            counts = same cpu.retired_instructions w.retired_instructions;
          }),
    )

read_operands_keeps :
    (cpu : CpuCore) (d : DecodedInstruction) (s : ControlSignals)
    → IsSound (machine_of cpu)
    → HasWords cpu
    → HasBounds d
    → cpu.control_signals ≡ some s
    → cpu.decoded_instruction ≡ some d
    → Returns (Ticked decode cpu.retired_instructions) (read_operands d s cpu)
unfolding read_operands
read_operands_keeps cpu d s v w b es ed =
    let x = get-lt cpu.registers d.rs1 v.register_words in
    let y = get-lt cpu.registers d.rs2 v.register_words in
    let z =
      either (λ k. k < 2 ^ 32) s.alu_src_immediate _ _
        (immediate_value-lt s.immediate_kind d.imm16 b.imm16) y in
    let next : CpuCore = record cpu {
      operand_lhs = get cpu.registers d.rs1;
      operand_rhs =
          if s.alu_src_immediate
          then immediate_value s.immediate_kind d.imm16
          else get cpu.registers d.rs2;
      store_data = get cpu.registers d.rs2;
      microstate = execute;
    } in
    (
      next,
      rw
          (
            read-get cpu.registers d.rs1 b.rs1,
            read-get cpu.registers d.rs2 b.rs2,
            ok_either s.alu_src_immediate _ _,
          )
          refl,
      record {
        well_formed = record {
          sound = v;
          words = omega arith;
          stage = record {
            signals = s;
            decoded = d;
            signals_latched = es;
            decoded_latched = ed;
            bounds = b;
          };
        };
        retiring = 0;
        follows = decodes;
        counts = same cpu.retired_instructions w.retired_instructions;
      },
    )

-- A fault in DECODE.
decode_stops :
    (cpu : CpuCore) (code : CpuFault)
    → IsSound (machine_of cpu)
    → HasWords cpu
    → Ticked decode cpu.retired_instructions (enter_fault code none cpu)
decode_stops cpu code v w = record {
  well_formed = record { sound = v; words = omega arith; stage = tt };
  retiring = 0;
  follows = decode_faults;
  counts = same cpu.retired_instructions w.retired_instructions;
}

with_signals_keeps :
    (cpu : CpuCore) (d : DecodedInstruction) (signals : Option ControlSignals)
    → IsSound (machine_of cpu)
    → HasWords cpu
    → HasBounds d
    → cpu.control_signals ≡ signals
    → cpu.decoded_instruction ≡ some d
    → Returns (Ticked decode cpu.retired_instructions) (with_signals signals d cpu)
unfolding with_signals
with_signals_keeps cpu d none v w b es ed = (_, refl, decode_stops cpu _ v w)
with_signals_keeps cpu d (some s) v w b es ed = read_operands_keeps cpu d s v w b es ed

pub tick_decode_keeps :
    (cpu : CpuCore)
    → IsSound (machine_of cpu)
    → HasWords cpu
    → Returns (Ticked decode cpu.retired_instructions) (tick_decode cpu)
unfolding tick_decode
tick_decode_keeps cpu v w = elim (decode_cases cpu.instruction_register w.instruction_register) [
  | inl e ↦ (_, ap after e, decode_stops cpu _ v w)
  | inr (inl e) ↦ (_, ap after e, decode_stops cpu _ v w)
  | inr (inr (d, e)) ↦
      let bounds =
        IsInstruction-bounds d
          (encode-decode cpu.instruction_register d w.instruction_register e).0 in
      let next : CpuCore = record cpu {
        decoded_instruction = some d;
        control_signals = control_for d.opcode;
      } in
      let (cpu', goes, ticked) =
        with_signals_keeps next d (control_for d.opcode) v (omega arith) bounds refl refl in
      (cpu', ap after e ∙ goes, ticked)
]
  where
    after : DecodeResult → Result CpuCore
    after result =
        if not (decode_ok result.error)
        then ok (enter_fault (decode_fault result.error) none cpu)
        else do
          decoded ← deref result.instruction
          let signals = control_for decoded.opcode
          let cpu1 = record cpu {
            decoded_instruction = result.instruction;
            control_signals = signals;
          }
          with_signals signals decoded cpu1
