-- ===== src/CpuCore/Phases.antt =====
-- The ticks of one instruction, as equations between states.
use bit_computer_system.Base.{
  ℕ, zero, suc, ◌+◌, ◌<◌, ◌≡◌, refl, arith, Bool, true, false, ◌==◌, if◌then◌else◌, some, ok, u32,
  u64,
}
use bit_computer_system.RegisterFile
use bit_computer_system.RegisterFile.{RegisterFile}
use bit_computer_system.Decoder
use bit_computer_system.Decoder.{DecodedInstruction}
use bit_computer_system.Decoder.RoundTrip.{accepted}
use bit_computer_system.Immediate.{immediate_value}
use bit_computer_system.Control.{ControlSignals, control_for}
use bit_computer_system.Bus
use bit_computer_system.Bus.{Bus, BusFault}
use bit_computer_system.Isa.{get, put, Machine}
use bit_computer_system.CpuCore.{Microstate, fetch, decode, execute, CpuCore, FaultInfo}
use bit_computer_system.CpuCore.Ticks.{tick}
use bit_computer_system.CpuCore.Steps.{step_loop, is_running}

pub read-get :
    (r : RegisterFile) (index : ℕ) → index < 32 → RegisterFile.read r index ≡ ok (get r index)
unfolding RegisterFile.read get
read-get r index h = ground arith

pub write-put :
    (r : RegisterFile) (index value : ℕ)
    → index < 32
    → RegisterFile.write r index value ≡ ok (put r index value)
unfolding RegisterFile.write put
write-put r index value h = ground arith

-- After FETCH.
abbrev pub fetched : ℕ → CpuCore → CpuCore
fetched w cpu = record cpu {
  instruction_register = w;
  pc_plus_4 = u32 (cpu.pc + 4);
  next_pc = u32 (cpu.pc + 4);
  microstate = decode;
}

pub tick-fetched :
    (cpu : CpuCore) (w : ℕ)
    → cpu.microstate ≡ fetch
    → Bus.fetch32 cpu.bus cpu.pc ≡ ok (record { value = w; fault = BusFault.none })
    → tick cpu ≡ ok (fetched w cpu)
unfolding tick
tick-fetched cpu w e h = rw (e, h) refl

pub ok_either {ℓ} :
    {A : Type ℓ} (b : Bool) (x y : A) → (if b then ok x else ok y) ≡ ok (if b then x else y)
ok_either true x y = refl
ok_either false x y = refl

-- After DECODE.
abbrev pub decoded : ℕ → DecodedInstruction → ControlSignals → CpuCore → CpuCore
decoded w d s cpu = record (fetched w cpu) {
  decoded_instruction = some d;
  control_signals = some s;
  operand_lhs = get cpu.registers d.rs1;
  operand_rhs =
      if s.alu_src_immediate
      then immediate_value s.immediate_kind d.imm16
      else get cpu.registers d.rs2;
  store_data = get cpu.registers d.rs2;
  microstate = execute;
}

pub tick-decoded :
    (cpu : CpuCore) (w : ℕ) (d : DecodedInstruction) (s : ControlSignals)
    → Decoder.decode w ≡ accepted d
    → control_for d.opcode ≡ some s
    → d.rs1 < 32
    → d.rs2 < 32
    → tick (fetched w cpu) ≡ ok (decoded w d s cpu)
unfolding tick
tick-decoded cpu w d s e c h1 h2 =
    rw
      (
        e,
        c,
        read-get cpu.registers d.rs1 h1,
        read-get cpu.registers d.rs2 h2,
        ok_either s.alu_src_immediate _ _,
      )
      refl

-- What a program can see of the processor between two instructions.
pub record Observation : Type 0 where
  pub machine : Machine
  pub microstate : Microstate
  pub retired : ℕ
  pub fault_info : FaultInfo

abbrev pub machine_of : CpuCore → Machine
machine_of cpu = record { registers = cpu.registers; pc = cpu.pc; bus = cpu.bus }

abbrev pub observe : CpuCore → Observation
observe cpu = record {
  machine = machine_of cpu;
  microstate = cpu.microstate;
  retired = cpu.retired_instructions;
  fault_info = cpu.fault_info;
}

-- The loop of `step`, entered at `n` retired instructions, leaves a state that shows `o`.
abbrev pub Ends : ℕ → ℕ → CpuCore → Observation → Type 0
Ends fuel n cpu o = (cpu' : CpuCore) × (step_loop fuel n cpu ≡ ok cpu') × (observe cpu' ≡ o)

pub Ends-tick :
    (fuel n : ℕ) (cpu cpu' : CpuCore) {o : Observation}
    → tick cpu ≡ ok cpu'
    → is_running n cpu ≡ true
    → Ends fuel n cpu' o
    → Ends (suc fuel) n cpu o
unfolding step_loop
Ends-tick fuel n cpu cpu' e r (last, runs, same) = (last, rw (r, e) runs, same)

pub loop_stop :
    (fuel n : ℕ) (cpu : CpuCore) → is_running n cpu ≡ false → step_loop fuel n cpu ≡ ok cpu
unfolding step_loop
loop_stop zero n cpu r = rw r refl
loop_stop (suc fuel) n cpu r = rw r refl

pub Ends-now :
    (fuel n : ℕ) (cpu : CpuCore) {o : Observation}
    → is_running n cpu ≡ false
    → observe cpu ≡ o
    → Ends fuel n cpu o
Ends-now fuel n cpu r e = (cpu, loop_stop fuel n cpu r, e)

-- Nothing retired yet, and one more has.
pub same_count : (n : ℕ) → (n == n) ≡ true
same_count n = ground arith

pub one_more : (n : ℕ) → (u64 (n + 1) == n) ≡ false
one_more n = ground arith
