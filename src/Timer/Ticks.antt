-- ===== src/Timer/Ticks.antt =====
-- The timer of simulator/src/timer.cpp over a number of retired instructions.
use bit_computer_system.Base.{
  ℕ, zero, suc, ◌+◌, ◌*◌, ◌%◌, ◌^◌, ◌<◌, ◌≡◌, ◌∙◌, ap, arith, ◌&&◌, ◌==◌, if◌then◌else◌,
}
use bit_computer_system.Bits.{and_low}
use bit_computer_system.Mmio.{none}
use bit_computer_system.Timer.{Timer, base_address, read32, retire_tick}

-- So many instructions retire.
unfoldable pub ticks : ℕ → Timer → Timer
ticks zero t = t
ticks (suc n) t = ticks n (retire_tick t)

-- The timer after them.
abbrev pub counted : ℕ → Timer → Timer
counted n t = record t { counter = if t.enabled then (t.counter + n) % 2 ^ 32 else t.counter }

ticks-counted : (n : ℕ) (t : Timer) → t.counter < 2 ^ 32 → ticks n t ≡ counted n t
unfolding ticks retire_tick
ticks-counted zero t h = ap (λ (c : ℕ). record t { counter = c }) (ground arith)
ticks-counted (suc n) t h = ticks-counted n (retire_tick t) (ground arith) ∙ ground arith

-- After any number of retired instructions on a timer whose counter is a 32-bit word, each of the
-- four registers reads: COUNTER what it held, increased by that number modulo 2 ^ 32 if the timer
-- is enabled; COMPARE and CONTROL what they did; STATUS whether the timer is enabled and that
-- count equals the compare value.
pub read32-ticks :
    (n : ℕ) (t : Timer) (j : ℕ)
    → t.counter < 2 ^ 32
    → j < 4
    → read32 (ticks n t) (base_address + 4 * j) ≡ record {
      value =
          let counter = if t.enabled then (t.counter + n) % 2 ^ 32 else t.counter in
          if j == 0
          then counter
          else if j == 1
          then t.compare
          else if j == 2
          then (if t.enabled then 1 else 0)
          else if t.enabled && counter == t.compare
          then 1
          else 0;
      fault = none;
    }
unfolding read32
read32-ticks n t j h p =
    ap (λ (x : Timer). read32 x (base_address + 4 * j)) (ticks-counted n t h)
    ∙ ground (arith, and_low 2 (base_address + 4 * j))
