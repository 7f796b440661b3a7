-- ===== src/Alu/Shifts.antt =====
-- Shifts use the five low bits of the right operand.
use native.Mathlib.Nat.{
  mul-div_cancel, mod-lt, mod-eq_of_lt, add-mul-mod_self_right, mod-add-div', one-le-pow, pow-suc,
  zero-add, suc-add,
}
use mathlib.Core.Path.{◌≡⟨◌⟩◌, ◌∎}
use bit_computer_system.Base.{
  ℕ, zero, suc, ap, ◌∙◌, refl, ◌+◌, ◌-◌, ◌*◌, ◌/◌, ◌%◌, ◌^◌, ◌<◌, arith, ◌≡◌,
}
use bit_computer_system.Bits.{and_low}
use bit_computer_system.Alu.{shift_left, shift_right, execute}

-- SHL is multiplication by two to the power of the shift amount modulo 32, wrapped to 32 bits, and
-- SHR the quotient by it.
pub execute-shift :
    (lhs rhs : ℕ)
    → (execute shift_left lhs rhs ≡ lhs * 2 ^ (rhs % 32) % 2 ^ 32)
      × (execute shift_right lhs rhs ≡ lhs / 2 ^ (rhs % 32))
unfolding execute
execute-shift lhs rhs = rw (and_low 5 rhs) (refl, refl)

two-pow-add : (m n : ℕ) → 2 ^ (m + n) ≡ 2 ^ m * 2 ^ n
two-pow-add zero n = rw zero-add (omega arith)
two-pow-add (suc m) n = rw (suc-add, pow-suc 2 (m + n), pow-suc 2 m, two-pow-add m n) (omega arith)

scaled_mod : (l q p : ℕ) → 0 < p → 0 < q → l * p % (q * p) ≡ l % q * p
scaled_mod l q p hp hq =
    l * p % (q * p)
    ≡⟨ ap (λ (n : ℕ). n % (q * p)) parts ⟩ (l % q * p + l / q * (q * p)) % (q * p)
    ≡⟨ add-mul-mod_self_right (l % q * p) (l / q) (q * p) ⟩ l % q * p % (q * p)
    ≡⟨ mod-eq_of_lt (small (l % q) (mod-lt l hq)) ⟩ l % q * p ∎
  where
    parts : l * p ≡ l % q * p + l / q * (q * p)
    parts = omega (arith, ap (λ (n : ℕ). n * p) (mod-add-div' l q))

    small : (r : ℕ) → r < q → r * p < q * p
    small r h = grind arith

-- Shifting left and then right by the same amount leaves the low bits of the operand that were not
-- pushed out, its remainder by two to the power of 32 minus the amount modulo 32.
pub execute-shift_back :
    (lhs rhs : ℕ) → execute shift_right (execute shift_left lhs rhs) rhs ≡ lhs % 2 ^ (32 - rhs % 32)
execute-shift_back lhs rhs =
    rw ((execute-shift (execute shift_left lhs rhs) rhs).1, (execute-shift lhs rhs).0, split)
      (rw (scaled_mod lhs _ _ (pos (rhs % 32)) (pos (32 - rhs % 32)))
        (mul-div_cancel _ (pos (rhs % 32))))
  where
    pos : (n : ℕ) → 0 < 2 ^ n
    pos n = one-le-pow n 2 (omega arith)

    whole : 32 ≡ 32 - rhs % 32 + rhs % 32
    whole = omega arith

    split : 2 ^ 32 ≡ 2 ^ (32 - rhs % 32) * 2 ^ (rhs % 32)
    split = ap (λ (n : ℕ). 2 ^ n) whole ∙ two-pow-add (32 - rhs % 32) (rhs % 32)
