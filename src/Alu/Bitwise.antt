-- ===== src/Alu/Bitwise.antt =====
-- AND, OR and XOR bit by bit.
use Prim.Native.Nat.{min, max, differ}
use bit_computer_system.Base.{ℕ, ◌/◌, ◌%◌, ◌^◌, ◌≡◌}
use bit_computer_system.Bits.{digit_at, and_IsDigitwise, or_IsDigitwise, xor-IsDigitwise}
use bit_computer_system.Alu.{and, or, xor, execute}

-- Bit `i` of the word `w`.
abbrev pub bit : ℕ → ℕ → ℕ
bit i w = w / 2 ^ i % 2

-- At every position the bit of AND is the smaller of the operands' bits, that of OR the larger,
-- and that of XOR one if they differ.
pub execute-bit :
    (i lhs rhs : ℕ)
    → (bit i (execute and lhs rhs) ≡ min (bit i lhs) (bit i rhs))
      × (bit i (execute or lhs rhs) ≡ max (bit i lhs) (bit i rhs))
      × (bit i (execute xor lhs rhs) ≡ differ (bit i lhs) (bit i rhs))
unfolding execute
execute-bit i lhs rhs = (
  digit_at and_IsDigitwise i lhs rhs,
  digit_at or_IsDigitwise i lhs rhs,
  digit_at xor-IsDigitwise i lhs rhs,
)
