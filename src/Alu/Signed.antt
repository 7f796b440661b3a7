-- ===== src/Alu/Signed.antt =====
-- Signed comparison against the integers.
use bit_computer_system.Base.{ℕ, ◌^◌, ◌<◌, arith, ◌≡◌, ltb_ℤ, signed32, if◌then◌else◌}
use bit_computer_system.Bits.{and_bit}
use bit_computer_system.Alu.{slt, execute, signed_less_than}

-- The sign-bit test decides the order of the integers that two words stand for.
pub signed_less_than_lem :
    (lhs rhs : ℕ)
    → lhs < 2 ^ 32
    → rhs < 2 ^ 32
    → signed_less_than lhs rhs ≡ ltb_ℤ (signed32 lhs) (signed32 rhs)
unfolding signed_less_than
signed_less_than_lem lhs rhs p q = ground (arith, and_bit 31 lhs, and_bit 31 rhs)

-- On 32-bit words SLT gives 1 when the integer of the left word is below that of the right word,
-- and 0 otherwise.
pub execute-slt :
    (lhs rhs : ℕ)
    → lhs < 2 ^ 32
    → rhs < 2 ^ 32
    → execute slt lhs rhs ≡ (if ltb_ℤ (signed32 lhs) (signed32 rhs) then 1 else 0)
unfolding execute
execute-slt lhs rhs p q = ground (arith, and_bit 31 lhs, and_bit 31 rhs)
