-- ===== src/CpuCore/Branches.antt =====
-- The tests of conditional branches, `CpuCore::branch_taken` of simulator/src/cpu_core.cpp.
use bit_computer_system.Base.{ℕ, ◌^◌, ◌<◌, ◌≡◌, ap, arith, not, ◌==◌, ltb_ℤ, signed32}
use bit_computer_system.Alu
use bit_computer_system.Alu.{execute, AluOperation}
use bit_computer_system.Alu.Signed.{signed_less_than_lem}
use bit_computer_system.Control.{BranchPredicate}
use bit_computer_system.CpuCore.{branch_taken, signed_less_than}

pub branch_taken_signed :
    (lhs rhs : ℕ)
    → lhs < 2 ^ 32
    → rhs < 2 ^ 32
    → (branch_taken BranchPredicate.signed_less_than lhs rhs ≡ ltb_ℤ (signed32 lhs) (signed32 rhs))
      × (branch_taken BranchPredicate.signed_greater_equal lhs rhs
          ≡ not (ltb_ℤ (signed32 lhs) (signed32 rhs)))
unfolding branch_taken Alu.signed_less_than
branch_taken_signed lhs rhs p q = (same, ap not same)
  where
    same : signed_less_than lhs rhs ≡ ltb_ℤ (signed32 lhs) (signed32 rhs)
    same = signed_less_than_lem lhs rhs p q

pub not_equal : (lhs rhs : ℕ) → branch_taken BranchPredicate.not_equal lhs rhs ≡ not (lhs == rhs)
unfolding branch_taken
not_equal lhs rhs = ground arith
