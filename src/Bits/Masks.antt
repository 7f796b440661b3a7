-- ===== src/Bits/Masks.antt =====
-- Masks and joined fields as arithmetic.
use native.Mathlib.Nat.{pow-suc, one-le-pow}
use mathlib.Core.Path.{ap₂}
use bit_computer_system.Base.{
  ℕ, zero, suc, ◌+◌, ◌-◌, ◌*◌, ◌/◌, ◌%◌, ◌^◌, ◌≤◌, ◌<◌, bit_and, bit_or, ◌≡◌, refl, ap, arith,
}
use bit_computer_system.Bits.Digits.{and_IsDigitwise, or_IsDigitwise, div-two-pow}
open and_IsDigitwise use {lowest as and_lowest}
open or_IsDigitwise use {lowest as or_lowest}

-- Facts at every number, from those at its halves.
halving :
    (P : ℕ → Type 0) → P 0 → ((n : ℕ) → P (suc n / 2) → P (suc n)) → (fuel n : ℕ) → n ≤ fuel → P n
halving P base step fuel zero h = base
halving P base step zero (suc n) h = absurd (omega arith)
halving P base step (suc fuel) (suc n) h =
    step n (halving P base step fuel (suc n / 2) (omega arith))

and-zero : (a : ℕ) → bit_and a 0 ≡ 0
and-zero a =
    halving (λ n. bit_and n 0 ≡ 0) refl (λ n ih. omega (arith, and_lowest (suc n) 0)) a a
      (omega arith)

or-zero : (a : ℕ) → bit_or a 0 ≡ a
or-zero a =
    halving (λ n. bit_or n 0 ≡ n) refl (λ n ih. omega (arith, or_lowest (suc n) 0)) a a
      (omega arith)

zero-or : (b : ℕ) → bit_or 0 b ≡ b
zero-or b =
    halving (λ n. bit_or 0 n ≡ n) refl (λ n ih. omega (arith, or_lowest 0 (suc n))) b b
      (omega arith)

two-pow-suc-mul : (q k : ℕ) → q * 2 ^ suc k ≡ q * 2 ^ k * 2
two-pow-suc-mul q k = omega (arith, ap (λ (t : ℕ). q * t) (pow-suc 2 k))

-- A mask of the `k` lowest bits is the remainder by `2 ^ k`.
and_low_sum : (k q r : ℕ) → r < 2 ^ k → bit_and (q * 2 ^ k + r) (2 ^ k - 1) ≡ r
and_low_sum zero q r h = rw and-zero (omega arith)
and_low_sum (suc k) q r h = omega (
  arith,
  and_lowest (q * 2 ^ suc k + r) (2 ^ suc k - 1),
  two-pow-suc-mul q k,
  pow-suc 2 k,
  halves,
  and_low_sum k q (r / 2) (omega (arith, pow-suc 2 k)),
)
  where
    halves :
        bit_and ((q * 2 ^ suc k + r) / 2) ((2 ^ suc k - 1) / 2)
        ≡ bit_and (q * 2 ^ k + r / 2) (2 ^ k - 1)
    halves =
        ap₂ bit_and (omega (arith, two-pow-suc-mul q k))
          (omega (arith, pow-suc 2 k, one-le-pow k 2))

pub and_low : (k a : ℕ) → bit_and a (2 ^ k - 1) ≡ a % 2 ^ k
and_low k a = ground (arith, one-le-pow k 2, and_low_sum k (a / 2 ^ k) (a % 2 ^ k))

-- A mask of bit `k` alone.
pub and_bit : (k a : ℕ) → bit_and a (2 ^ k) ≡ a / 2 ^ k % 2 * 2 ^ k
and_bit zero a = omega (arith, and_lowest a 1, and-zero (a / 2))
and_bit (suc k) a =
    rw (and_lowest, half_mask, and_bit k (a / 2), div-two-pow a k)
      (omega (arith, two-pow-suc-mul (a / 2 / 2 ^ k % 2) k, pow-suc 2 k))
  where
    half_mask : 2 ^ suc k / 2 ≡ 2 ^ k
    half_mask = omega (arith, pow-suc 2 k)

half_of_high : (q k : ℕ) → q * 2 ^ suc k / 2 ≡ q * 2 ^ k
half_of_high q k = omega (arith, two-pow-suc-mul q k)

-- `|` of two fields that do not meet is their sum.
pub or_high_low : (k q r : ℕ) → r < 2 ^ k → bit_or (q * 2 ^ k) r ≡ q * 2 ^ k + r
or_high_low zero q r h = rw (let e : r ≡ 0 = omega arith in e) (rw or-zero (omega arith))
or_high_low (suc k) q r h =
    rw (or_lowest, half_of_high q k, or_high_low k q (r / 2) (omega (arith, pow-suc 2 k)))
      (omega (arith, two-pow-suc-mul q k))

pub or_low_high : (k q r : ℕ) → r < 2 ^ k → bit_or r (q * 2 ^ k) ≡ r + q * 2 ^ k
or_low_high zero q r h = rw (let e : r ≡ 0 = omega arith in e) (rw zero-or (omega arith))
or_low_high (suc k) q r h =
    rw (or_lowest, half_of_high q k, or_low_high k q (r / 2) (omega (arith, pow-suc 2 k)))
      (omega (arith, two-pow-suc-mul q k))
