-- ===== src/Bits/Digits.antt =====
-- `&`, `|` and `^` act on each binary digit alone.
use Prim.Native.Nat.{min, max, differ, digits, bitwise}
use Prim.Native.Nat.{bit_and-bitwise, bit_or-bitwise, bit_xor-bitwise}
use native.Mathlib.Nat.{pow-suc, pow-succ', div-one, div-div-eq-div-mul}
use bit_computer_system.Base.{
  ℕ, zero, suc, ◌+◌, ◌*◌, ◌/◌, ◌%◌, ◌^◌, ◌≤◌, ◌<◌, bit_and, bit_or, bit_xor, ◌≡◌, refl, arith,
}

-- `op` works digit by digit, as `f` does on two digits.
pub record IsDigitwise (op f : ℕ → ℕ → ℕ) : Type 0 where
  pub lowest : (a b : ℕ) → op a b ≡ op (a / 2) (b / 2) * 2 + f (a % 2) (b % 2)
  pub keeps_zero : f 0 0 ≡ 0
  pub digit : (x y : ℕ) → x < 2 → y < 2 → f x y < 2

-- `digits` counts the digits that are left. Past the last digit of the left operand the count is
-- of no matter.
module _ (rest : ℕ → ℕ) (f : ℕ → ℕ → ℕ) where
  digits-zero : (count b : ℕ) → digits rest f count 0 b ≡ rest b
  digits-zero zero b = refl
  digits-zero (suc count) b = refl

  digits_enough :
      (a b count more : ℕ)
      → (a ≤ count) × (a ≤ more)
      → digits rest f more a b ≡ digits rest f count a b
  digits_enough zero b count more h = rw (digits-zero count b, digits-zero more b) refl
  digits_enough (suc a) b (suc count) (suc more) h =
      rw (digits_enough (suc a / 2) (b / 2) count more (omega arith)) refl
  digits_enough (suc a) b zero more (h, _) = absurd (omega arith)
  digits_enough (suc a) b (suc count) zero (_, h) = absurd (omega arith)

  bitwise_lowest :
      (a b : ℕ)
      → bitwise rest f (suc a) b ≡ bitwise rest f (suc a / 2) (b / 2) * 2 + f (suc a % 2) (b % 2)
  bitwise_lowest a b =
      let half = suc a / 2 in omega (arith, digits_enough half (b / 2) half a (omega arith))

and_lowest : (a b : ℕ) → bit_and a b ≡ bit_and (a / 2) (b / 2) * 2 + min (a % 2) (b % 2)
and_lowest zero b = simp bit_and-bitwise (omega arith)
and_lowest (suc a) b = simp bit_and-bitwise (bitwise_lowest (λ y. 0) min a b)

or_lowest : (a b : ℕ) → bit_or a b ≡ bit_or (a / 2) (b / 2) * 2 + max (a % 2) (b % 2)
or_lowest zero b = simp bit_or-bitwise (omega arith)
or_lowest (suc a) b = simp bit_or-bitwise (bitwise_lowest (λ y. y) max a b)

xor_lowest : (a b : ℕ) → bit_xor a b ≡ bit_xor (a / 2) (b / 2) * 2 + differ (a % 2) (b % 2)
xor_lowest zero b = simp bit_xor-bitwise (omega arith)
xor_lowest (suc a) b = simp bit_xor-bitwise (bitwise_lowest (λ n. n) differ a b)

differ-lt : (x y : ℕ) → x < 2 → y < 2 → differ x y < 2
differ-lt zero y p q = q
differ-lt (suc x) zero p q = p
differ-lt (suc x) (suc y) p q = differ-lt x y (omega arith) (omega arith)

pub and_IsDigitwise : IsDigitwise bit_and min
and_IsDigitwise = record { lowest = and_lowest; keeps_zero = refl; digit = λ x y p q. omega arith }

pub or_IsDigitwise : IsDigitwise bit_or max
or_IsDigitwise = record { lowest = or_lowest; keeps_zero = refl; digit = λ x y p q. omega arith }

pub xor-IsDigitwise : IsDigitwise bit_xor differ
xor-IsDigitwise = record { lowest = xor_lowest; keeps_zero = refl; digit = differ-lt }

pub div-two-pow : (x i : ℕ) → x / 2 ^ suc i ≡ x / 2 / 2 ^ i
div-two-pow x i = rw (div-div-eq-div-mul, pow-succ') refl

module _ {op f : ℕ → ℕ → ℕ} (d : IsDigitwise op f) where
  lowest_digit : (a b : ℕ) → op a b % 2 ≡ f (a % 2) (b % 2)
  lowest_digit a b =
      omega (arith, d.lowest a b, d.digit (a % 2) (b % 2) (omega arith) (omega arith))

  -- A result fits in the width of its operands.
  pub digitwise-lt : (k a b : ℕ) → a < 2 ^ k → b < 2 ^ k → op a b < 2 ^ k
  digitwise-lt zero zero zero p q = omega (arith, d.lowest 0 0, d.keeps_zero)
  digitwise-lt zero (suc a) b p q = absurd (omega arith)
  digitwise-lt zero zero (suc b) p q = absurd (omega arith)
  digitwise-lt (suc k) a b p q = omega (
    arith,
    pow-suc 2 k,
    d.lowest a b,
    d.digit (a % 2) (b % 2) (omega arith) (omega arith),
    digitwise-lt k (a / 2) (b / 2) (omega (arith, pow-suc 2 k)) (omega (arith, pow-suc 2 k)),
  )

  halve : (a b : ℕ) → op a b / 2 ≡ op (a / 2) (b / 2)
  halve a b = omega (arith, d.lowest a b, d.digit (a % 2) (b % 2) (omega arith) (omega arith))

  -- Digit `i` of a result is made of the digits `i` of the operands.
  pub digit_at : (i a b : ℕ) → op a b / 2 ^ i % 2 ≡ f (a / 2 ^ i % 2) (b / 2 ^ i % 2)
  digit_at zero a b = rw (div-one, div-one, div-one) (lowest_digit a b)
  digit_at (suc i) a b =
      rw (div-two-pow, div-two-pow, div-two-pow, halve) (digit_at i (a / 2) (b / 2))
