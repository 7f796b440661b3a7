-- ===== src/Text/Numerals.antt =====
-- Numbers written and read back.
use native.Mathlib.Nat.{pow-suc, mod-eq_of_lt}
use mathlib.Core.List.{append_assoc}
use bit_computer_system.Base.{
  ℕ, zero, suc, ◌+◌, ◌-◌, ◌*◌, ◌/◌, ◌%◌, ◌^◌, ◌≤◌, ◌<◌, ◌≡◌, refl, sym, ap, arith, Bool, true, leb,
  ltb, ◌&&◌, if◌then◌else◌, if_true, if_false, Bool-cases, inl, inr, List, [], ◌∷◌, ◌++◌, length,
  lt→ltb, le→ltb, ltb→lt, ltb_false→le,
}
use bit_computer_system.Text.{
  digit, digits, decimal, replicate, padded, hex, read_digits, is_decimal, leading, fine,
  from_digits, from_chars,
}

read_digits-append :
    (base n : ℕ) (xs ys : List ℕ)
    → read_digits base n (xs ++ ys) ≡ read_digits base (read_digits base n xs) ys
unfolding read_digits
read_digits-append base n [] ys = refl
read_digits-append base n (x ∷ xs) ys =
    read_digits-append base (n * base + (if leb x b'9' then x - b'0' else x - b'a' + 10)) xs ys

digit_back : (n d : ℕ) → d < 16 → read_digits 16 n (digit d ∷ []) ≡ n * 16 + d
unfolding read_digits digit
digit_back n d h = ground arith

digit_back_ten : (n d : ℕ) → d < 10 → read_digits 10 n (digit d ∷ []) ≡ n * 10 + d
unfolding read_digits digit
digit_back_ten n d h = ground arith

-- The `width` lowest digits to base 16.
unfoldable pub hex_digits : ℕ → ℕ → List ℕ
unfolding digit
hex_digits zero n = []
hex_digits (suc width) n = hex_digits width (n / 16) ++ digit (n % 16) ∷ []

length-append : (xs ys : List ℕ) → length (xs ++ ys) ≡ length xs + length ys
length-append [] ys = omega arith
length-append (x ∷ xs) ys = omega (arith, length-append xs ys)

length-hex_digits : (width n : ℕ) → length (hex_digits width n) ≡ width
unfolding hex_digits
length-hex_digits zero n = refl
length-hex_digits (suc width) n = omega (
  arith,
  length-append (hex_digits width (n / 16)) (digit (n % 16) ∷ []),
  length-hex_digits width (n / 16),
)

replicate_end : (k c : ℕ) → replicate k c ++ c ∷ [] ≡ replicate (suc k) c
unfolding replicate
replicate_end zero c = refl
replicate_end (suc k) c = ap (λ (l : List ℕ). c ∷ l) (replicate_end k c)

zero_digits : (k : ℕ) → hex_digits k 0 ≡ replicate k b'0'
unfolding hex_digits replicate
zero_digits zero = refl
zero_digits (suc k) = rw (zero_digits k) (replicate_end k b'0')

small_digits : (base rounds n : ℕ) → n < base → n ≤ rounds → digits base rounds n ≡ digit n ∷ []
unfolding digits
small_digits base zero n h r = rw (let e : n % base ≡ n = mod-eq_of_lt h in e) refl
small_digits base (suc rounds) n h r = if_true _ _ (lt→ltb n base h)

more_digits :
    (base rounds n : ℕ)
    → base ≤ n
    → digits base (suc rounds) n ≡ digits base rounds (n / base) ++ digit (n % base) ∷ []
unfolding digits
more_digits base rounds n h = if_false _ _ (le→ltb n base h)

padded-append :
    (width : ℕ) (xs : List ℕ) (c : ℕ)
    → padded (suc width) (xs ++ c ∷ []) ≡ padded width xs ++ c ∷ []
unfolding padded
padded-append width xs c =
    let e : suc width - length (xs ++ c ∷ []) ≡ width - length xs =
      omega (arith, length-append xs (c ∷ [])) in
    rw e (sym (append_assoc (replicate (width - length xs) b'0') xs (c ∷ [])))

padded_one : (width c : ℕ) → padded (suc width) (c ∷ []) ≡ replicate width b'0' ++ c ∷ []
unfolding padded
padded_one width c = rw (let e : suc width - 1 ≡ width = omega arith in e) refl

hex_small :
    (width rounds n : ℕ)
    → n < 16
    → n ≤ rounds
    → padded (suc width) (digits 16 rounds n) ≡ hex_digits (suc width) n
unfolding hex_digits
hex_small width rounds n small r =
    let q : n / 16 ≡ 0 = omega arith in
    let d : n % 16 ≡ n = omega arith in
    rw (small_digits 16 rounds n small r, padded_one, q, d, zero_digits width) refl

-- Padded to a width that is enough, a number has exactly its lowest digits.
hex_width :
    (width rounds n : ℕ)
    → n < 16 ^ suc width
    → n ≤ rounds
    → padded (suc width) (digits 16 rounds n) ≡ hex_digits (suc width) n
hex_width zero rounds n h r = hex_small 0 rounds n (omega arith) r
hex_width (suc width) zero n h r = hex_small (suc width) 0 n (omega arith) r
hex_width (suc width) (suc rounds) n h r = elim (Bool-cases (ltb n 16)) [
  | inl small ↦ hex_small (suc width) (suc rounds) n (ltb→lt n 16 small) r
  | inr large ↦
      rw
        (
          more_digits 16 rounds n (ltb_false→le n 16 large),
          padded-append,
          hex_width width rounds (n / 16) (omega (arith, pow-suc 16 (suc width))) (omega arith),
        )
        (unfold hex_digits in refl)
]

decimal_back : (rounds n : ℕ) → n ≤ rounds → read_digits 10 0 (digits 10 rounds n) ≡ n
decimal_back zero n h =
    rw (small_digits 10 0 n (omega arith) h) (omega (arith, digit_back_ten 0 n (omega arith)))
decimal_back (suc rounds) n h = elim (Bool-cases (ltb n 10)) [
  | inl small ↦
      rw (small_digits 10 (suc rounds) n (ltb→lt n 10 small) h)
        (omega (arith, digit_back_ten 0 n (ltb→lt n 10 small)))
  | inr large ↦
      rw
        (
          more_digits 10 rounds n (ltb_false→le n 10 large),
          read_digits-append 10 0 (digits 10 rounds (n / 10)) (digit (n % 10) ∷ []),
          decimal_back rounds (n / 10) (ground arith),
          digit_back_ten (n / 10) (n % 10) (omega arith),
        )
        (omega arith)
]

read-hex_digits : (width n : ℕ) → n < 16 ^ width → read_digits 16 0 (hex_digits width n) ≡ n
unfolding hex_digits read_digits
read-hex_digits zero n h = omega arith
read-hex_digits (suc width) n h =
    rw
      (
        read_digits-append 16 0 (hex_digits width (n / 16)) (digit (n % 16) ∷ []),
        read-hex_digits width (n / 16) (omega (arith, pow-suc 16 width)),
        digit_back (n / 16) (n % 16) (omega arith),
      )
      (omega arith)

-- The hexadecimal form of a number, padded to a width that is enough, has exactly that width, and
-- the number is read back from it.
pub hex_back :
    (width n : ℕ)
    → n < 16 ^ suc width
    → (length (hex (suc width) n) ≡ suc width) × (read_digits 16 0 (hex (suc width) n) ≡ n)
unfolding hex
hex_back width n h =
    rw (hex_width width n n h (omega arith))
      (length-hex_digits (suc width) n, read-hex_digits (suc width) n h)

-- A decimal number is read back.
pub decimal_digits : (n : ℕ) → read_digits 10 0 (decimal n) ≡ n
unfolding decimal
decimal_digits n = decimal_back n n (omega arith)

unfoldable pub all_decimal : List ℕ → Bool
all_decimal [] = true
all_decimal (c ∷ text) = is_decimal c && all_decimal text

all_decimal-append :
    (xs : List ℕ) (c : ℕ)
    → all_decimal xs ≡ true
    → is_decimal c ≡ true
    → all_decimal (xs ++ c ∷ []) ≡ true
unfolding all_decimal
all_decimal-append [] c h k = ground arith
all_decimal-append (x ∷ xs) c h k = ground (arith, all_decimal-append xs c)

decimal_digit : (d : ℕ) → d < 10 → is_decimal (digit d) ≡ true
unfolding digit
decimal_digit d h = ground arith

all_decimal-digits : (rounds n : ℕ) → all_decimal (digits 10 rounds n) ≡ true
unfolding digits all_decimal
all_decimal-digits zero n = ground (arith, decimal_digit (n % 10))
all_decimal-digits (suc rounds) n = elim (Bool-cases (ltb n 10)) [
  | inl small ↦ rw small (ground (arith, decimal_digit n))
  | inr large ↦ rw large (
      all_decimal-append (digits 10 rounds (n / 10)) (digit (n % 10))
        (all_decimal-digits rounds (n / 10)) (decimal_digit (n % 10) (omega arith)))
]

leading_all : (text : List ℕ) → all_decimal text ≡ true → leading text ≡ (text, [])
unfolding leading all_decimal
leading_all [] h = refl
leading_all (c ∷ text) h = ground (arith, leading_all text)

digits_some : (rounds n : ℕ) → 0 < length (digits 10 rounds n)
unfolding digits
digits_some zero n = omega arith
digits_some (suc rounds) n =
    ground (arith, length-append (digits 10 rounds (n / 10)) (digit (n % 10) ∷ []))

from_run :
    (text run : List ℕ)
    → 0 < length run
    → read_digits 10 0 run < 2 ^ 64
    → from_digits text run [] ≡ record { parsed = read_digits 10 0 run; rest = []; error = fine }
unfolding from_digits
from_run text [] h k = absurd (omega arith)
from_run text (c ∷ run) h k = if_true _ _ (lt→ltb (read_digits 10 0 (c ∷ run)) (2 ^ 64) k)

-- What is written as a decimal number is read by std::from_chars to its end.
pub from_chars-decimal :
    (n : ℕ) → n < 2 ^ 64 → from_chars (decimal n) ≡ record { parsed = n; rest = []; error = fine }
unfolding from_chars decimal
from_chars-decimal n h =
    let back = decimal_back n n (omega arith) in
    rw
      (
        leading_all (digits 10 n n) (all_decimal-digits n n),
        from_run (digits 10 n n) (digits 10 n n) (digits_some n n) (omega (arith, back)),
        back,
      )
      refl

pub decimal-all_decimal : (n : ℕ) → all_decimal (decimal n) ≡ true
unfolding decimal
decimal-all_decimal n = all_decimal-digits n n
