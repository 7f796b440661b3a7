-- ===== src/Text.antt =====
-- The parts of the C++ standard library by which simulator/app/ writes and reads numbers: unsigned
-- numbers on a stream (std::hex, std::setw, std::setfill) and std::from_chars. A text is the list
-- of its bytes.
pub mod Numerals
use Prim.Native.Char.{code}
use Prim.Native.String.{String}
use bit_computer_system.Base.{
  ℕ, zero, suc, ◌+◌, ◌-◌, ◌*◌, ◌/◌, ◌%◌, ◌^◌, Bool, true, false, leb, ltb, ◌&&◌, if◌then◌else◌,
  Option, none, some, List, [], ◌∷◌, ◌++◌, length,
}

-- The bytes of a literal.
abbrev pub codes : String → List ℕ
codes String.[] = []
codes (String.◌∷◌ c s) = code c ∷ codes s

-- A digit below 16, in lower case.
unfoldable pub digit : ℕ → ℕ
digit n = if ltb n 10 then b'0' + n else b'a' + (n - 10)

-- The digits of `n`, the most significant first, no more than needed; each round has one digit.
unfoldable pub digits : ℕ → ℕ → ℕ → List ℕ
unfolding digit
digits base zero n = digit (n % base) ∷ []
digits base (suc rounds) n =
    let higher = digits base rounds (n / base) ++ digit (n % base) ∷ [] in
    if ltb n base then digit n ∷ [] else higher

-- `std::dec` and an unsigned number.
unfoldable pub decimal : ℕ → List ℕ
unfolding digits
decimal n = digits 10 n n

unfoldable pub replicate : ℕ → ℕ → List ℕ
replicate zero c = []
replicate (suc n) c = c ∷ replicate n c

-- `std::setw(width) << std::setfill('0')` in front of a text.
unfoldable pub padded : ℕ → List ℕ → List ℕ
unfolding replicate
padded width text = replicate (width - length text) b'0' ++ text

-- `std::hex`, padded to a width.
unfoldable pub hex : ℕ → ℕ → List ℕ
unfolding digits padded
hex width n = padded width (digits 16 n n)

-- The number that a text of digits stands for.
unfoldable pub read_digits : ℕ → ℕ → List ℕ → ℕ
read_digits base n [] = n
read_digits base n (c ∷ text) =
    read_digits base (n * base + (if leb c b'9' then c - b'0' else c - b'a' + 10)) text

abbrev pub is_decimal : ℕ → Bool
is_decimal c = leb b'0' c && leb c b'9'

-- The longest run of digits in front, and what is behind it.
unfoldable pub leading : List ℕ → List ℕ × List ℕ
leading [] = ([], [])
leading (c ∷ text) =
    let (run, rest) = leading text in if is_decimal c then (c ∷ run, rest) else ([], c ∷ text)

pub data Errc : Type 0 where
  fine invalid_argument result_out_of_range : Errc

-- `std::from_chars` for an unsigned long long of 64 bits: the number, what is behind the end that it
-- gives, and the error.
pub record FromChars : Type 0 where
  pub parsed : ℕ
  pub rest : List ℕ
  pub error : Errc

unfoldable pub from_digits : List ℕ → List ℕ → List ℕ → FromChars
unfolding read_digits
from_digits text [] rest = record { parsed = 0; rest = text; error = invalid_argument }
from_digits text (c ∷ run) rest =
    let n = read_digits 10 0 (c ∷ run) in
    if ltb n (2 ^ 64)
    then record { parsed = n; rest = rest; error = fine }
    else record { parsed = 0; rest = rest; error = result_out_of_range }

unfoldable pub from_chars : List ℕ → FromChars
unfolding leading from_digits
from_chars text = let (run, rest) = leading text in from_digits text run rest

abbrev pub is_fine : Errc → Bool
is_fine Errc.fine = true
is_fine Errc.invalid_argument = false
is_fine Errc.result_out_of_range = false

abbrev pub is_empty : List ℕ → Bool
is_empty [] = true
is_empty (c ∷ text) = false

-- `std::numeric_limits<std::size_t>::max()` of a 64-bit host.
abbrev pub size_max : ℕ
size_max = 2 ^ 64 - 1
