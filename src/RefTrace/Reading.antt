-- ===== src/RefTrace/Reading.antt =====
-- Reading back the lines that simulator/app/ref_trace.cpp writes of its records.
pub mod RoundTrip
use mathlib.Core.List.{append_assoc}
use bit_computer_system.Base.{
  ℕ, zero, suc, ◌^◌, ◌<◌, ◌≡◌, ◌∙◌, refl, sym, ap, arith, Bool, true, false, ◌==◌, if◌then◌else◌,
  Option, none, some, List, [], ◌∷◌, ◌++◌, length,
}
use bit_computer_system.Text.{codes, decimal, hex, read_digits, is_decimal, leading}
use bit_computer_system.Text.Numerals.{hex_back, decimal_digits, all_decimal, decimal-all_decimal}
use bit_computer_system.RefTrace.{Retire, has_value}
use bit_computer_system.RefTrace.Printing.{truth, value_or, emit_retire, emit_all, hex32}

-- A piece of a line: fixed text, a decimal number with a comma and fixed text behind it, eight
-- hexadecimal digits, or a truth value.
pub data Field : Type 0 where
  literal : List ℕ → Field
  number : ℕ → List ℕ → Field
  word : ℕ → Field
  flag : Bool → Field

unfoldable pub print : List Field → List ℕ → List ℕ
print [] rest = rest
print (literal t ∷ fields) rest = t ++ print fields rest
print (number n t ∷ fields) rest = decimal n ++ (b',' ∷ (t ++ print fields rest))
print (word n ∷ fields) rest = hex 8 n ++ print fields rest
print (flag b ∷ fields) rest = truth b ++ print fields rest

-- The pieces one after the other on a stream.
unfoldable pub onto : List ℕ → List Field → List ℕ
onto written [] = written
onto written (literal t ∷ fields) = onto (written ++ t) fields
onto written (number n t ∷ fields) = onto (written ++ decimal n ++ (b',' ∷ t)) fields
onto written (word n ∷ fields) = onto (written ++ hex 8 n) fields
onto written (flag b ∷ fields) = onto (written ++ truth b) fields

abbrev pub fields_of : Retire → List Field
fields_of r =
    literal (codes "{\"type\":\"retire\",\"index\":")
    ∷ number r.index (codes "\"pc\":\"")
    ∷ word r.pc
    ∷ literal (codes "\",\"instruction\":\"")
    ∷ word r.instruction
    ∷ literal (codes "\",\"next_pc\":\"")
    ∷ word r.next_pc
    ∷ literal (codes "\",\"reg_write\":")
    ∷ flag (has_value r.register_write)
    ∷ literal (codes ",\"rd\":")
    ∷ number (value_or 0 r.register_write) (codes "\"reg_value\":\"")
    ∷ word r.register_value
    ∷ literal (codes "\",\"mem_write\":")
    ∷ flag r.memory_write
    ∷ literal (codes ",\"mem_addr\":\"")
    ∷ word r.memory_address
    ∷ literal (codes "\",\"mem_value\":\"")
    ∷ word r.memory_value
    ∷ literal (codes "\"}\n")
    ∷ []

pub onto-print :
    (written : List ℕ) (fields : List Field) (rest : List ℕ)
    → onto written fields ++ rest ≡ written ++ print fields rest
unfolding onto print
onto-print written [] rest = refl
onto-print written (literal t ∷ fields) rest =
    onto-print (written ++ t) fields rest ∙ append_assoc written t (print fields rest)
onto-print written (number n t ∷ fields) rest =
    onto-print (written ++ decimal n ++ (b',' ∷ t)) fields rest
    ∙ append_assoc (written ++ decimal n) (b',' ∷ t) (print fields rest)
    ∙ append_assoc written (decimal n) (b',' ∷ (t ++ print fields rest))
onto-print written (word n ∷ fields) rest =
    onto-print (written ++ hex 8 n) fields rest ∙ append_assoc written (hex 8 n) (print fields rest)
onto-print written (flag b ∷ fields) rest =
    onto-print (written ++ truth b) fields rest ∙ append_assoc written (truth b) (print fields rest)

pub line-fields : (r : Retire) → emit_retire r ≡ onto [] (fields_of r)
unfolding emit_retire hex32 onto
line-fields r = refl

-- What a reader expects of a line, and the values it finds.
pub data Shape : Type 0 where
  fixed : List ℕ → Shape
  numeral : List ℕ → Shape
  digits8 boolean : Shape

abbrev shape_of : Field → Shape
shape_of (literal t) = fixed t
shape_of (number n t) = numeral t
shape_of (word n) = digits8
shape_of (flag b) = boolean

abbrev and_then {ℓ κ} : {A : Type ℓ} {B : Type κ} → Option A → (A → Option B) → Option B
and_then none f = none
and_then (some a) f = f a

unfoldable pub skip : List ℕ → List ℕ → Option (List ℕ)
skip [] text = some text
skip (c ∷ prefix) [] = none
skip (c ∷ prefix) (b ∷ text) = let rest = skip prefix text in if b == c then rest else none

unfoldable pub split : ℕ → List ℕ → Option (List ℕ × List ℕ)
split zero text = some ([], text)
split (suc n) [] = none
split (suc n) (c ∷ text) =
    and_then (split n text) (λ ((front, rest) : List ℕ × List ℕ). some (c ∷ front, rest))

-- A truth value as a number.
unfoldable pub truth_read : List ℕ → Option (ℕ × List ℕ)
unfolding skip
truth_read text = elim (skip (codes "true") text) [
  | some rest ↦ some (1, rest)
  | none ↦ and_then (skip (codes "false") text) (λ (rest : List ℕ). some (0, rest))
]

unfoldable pub read : List Shape → List ℕ → Option (List ℕ × List ℕ)
read [] text = some ([], text)
read (fixed t ∷ shapes) text = and_then (skip t text) (read shapes)
read (numeral t ∷ shapes) text =
    let (run, rest) = leading text in
    and_then (skip (b',' ∷ t) rest) (λ (left : List ℕ).
      and_then (read shapes left)
        (λ ((values, end) : List ℕ × List ℕ). some (read_digits 10 0 run ∷ values, end)))
read (digits8 ∷ shapes) text = and_then (split 8 text) (λ ((front, left) : List ℕ × List ℕ).
    and_then (read shapes left)
      (λ ((values, end) : List ℕ × List ℕ). some (read_digits 16 0 front ∷ values, end)))
read (boolean ∷ shapes) text = and_then (truth_read text) (λ ((b, left) : ℕ × List ℕ).
    and_then (read shapes left) (λ ((values, end) : List ℕ × List ℕ). some (b ∷ values, end)))

abbrev pub retire_of : List ℕ → Option Retire
retire_of
      (index ∷ pc ∷ fetched ∷ next_pc ∷ written ∷ rd ∷ value ∷ stored ∷ address ∷ data_word ∷ []) =
    some (record {
      index = index;
      pc = pc;
      instruction = fetched;
      next_pc = next_pc;
      register_write = if written == 1 then some rd else none;
      register_value = value;
      memory_write = stored == 1;
      memory_address = address;
      memory_value = data_word;
    })
retire_of _ = none

-- The shape of every line.
abbrev pub line_shape : List Shape
line_shape =
    fixed (codes "{\"type\":\"retire\",\"index\":")
    ∷ numeral (codes "\"pc\":\"")
    ∷ digits8
    ∷ fixed (codes "\",\"instruction\":\"")
    ∷ digits8
    ∷ fixed (codes "\",\"next_pc\":\"")
    ∷ digits8
    ∷ fixed (codes "\",\"reg_write\":")
    ∷ boolean
    ∷ fixed (codes ",\"rd\":")
    ∷ numeral (codes "\"reg_value\":\"")
    ∷ digits8
    ∷ fixed (codes "\",\"mem_write\":")
    ∷ boolean
    ∷ fixed (codes ",\"mem_addr\":\"")
    ∷ digits8
    ∷ fixed (codes "\",\"mem_value\":\"")
    ∷ digits8
    ∷ fixed (codes "\"}\n")
    ∷ []

-- A line, and what is behind it.
unfoldable pub read_line : List ℕ → Option (Retire × List ℕ)
unfolding read
read_line text = and_then (read line_shape text) (λ ((values, rest) : List ℕ × List ℕ).
    and_then (retire_of values) (λ (r : Retire). some (r, rest)))

-- So many lines, and what is behind them.
unfoldable pub read_lines : ℕ → List ℕ → Option (List Retire × List ℕ)
unfolding read_line
read_lines zero text = some ([], text)
read_lines (suc n) text = and_then (read_line text) (λ ((r, left) : Retire × List ℕ).
    and_then (read_lines n left)
      (λ ((records, rest) : List Retire × List ℕ). some (r ∷ records, rest)))
