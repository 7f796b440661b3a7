-- ===== src/RefTrace/Reading/RoundTrip.antt =====
-- The records of simulator/app/ref_trace.cpp are read back from its lines.
use mathlib.Core.List.{append_assoc}
use bit_computer_system.Base.{
  ℕ, ◌^◌, ◌<◌, ◌≡◌, ◌∙◌, refl, sym, ap, ap₂, arith, Bool, true, false, ◌==◌, if◌then◌else◌, Option,
  none, some, List, [], ◌∷◌, ◌++◌, length, map,
}
use bit_computer_system.Text.{decimal, hex, is_decimal, leading}
use bit_computer_system.Text.Numerals.{hex_back, decimal_digits, all_decimal, decimal-all_decimal}
use bit_computer_system.RefTrace.{Retire, has_value}
use bit_computer_system.RefTrace.Printing.{truth, value_or, emit_retire, emit_all}
use bit_computer_system.RefTrace.Reading.{
  Field, literal, number, word, flag, print, fields_of, onto-print, line-fields, shape_of, and_then,
  skip, split, truth_read, read, retire_of, line_shape, read_line, read_lines,
}

skip-append : (t rest : List ℕ) → skip t (t ++ rest) ≡ some rest
unfolding skip
skip-append [] rest = refl
skip-append (c ∷ t) rest = ground (arith, skip-append t rest)

split-append : (t rest : List ℕ) → split (length t) (t ++ rest) ≡ some (t, rest)
unfolding split
split-append [] rest = refl
split-append (c ∷ t) rest = rw (split-append t rest) refl

leading-append :
    (run : List ℕ) (c : ℕ) (rest : List ℕ)
    → all_decimal run ≡ true
    → is_decimal c ≡ false
    → leading (run ++ (c ∷ rest)) ≡ (run, c ∷ rest)
unfolding leading all_decimal
leading-append [] c rest h k = ground arith
leading-append (b ∷ run) c rest h k = ground (arith, leading-append run c rest)

abbrev bit : Bool → ℕ
bit b = if b then 1 else 0

truth_back : (b : Bool) (rest : List ℕ) → truth_read (truth b ++ rest) ≡ some (bit b, rest)
unfolding truth_read
truth_back true rest = refl
truth_back false rest = refl

abbrev values_of : List Field → List ℕ
values_of [] = []
values_of (literal t ∷ fields) = values_of fields
values_of (number n t ∷ fields) = n ∷ values_of fields
values_of (word n ∷ fields) = n ∷ values_of fields
values_of (flag b ∷ fields) = bit b ∷ values_of fields

-- Every word has 32 bits.
abbrev AreShort : List Field → Type 0
AreShort [] = Unit {0}
AreShort (literal t ∷ fields) = AreShort fields
AreShort (number n t ∷ fields) = AreShort fields
AreShort (word n ∷ fields) = (n < 2 ^ 32) × AreShort fields
AreShort (flag b ∷ fields) = AreShort fields

abbrev cons_value : ℕ → List ℕ × List ℕ → Option (List ℕ × List ℕ)
cons_value v (values, end) = some (v ∷ values, end)

read-print :
    (fields : List Field) (rest : List ℕ)
    → AreShort fields
    → read (map shape_of fields) (print fields rest) ≡ some (values_of fields, rest)
unfolding read print
read-print [] rest h = refl
read-print (literal t ∷ fields) rest h =
    ap (λ x. and_then x (read (map shape_of fields))) (skip-append t (print fields rest))
    ∙ read-print fields rest h
read-print (number n t ∷ fields) rest h =
    rw
      (
        leading-append (decimal n) b',' (t ++ print fields rest) (decimal-all_decimal n) refl,
        skip-append (b',' ∷ t) (print fields rest),
        read-print fields rest h,
        decimal_digits n,
      )
      refl
read-print (word n ∷ fields) rest (small, h) =
    let (long, back) = hex_back 7 n small in
    let halves : split 8 (hex 8 n ++ print fields rest) ≡ some (hex 8 n, print fields rest) =
      ap (λ k. split k (hex 8 n ++ print fields rest)) (sym long)
      ∙ split-append (hex 8 n) (print fields rest) in
    rw (halves, read-print fields rest h, back) refl
read-print (flag b ∷ fields) rest h =
    rw (truth_back b (print fields rest), read-print fields rest h) refl

-- The addresses and values of a record have 32 bits.
pub record IsShort (r : Retire) : Type 0 where
  pub pc : r.pc < 2 ^ 32
  pub instruction : r.instruction < 2 ^ 32
  pub next_pc : r.next_pc < 2 ^ 32
  pub register_value : r.register_value < 2 ^ 32
  pub memory_address : r.memory_address < 2 ^ 32
  pub memory_value : r.memory_value < 2 ^ 32

abbrev pub AreAllShort : List Retire → Type 0
AreAllShort [] = Unit {0}
AreAllShort (r ∷ records) = IsShort r × AreAllShort records

bit_back : (b : Bool) → (bit b == 1) ≡ b
bit_back true = refl
bit_back false = refl

write_back :
    (written : Option ℕ)
    → (if bit (has_value written) == 1 then some (value_or 0 written) else none) ≡ written
write_back none = refl
write_back (some rd) = refl

retire_back : (r : Retire) → retire_of (values_of (fields_of r)) ≡ some r
retire_back r =
    ap₂ (λ (w : Option ℕ) (b : Bool). some (record r { register_write = w; memory_write = b }))
      (write_back r.register_write) (bit_back r.memory_write)

fields_of-AreShort : (r : Retire) → IsShort r → AreShort (fields_of r)
fields_of-AreShort r h = (
  h.pc,
  (h.instruction, (h.next_pc, (h.register_value, (h.memory_address, (h.memory_value, tt))))),
)

line_back :
    (r : Retire) (rest : List ℕ) → IsShort r → read_line (emit_retire r ++ rest) ≡ some (r, rest)
unfolding read_line
line_back r rest h =
    let text : emit_retire r ++ rest ≡ print (fields_of r) rest =
      ap (λ x. x ++ rest) (line-fields r) ∙ onto-print [] (fields_of r) rest in
    let values =
      ap (read line_shape) text ∙ read-print (fields_of r) rest (fields_of-AreShort r h) in
    ap
      (λ x. and_then x (λ ((fields, end) : List ℕ × List ℕ).
        and_then (retire_of fields) (λ (s : Retire). some (s, end))))
      values
    ∙ ap (λ x. and_then x (λ (s : Retire). some (s, rest))) (retire_back r)

-- For records whose addresses and values have 32 bits, a reader of as many lines gets them back,
-- in order, from the lines that are printed of them with any text behind, and leaves that text.
pub read_lines-emit_all :
    (records : List Retire) (rest : List ℕ)
    → AreAllShort records
    → read_lines (length records) (emit_all records ++ rest) ≡ some (records, rest)
unfolding read_lines emit_all
read_lines-emit_all [] rest h = refl
read_lines-emit_all (r ∷ records) rest (short, all_short) =
    let line : read_line (emit_retire r ++ emit_all records ++ rest)
        ≡ some (r, emit_all records ++ rest) =
      ap read_line (append_assoc (emit_retire r) (emit_all records) rest)
      ∙ line_back r (emit_all records ++ rest) short in
    rw (line, read_lines-emit_all records rest all_short) refl
