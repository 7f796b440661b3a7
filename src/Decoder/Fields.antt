-- ===== src/Decoder/Fields.antt =====
-- The fields of an instruction word by division.
use bit_computer_system.Base.{
  ℕ, not-leb, Bool-cases, if_true, if_false, inl, inr, ◌⊎◌, none, some, ltb, ◌/◌, ◌%◌, ◌^◌, ◌<◌,
  ◌≡◌, ◌∙◌, refl, arith, Bool, true, false, ◌&&◌, ◌||◌, ◌==◌, ◌!=◌, if◌then◌else◌, u8, ◌>>>◌,
  all_below, all_below-holds, ==_iff,
}
use bit_computer_system.Bits.{and_low}
use bit_computer_system.Opcode.{Opcode, code, to_opcode, unnamed, halt, nop, lui, same_opcode}
use bit_computer_system.Decoder.{
  DecodedInstruction, DecodeError, illegal_opcode, malformed_encoding, InstructionFormat, r_format,
  i_format, s_format, b_format, j_format, jr_format, is_r, is_jr, format_for, fields, is_malformed,
  decode,
}

code_table : all_below (λ raw. code (to_opcode raw) == raw) 24 ≡ true
unfolding all_below to_opcode
code_table = refl

-- The underlying value of an opcode is the number that it was cast from.
pub code-to_opcode : (raw : ℕ) → raw < 24 → code (to_opcode raw) ≡ raw
code-to_opcode raw h =
    (==_iff _ raw).0 (all_below-holds (λ raw. code (to_opcode raw) == raw) 24 raw h code_table)

abbrev pub is_named : Opcode → Bool
is_named (unnamed raw) = false
is_named _ = true

named_table : all_below (λ raw. is_named (to_opcode raw)) 24 ≡ true
unfolding all_below to_opcode
named_table = refl

pub to_opcode_named : (raw : ℕ) → raw < 24 → is_named (to_opcode raw) ≡ true
to_opcode_named raw h = all_below-holds (λ raw. is_named (to_opcode raw)) 24 raw h named_table

pub to_opcode-code : (opcode : Opcode) → is_named opcode ≡ true → to_opcode (code opcode) ≡ opcode
unfolding to_opcode
to_opcode-code (unnamed raw) h = cc
to_opcode-code _ h = refl

-- The format of each instruction in the table of docs/isa.md.
unfoldable pub format_of : Opcode → InstructionFormat
format_of Opcode.nop = r_format
format_of Opcode.add = r_format
format_of Opcode.sub = r_format
format_of Opcode.and = r_format
format_of Opcode.or = r_format
format_of Opcode.xor = r_format
format_of Opcode.slt = r_format
format_of Opcode.shl = r_format
format_of Opcode.shr = r_format
format_of Opcode.halt = r_format
format_of Opcode.addi = i_format
format_of Opcode.andi = i_format
format_of Opcode.ori = i_format
format_of Opcode.xori = i_format
format_of Opcode.lui = i_format
format_of Opcode.lw = i_format
format_of Opcode.sw = s_format
format_of Opcode.beq = b_format
format_of Opcode.bne = b_format
format_of Opcode.blt = b_format
format_of Opcode.bge = b_format
format_of Opcode.j = j_format
format_of Opcode.jal = j_format
format_of Opcode.jr = jr_format
format_of (Opcode.unnamed raw) = r_format

-- The decoder's own switch gives the same formats.
pub format_for_lem : (opcode : Opcode) → format_for opcode ≡ format_of opcode
unfolding format_for format_of
format_for_lem Opcode.nop = refl
format_for_lem Opcode.add = refl
format_for_lem Opcode.sub = refl
format_for_lem Opcode.and = refl
format_for_lem Opcode.or = refl
format_for_lem Opcode.xor = refl
format_for_lem Opcode.slt = refl
format_for_lem Opcode.shl = refl
format_for_lem Opcode.shr = refl
format_for_lem Opcode.halt = refl
format_for_lem Opcode.addi = refl
format_for_lem Opcode.andi = refl
format_for_lem Opcode.ori = refl
format_for_lem Opcode.xori = refl
format_for_lem Opcode.lui = refl
format_for_lem Opcode.lw = refl
format_for_lem Opcode.sw = refl
format_for_lem Opcode.beq = refl
format_for_lem Opcode.bne = refl
format_for_lem Opcode.blt = refl
format_for_lem Opcode.bge = refl
format_for_lem Opcode.j = refl
format_for_lem Opcode.jal = refl
format_for_lem Opcode.jr = refl
format_for_lem (Opcode.unnamed raw) = refl

-- The reserved bits of a word, by division.
abbrev pub reserved_set : Opcode → ℕ → Bool
reserved_set opcode w =
    let format = format_of opcode in
    ((same_opcode opcode nop || same_opcode opcode halt) && w % 2 ^ 26 != 0)
    || (is_r format && w % 2 ^ 11 != 0)
    || (is_jr format && w % 2 ^ 21 != 0)
    || (same_opcode opcode lui && w / 2 ^ 16 % 32 != 0)

is_malformed_lem : (opcode : Opcode) (w : ℕ) → is_malformed opcode w ≡ reserved_set opcode w
unfolding is_malformed
is_malformed_lem opcode w =
    rw (format_for_lem opcode, and_low 26 w, and_low 11 w, and_low 21 w, and_low 5 (w >>> 16)) refl

-- The fields of a word in a format, by division.
abbrev pub divided : InstructionFormat → Opcode → ℕ → DecodedInstruction
divided r_format opcode w = record {
  opcode = opcode;
  rd = w / 2 ^ 21 % 32;
  rs1 = w / 2 ^ 16 % 32;
  rs2 = w / 2 ^ 11 % 32;
  imm16 = 0;
  imm26 = 0;
}
divided i_format opcode w = record {
  opcode = opcode;
  rd = w / 2 ^ 21 % 32;
  rs1 = w / 2 ^ 16 % 32;
  rs2 = 0;
  imm16 = w % 2 ^ 16;
  imm26 = 0;
}
divided s_format opcode w = record {
  opcode = opcode;
  rd = 0;
  rs1 = w / 2 ^ 16 % 32;
  rs2 = w / 2 ^ 21 % 32;
  imm16 = w % 2 ^ 16;
  imm26 = 0;
}
divided b_format opcode w = record {
  opcode = opcode;
  rd = 0;
  rs1 = w / 2 ^ 21 % 32;
  rs2 = w / 2 ^ 16 % 32;
  imm16 = w % 2 ^ 16;
  imm26 = 0;
}
divided j_format opcode w = record {
  opcode = opcode;
  rd = 0;
  rs1 = 0;
  rs2 = 0;
  imm16 = 0;
  imm26 = w % 2 ^ 26;
}
divided jr_format opcode w = record {
  opcode = opcode;
  rd = 0;
  rs1 = w / 2 ^ 21 % 32;
  rs2 = 0;
  imm16 = 0;
  imm26 = 0;
}

fields_lem :
    (format : InstructionFormat) (opcode : Opcode) (w : ℕ)
    → fields format opcode w ≡ divided format opcode w
unfolding fields
fields_lem r_format opcode w =
    ground (arith, and_low 5 (w >>> 21), and_low 5 (w >>> 16), and_low 5 (w >>> 11))
fields_lem i_format opcode w =
    ground (arith, and_low 5 (w >>> 21), and_low 5 (w >>> 16), and_low 16 w)
fields_lem s_format opcode w =
    ground (arith, and_low 5 (w >>> 21), and_low 5 (w >>> 16), and_low 16 w)
fields_lem b_format opcode w =
    ground (arith, and_low 5 (w >>> 21), and_low 5 (w >>> 16), and_low 16 w)
fields_lem j_format opcode w = ground (arith, and_low 26 w)
fields_lem jr_format opcode w = ground (arith, and_low 5 (w >>> 21))

-- Decoding by division: an opcode above HALT is illegal, a reserved bit that is set makes the word
-- malformed, and otherwise the fields are those of the opcode's format.
pub decode_lem :
    (w : ℕ)
    → w < 2 ^ 32
    → decode w ≡ (
        let opcode = to_opcode (w / 2 ^ 26) in
        if ltb 23 (w / 2 ^ 26)
        then record { instruction = none; error = illegal_opcode }
        else if reserved_set opcode w
        then record { instruction = none; error = malformed_encoding }
        else record {
          instruction = some (divided (format_of opcode) opcode w);
          error = DecodeError.none;
        })
unfolding decode
decode_lem w h =
    rw
      (
        (let e : u8 (w >>> 26) ≡ w / 2 ^ 26 = omega arith in e),
        is_malformed_lem (to_opcode (w / 2 ^ 26)) w,
        format_for_lem (to_opcode (w / 2 ^ 26)),
        fields_lem (format_of (to_opcode (w / 2 ^ 26))) (to_opcode (w / 2 ^ 26)) w,
        not-leb (w / 2 ^ 26) 23,
      )
      refl

-- The three ends of the decoder.
pub decode_cases :
    (w : ℕ)
    → w < 2 ^ 32
    → (decode w ≡ record { instruction = none; error = illegal_opcode })
      ⊎ (decode w ≡ record { instruction = none; error = malformed_encoding })
      ⊎ (d : DecodedInstruction) × (decode w
          ≡ record { instruction = some d; error = DecodeError.none })
decode_cases w h = elim (Bool-cases (ltb 23 (w / 2 ^ 26))) [
  | inl illegal ↦ inl (decode_lem w h ∙ if_true _ _ illegal)
  | inr legal ↦ elim (Bool-cases (reserved_set (to_opcode (w / 2 ^ 26)) w)) [
    | inl set ↦ inr (inl (decode_lem w h ∙ if_false _ _ legal ∙ if_true _ _ set))
    | inr clear ↦ inr (inr (_, decode_lem w h ∙ if_false _ _ legal ∙ if_false _ _ clear))
  ]
]
