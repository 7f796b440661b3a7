-- ===== src/Decoder.antt =====
-- The instruction decoder: `decode` of simulator/src/decoder.cpp and its types in
-- simulator/include/mini32/decoder.hpp.
pub mod Fields
pub mod Encoding
pub mod RoundTrip
use bit_computer_system.Base.{
  ℕ, ◌/◌, ◌^◌, bit_and, Bool, true, false, Option, leb, not, ◌!=◌, ◌==◌, ◌&&◌, ◌||◌, if◌then◌else◌,
  u8, u16, ◌>>>◌,
}
use bit_computer_system.Base as Base
use bit_computer_system.Opcode.{
  Opcode, nop, add, sub, and, or, xor, slt, shl, shr, addi, andi, ori, xori, lui, lw, sw, beq, bne,
  blt, bge, j, jal, jr, halt, unnamed, code, to_opcode, same_opcode,
}

pub data DecodeError : Type 0 where
  none illegal_opcode malformed_encoding : DecodeError

pub record DecodedInstruction : Type 0 where
  pub opcode : Opcode
  pub rd : ℕ
  pub rs1 : ℕ
  pub rs2 : ℕ
  pub imm16 : ℕ
  pub imm26 : ℕ

pub record DecodeResult : Type 0 where
  pub instruction : Option DecodedInstruction
  pub error : DecodeError

unfoldable pub is_known_opcode : ℕ → Bool
is_known_opcode raw_opcode = leb raw_opcode (code halt)

unfoldable pub is_r_format : Opcode → Bool
is_r_format nop = true
is_r_format add = true
is_r_format sub = true
is_r_format and = true
is_r_format or = true
is_r_format xor = true
is_r_format slt = true
is_r_format shl = true
is_r_format shr = true
is_r_format halt = true
is_r_format _ = false

pub data InstructionFormat : Type 0 where
  r_format i_format s_format b_format j_format jr_format : InstructionFormat

-- The switch of `format_for`, past the R formats.
unfoldable pub other_format : Opcode → InstructionFormat
other_format addi = i_format
other_format andi = i_format
other_format ori = i_format
other_format xori = i_format
other_format lui = i_format
other_format lw = i_format
other_format sw = s_format
other_format beq = b_format
other_format bne = b_format
other_format blt = b_format
other_format bge = b_format
other_format j = j_format
other_format jal = j_format
other_format jr = jr_format
other_format _ = r_format

unfoldable pub format_for : Opcode → InstructionFormat
unfolding is_r_format other_format
format_for opcode = if is_r_format opcode then r_format else other_format opcode

abbrev pub is_r : InstructionFormat → Bool
is_r r_format = true
is_r _ = false

abbrev pub is_jr : InstructionFormat → Bool
is_jr jr_format = true
is_jr _ = false

-- The five bits from `shift` up.
unfoldable pub register_field : ℕ → ℕ → ℕ
register_field shift instruction = u8 (bit_and (instruction >>> shift) 0x1f)

-- The switch that fills the fields of a format; the others stay zero.
unfoldable pub fields : InstructionFormat → Opcode → ℕ → DecodedInstruction
unfolding register_field
fields r_format opcode instruction = record {
  opcode = opcode;
  rd = register_field 21 instruction;
  rs1 = register_field 16 instruction;
  rs2 = register_field 11 instruction;
  imm16 = 0;
  imm26 = 0;
}
fields i_format opcode instruction = record {
  opcode = opcode;
  rd = register_field 21 instruction;
  rs1 = register_field 16 instruction;
  rs2 = 0;
  imm16 = u16 (bit_and instruction 0xffff);
  imm26 = 0;
}
fields s_format opcode instruction = record {
  opcode = opcode;
  rd = 0;
  rs1 = register_field 16 instruction;
  rs2 = register_field 21 instruction;
  imm16 = u16 (bit_and instruction 0xffff);
  imm26 = 0;
}
fields b_format opcode instruction = record {
  opcode = opcode;
  rd = 0;
  rs1 = register_field 21 instruction;
  rs2 = register_field 16 instruction;
  imm16 = u16 (bit_and instruction 0xffff);
  imm26 = 0;
}
fields j_format opcode instruction = record {
  opcode = opcode;
  rd = 0;
  rs1 = 0;
  rs2 = 0;
  imm16 = 0;
  imm26 = bit_and instruction 0x03ffffff;
}
fields jr_format opcode instruction = record {
  opcode = opcode;
  rd = 0;
  rs1 = register_field 21 instruction;
  rs2 = 0;
  imm16 = 0;
  imm26 = 0;
}

-- The checks of the bits that an opcode and its format reserve.
unfoldable pub is_malformed : Opcode → ℕ → Bool
unfolding format_for
is_malformed opcode instruction =
    let format = format_for opcode in
    ((same_opcode opcode nop || same_opcode opcode halt) && bit_and instruction 0x03ffffff != 0)
    || (is_r format && bit_and instruction 0x7ff != 0)
    || (is_jr format && bit_and instruction 0x1fffff != 0)
    || (same_opcode opcode lui && bit_and (instruction >>> 16) 0x1f != 0)

unfoldable pub decode : ℕ → DecodeResult
unfolding is_known_opcode to_opcode is_malformed fields
decode instruction =
    let raw_opcode = u8 (instruction >>> 26) in
    let opcode = to_opcode raw_opcode in
    if not (is_known_opcode raw_opcode)
    then record { instruction = Base.none; error = illegal_opcode }
    else if is_malformed opcode instruction
    then record { instruction = Base.none; error = malformed_encoding }
    else record {
      instruction = Base.some (fields (format_for opcode) opcode instruction);
      error = none;
    }
