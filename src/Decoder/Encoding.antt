-- ===== src/Decoder/Encoding.antt =====
-- The encoders of tests/instruction_encoding.hpp.
use bit_computer_system.Base.{
  ℕ, ap, refl, true, ◌||◌, ◌+◌, ◌*◌, ◌^◌, ◌<◌, ◌≡◌, arith, bit_and, bit_or, ◌<<◌,
}
use native.Mathlib.Nat.{mod-eq_of_lt}
use bit_computer_system.Bits.{or_high_low, and_low}
use bit_computer_system.Decoder.Fields.{is_named, format_of}
use bit_computer_system.Opcode.{Opcode, code, sw, jr, nop, halt, lui, same_opcode, unnamed}
use bit_computer_system.Decoder.{
  DecodedInstruction, InstructionFormat, r_format, i_format, s_format, b_format, j_format,
  jr_format,
}

unfoldable pub encode_r : Opcode → ℕ → ℕ → ℕ → ℕ
encode_r opcode rd rs1 rs2 =
    bit_or (bit_or (bit_or (code opcode << 26) (rd << 21)) (rs1 << 16)) (rs2 << 11)

unfoldable pub encode_i : Opcode → ℕ → ℕ → ℕ → ℕ
encode_i opcode rd rs1 immediate =
    bit_or (bit_or (bit_or (code opcode << 26) (rd << 21)) (rs1 << 16)) immediate

unfoldable pub encode_s : ℕ → ℕ → ℕ → ℕ
encode_s rs2 rs1 immediate =
    bit_or (bit_or (bit_or (code sw << 26) (rs2 << 21)) (rs1 << 16)) immediate

unfoldable pub encode_b : Opcode → ℕ → ℕ → ℕ → ℕ
encode_b opcode rs1 rs2 immediate =
    bit_or (bit_or (bit_or (code opcode << 26) (rs1 << 21)) (rs2 << 16)) immediate

unfoldable pub encode_j : Opcode → ℕ → ℕ
encode_j opcode immediate = bit_or (code opcode << 26) (bit_and immediate 0x03ffffff)

unfoldable pub encode_jr : ℕ → ℕ
encode_jr rs1 = bit_or (code jr << 26) (rs1 << 21)

-- The word of an instruction, by a format.
unfoldable pub encode_as : InstructionFormat → DecodedInstruction → ℕ
unfolding encode_r encode_i encode_s encode_b encode_j encode_jr
encode_as r_format d = encode_r d.opcode d.rd d.rs1 d.rs2
encode_as i_format d = encode_i d.opcode d.rd d.rs1 d.imm16
encode_as s_format d = encode_s d.rs2 d.rs1 d.imm16
encode_as b_format d = encode_b d.opcode d.rs1 d.rs2 d.imm16
encode_as j_format d = encode_j d.opcode d.imm26
encode_as jr_format d = encode_jr d.rs1

-- The word of an instruction, by the format that docs/isa.md gives its opcode.
unfoldable pub encode : DecodedInstruction → ℕ
unfolding encode_as
encode d = encode_as (format_of d.opcode) d

exact : (x k : ℕ) → x * 2 ^ k < 2 ^ 32 → x << k ≡ x * 2 ^ k
exact x k h = omega arith

-- Four fields side by side are a sum.
pub joined :
    (c a b low : ℕ)
    → c < 64
    → a < 32
    → b < 32
    → low < 2 ^ 16
    → bit_or (bit_or (bit_or (c << 26) (a << 21)) (b << 16)) low
      ≡ c * 2 ^ 26 + a * 2 ^ 21 + b * 2 ^ 16 + low
joined c a b low hc ha hb hl =
    rw
      (
        exact c 26 (omega arith),
        exact a 21 (omega arith),
        exact b 16 (omega arith),
        or_high_low 26 c (a * 2 ^ 21) (omega arith),
        (let e : c * 2 ^ 26 + a * 2 ^ 21 ≡ (c * 32 + a) * 2 ^ 21 = omega arith in e),
        or_high_low 21 (c * 32 + a) (b * 2 ^ 16) (omega arith),
        (let e : (c * 32 + a) * 2 ^ 21 + b * 2 ^ 16 ≡ (c * 1024 + a * 32 + b) * 2 ^ 16 =
              omega arith in
            e),
        or_high_low 16 (c * 1024 + a * 32 + b) low hl,
      )
      (omega arith)

-- What an instruction must satisfy to have a word: fields in range, zero where its format has none,
-- and zero where its opcode reserves them.
abbrev pub Fits : InstructionFormat → DecodedInstruction → Type 0
Fits r_format d = (d.rd < 32) × (d.rs1 < 32) × (d.rs2 < 32) × (d.imm16 ≡ 0) × (d.imm26 ≡ 0)
Fits i_format d = (d.rd < 32) × (d.rs1 < 32) × (d.rs2 ≡ 0) × (d.imm16 < 2 ^ 16) × (d.imm26 ≡ 0)
Fits s_format d = (d.rd ≡ 0) × (d.rs1 < 32) × (d.rs2 < 32) × (d.imm16 < 2 ^ 16) × (d.imm26 ≡ 0)
Fits b_format d = (d.rd ≡ 0) × (d.rs1 < 32) × (d.rs2 < 32) × (d.imm16 < 2 ^ 16) × (d.imm26 ≡ 0)
Fits j_format d = (d.rd ≡ 0) × (d.rs1 ≡ 0) × (d.rs2 ≡ 0) × (d.imm16 ≡ 0) × (d.imm26 < 2 ^ 26)
Fits jr_format d = (d.rd ≡ 0) × (d.rs1 < 32) × (d.rs2 ≡ 0) × (d.imm16 ≡ 0) × (d.imm26 ≡ 0)

pub record IsInstruction (d : DecodedInstruction) : Type 0 where
  pub named : is_named d.opcode ≡ true
  pub fits : Fits (format_of d.opcode) d
  pub plain :
      (same_opcode d.opcode nop || same_opcode d.opcode halt) ≡ true
      → (d.rd ≡ 0) × (d.rs1 ≡ 0) × (d.rs2 ≡ 0)
  pub upper : same_opcode d.opcode lui ≡ true → d.rs1 ≡ 0

-- The word of an instruction, as a sum of its fields.
abbrev pub low_bits : InstructionFormat → DecodedInstruction → ℕ
low_bits r_format d = d.rd * 2 ^ 21 + d.rs1 * 2 ^ 16 + d.rs2 * 2 ^ 11
low_bits i_format d = d.rd * 2 ^ 21 + d.rs1 * 2 ^ 16 + d.imm16
low_bits s_format d = d.rs2 * 2 ^ 21 + d.rs1 * 2 ^ 16 + d.imm16
low_bits b_format d = d.rs1 * 2 ^ 21 + d.rs2 * 2 ^ 16 + d.imm16
low_bits j_format d = d.imm26
low_bits jr_format d = d.rs1 * 2 ^ 21

pub code-lt : (opcode : Opcode) → is_named opcode ≡ true → code opcode < 24
code-lt (unnamed raw) h = cc
code-lt _ h = omega arith

sw_only : (opcode : Opcode) → format_of opcode ≡ s_format → opcode ≡ sw
unfolding format_of
sw_only opcode h = ground arith

jr_only : (opcode : Opcode) → format_of opcode ≡ jr_format → opcode ≡ jr
unfolding format_of
jr_only opcode h = ground arith

encode_sum_as :
    (format : InstructionFormat) (d : DecodedInstruction)
    → is_named d.opcode ≡ true
    → format_of d.opcode ≡ format
    → Fits format d
    → encode_as format d ≡ code d.opcode * 2 ^ 26 + low_bits format d
unfolding encode_as
encode_sum_as r_format d n e f =
    let c : code d.opcode < 64 = omega (arith, code-lt d.opcode n) in
    let low : d.rs2 << 11 ≡ d.rs2 * 2 ^ 11 = omega arith in
    rw low
      (omega (arith, joined (code d.opcode) d.rd d.rs1 (d.rs2 * 2 ^ 11) c f.0 f.1 (omega arith)))
encode_sum_as i_format d n e f = omega (
  arith,
  joined (code d.opcode) d.rd d.rs1 d.imm16 (omega (arith, code-lt d.opcode n)) f.0 f.1 f.3,
)
encode_sum_as s_format d n e f =
    rw (ap code (sw_only d.opcode e))
      (omega (arith, joined 15 d.rs2 d.rs1 d.imm16 (omega arith) f.2 f.1 f.3))
encode_sum_as b_format d n e f = omega (
  arith,
  joined (code d.opcode) d.rs1 d.rs2 d.imm16 (omega (arith, code-lt d.opcode n)) f.1 f.2 f.3,
)
encode_sum_as j_format d n e f =
    rw
      (
        exact (code d.opcode) 26 (omega (arith, code-lt d.opcode n)),
        and_low 26 d.imm26,
        mod-eq_of_lt f.4,
        or_high_low 26 (code d.opcode) d.imm26 f.4,
      )
      refl
encode_sum_as jr_format d n e f =
    rw
      (
        ap code (jr_only d.opcode e),
        exact d.rs1 21 (omega arith),
        or_high_low 26 22 (d.rs1 * 2 ^ 21) (omega arith),
      )
      refl

-- The word of an instruction is the sum of its opcode and its fields, each at its place.
pub encode_sum :
    (d : DecodedInstruction)
    → IsInstruction d
    → encode d ≡ code d.opcode * 2 ^ 26 + low_bits (format_of d.opcode) d
unfolding encode
encode_sum d v = encode_sum_as (format_of d.opcode) d v.named refl v.fits
