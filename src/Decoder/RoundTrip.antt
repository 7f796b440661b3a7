-- ===== src/Decoder/RoundTrip.antt =====
-- Encoding and decoding are inverse: a word decodes exactly when it is the word of an instruction.
use bit_computer_system.Base.{
  ℕ, subst, ltb_false→le, ◌+◌, ◌*◌, ◌/◌, ◌^◌, ◌<◌, ◌≡◌, ◌∙◌, refl, ap, sym, arith, Bool, true,
  false, ◌||◌, ltb, if◌then◌else◌, none, some, le→ltb,
}
use bit_computer_system.Opcode.{Opcode, code, to_opcode, unnamed, halt, nop, lui, same_opcode}
use bit_computer_system.Decoder.{
  DecodedInstruction, DecodeResult, DecodeError, illegal_opcode, malformed_encoding,
  InstructionFormat, r_format, i_format, s_format, b_format, j_format, jr_format, decode,
}
use bit_computer_system.Decoder.Fields.{
  format_of, is_named, reserved_set, divided, decode_lem, to_opcode-code, code-to_opcode,
  to_opcode_named,
}
use bit_computer_system.Decoder.Encoding.{
  encode, Fits, IsInstruction, low_bits, encode_sum, code-lt,
}

low_bits-lt :
    (format : InstructionFormat) (d : DecodedInstruction)
    → Fits format d
    → low_bits format d < 2 ^ 26
low_bits-lt r_format d f = omega arith
low_bits-lt i_format d f = omega arith
low_bits-lt s_format d f = omega arith
low_bits-lt b_format d f = omega arith
low_bits-lt j_format d f = f.4
low_bits-lt jr_format d f = omega arith

divided_back :
    (format : InstructionFormat) (d : DecodedInstruction)
    → Fits format d
    → divided format d.opcode (code d.opcode * 2 ^ 26 + low_bits format d) ≡ d
divided_back r_format d f = ground arith
divided_back i_format d f = ground arith
divided_back s_format d f = ground arith
divided_back b_format d f = ground arith
divided_back j_format d f = ground arith
divided_back jr_format d f = ground arith

abbrev pub accepted : DecodedInstruction → DecodeResult
accepted d = record { instruction = some d; error = DecodeError.none }

plain_format :
    (opcode : Opcode)
    → (same_opcode opcode nop || same_opcode opcode halt) ≡ true
    → is_named opcode ≡ true
    → format_of opcode ≡ r_format
unfolding format_of
plain_format (unnamed raw) h n = cc
plain_format _ h n = ground arith

upper_format :
    (opcode : Opcode)
    → same_opcode opcode lui ≡ true
    → is_named opcode ≡ true
    → format_of opcode ≡ i_format
unfolding format_of
upper_format (unnamed raw) h n = cc
upper_format _ h n = ground arith

module _ (opcode : Opcode) (n : is_named opcode ≡ true) where
  reserved_clear :
      (format : InstructionFormat) (d : DecodedInstruction)
      → d.opcode ≡ opcode
      → format_of opcode ≡ format
      → Fits format d
      → ((same_opcode opcode nop || same_opcode opcode halt) ≡ true
          → (d.rd ≡ 0) × (d.rs1 ≡ 0) × (d.rs2 ≡ 0))
      → (same_opcode opcode lui ≡ true → d.rs1 ≡ 0)
      → reserved_set opcode (code opcode * 2 ^ 26 + low_bits format d) ≡ false
  reserved_clear r_format d o e f plain upper = ground (arith, upper_format opcode)
  reserved_clear i_format d o e f plain upper = ground (arith, plain_format opcode)
  reserved_clear s_format d o e f plain upper =
      ground (arith, plain_format opcode, upper_format opcode)
  reserved_clear b_format d o e f plain upper =
      ground (arith, plain_format opcode, upper_format opcode)
  reserved_clear j_format d o e f plain upper =
      ground (arith, plain_format opcode, upper_format opcode)
  reserved_clear jr_format d o e f plain upper =
      ground (arith, plain_format opcode, upper_format opcode)

  divided-Fits : (format : InstructionFormat) (w : ℕ) → Fits format (divided format opcode w)
  divided-Fits r_format w = omega arith
  divided-Fits i_format w = omega arith
  divided-Fits s_format w = omega arith
  divided-Fits b_format w = omega arith
  divided-Fits j_format w = omega arith
  divided-Fits jr_format w = omega arith

  module _ (w : ℕ) (clear : reserved_set opcode w ≡ false) where
    divided_plain :
        (format : InstructionFormat)
        → (same_opcode opcode nop || same_opcode opcode halt) ≡ true
        → let d = divided format opcode w in (d.rd ≡ 0) × (d.rs1 ≡ 0) × (d.rs2 ≡ 0)
    divided_plain r_format h = ground arith
    divided_plain i_format h = ground arith
    divided_plain s_format h = ground arith
    divided_plain b_format h = ground arith
    divided_plain j_format h = ground arith
    divided_plain jr_format h = ground arith

    divided_upper :
        (format : InstructionFormat)
        → format_of opcode ≡ format
        → same_opcode opcode lui ≡ true
        → (divided format opcode w).rs1 ≡ 0
    divided_upper i_format e h = ground arith
    divided_upper j_format e h = refl
    divided_upper r_format e h = ground (arith, upper_format opcode)
    divided_upper s_format e h = ground (arith, upper_format opcode)
    divided_upper b_format e h = ground (arith, upper_format opcode)
    divided_upper jr_format e h = ground (arith, upper_format opcode)

    divided_sum :
        (format : InstructionFormat)
        → format_of opcode ≡ format
        → w / 2 ^ 26 ≡ code opcode
        → code opcode * 2 ^ 26 + low_bits format (divided format opcode w) ≡ w
    divided_sum r_format e q = ground arith
    divided_sum i_format e q = omega arith
    divided_sum s_format e q = omega arith
    divided_sum b_format e q = omega arith
    divided_sum j_format e q = omega arith
    divided_sum jr_format e q = ground arith

-- For an instruction with a named opcode, fields in range and zero in the reserved ones and in
-- those that its format lacks, by the format that docs/isa.md gives the opcode: the word of the
-- test encoder of that format decodes to the instruction.
pub decode-encode : (d : DecodedInstruction) → IsInstruction d → decode (encode d) ≡ accepted d
decode-encode d v =
    let w = code d.opcode * 2 ^ 26 + low_bits (format_of d.opcode) d in
    let named = code-lt d.opcode v.named in
    let low = low_bits-lt (format_of d.opcode) d v.fits in
    let q : w / 2 ^ 26 ≡ code d.opcode = omega arith in
    rw
      (
        encode_sum d v,
        decode_lem w (omega arith),
        q,
        to_opcode-code d.opcode v.named,
        le→ltb 23 (code d.opcode) (omega arith),
        reserved_clear d.opcode v.named (format_of d.opcode) d refl refl v.fits v.plain v.upper,
        divided_back (format_of d.opcode) d v.fits,
      )
      refl

-- Of the three ends of the decoder only the last accepts.
only_accepted :
    (illegal malformed : Bool) (fields d : DecodedInstruction)
    → (if illegal
        then record { instruction = none; error = illegal_opcode }
        else if malformed
        then record { instruction = none; error = malformed_encoding }
        else accepted fields)
      ≡ accepted d
    → (illegal ≡ false) × (malformed ≡ false) × (d ≡ fields)
only_accepted true malformed fields d h = cc
only_accepted false true fields d h = cc
only_accepted false false fields d h = (refl, refl, cc)

decoded :
    (w : ℕ) (d : DecodedInstruction)
    → w < 2 ^ 32
    → decode w ≡ accepted d
    → let opcode = to_opcode (w / 2 ^ 26) in
      (w / 2 ^ 26 ≡ code opcode)
      × (is_named opcode ≡ true)
      × (reserved_set opcode w ≡ false)
      × (d ≡ divided (format_of opcode) opcode w)
decoded w d h e =
    let opcode = to_opcode (w / 2 ^ 26) in
    let (legal, clear, same) =
      only_accepted (ltb 23 (w / 2 ^ 26)) (reserved_set opcode w)
        (divided (format_of opcode) opcode w) d (sym (decode_lem w h) ∙ e) in
    let small : w / 2 ^ 26 < 24 = omega (arith, ltb_false→le 23 (w / 2 ^ 26) legal) in
    (sym (code-to_opcode _ small), to_opcode_named _ small, clear, same)

divided_opcode :
    (format : InstructionFormat) (opcode : Opcode) (w : ℕ)
    → (divided format opcode w).opcode ≡ opcode
divided_opcode r_format opcode w = refl
divided_opcode _ opcode w = refl

divided-IsInstruction :
    (opcode : Opcode) (w : ℕ)
    → is_named opcode ≡ true
    → reserved_set opcode w ≡ false
    → IsInstruction (divided (format_of opcode) opcode w)
divided-IsInstruction opcode w n clear =
    let o = divided_opcode (format_of opcode) opcode w in
    record {
      named = rw o n;
      fits = rw o (divided-Fits opcode n (format_of opcode) w);
      plain = rw o (divided_plain opcode n w clear (format_of opcode));
      upper = rw o (divided_upper opcode n w clear (format_of opcode) refl);
    }

divided-encode :
    (opcode : Opcode) (w : ℕ)
    → is_named opcode ≡ true
    → reserved_set opcode w ≡ false
    → w / 2 ^ 26 ≡ code opcode
    → encode (divided (format_of opcode) opcode w) ≡ w
divided-encode opcode w n clear q =
    rw
      (
        encode_sum _ (divided-IsInstruction opcode w n clear),
        divided_opcode (format_of opcode) opcode w,
      )
      (divided_sum opcode n w clear (format_of opcode) refl q)

-- A 32-bit word that decodes to an instruction is the word that the test encoder of its format
-- gives for it, by the format that docs/isa.md gives the opcode; the instruction has a named
-- opcode, fields in range and zero in the reserved ones and in those that its format lacks.
pub encode-decode :
    (w : ℕ) (d : DecodedInstruction)
    → w < 2 ^ 32
    → decode w ≡ accepted d
    → IsInstruction d × (encode d ≡ w)
encode-decode w d h e =
    let (q, n, clear, same) = decoded w d h e in
    let opcode = to_opcode (w / 2 ^ 26) in
    (
      subst IsInstruction (sym same) (divided-IsInstruction opcode w n clear),
      ap encode same ∙ divided-encode opcode w n clear q,
    )
