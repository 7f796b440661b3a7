-- ===== src/Examples/Codes.antt =====
-- Words and instructions of simulator/src/decoder.cpp.
use bit_computer_system.Base.{◌≡◌, refl, arith}
use bit_computer_system.Opcode.{Opcode}
use bit_computer_system.Decoder.Fields.{format_of}
use bit_computer_system.Decoder.{DecodedInstruction, decode}
use bit_computer_system.Decoder.Encoding.{encode, IsInstruction}
use bit_computer_system.Decoder.RoundTrip.{accepted, decode-encode, encode-decode}

-- ADDI r1, r0, 5.
abbrev add_five : DecodedInstruction
add_five = record { opcode = Opcode.addi; rd = 1; rs1 = 0; rs2 = 0; imm16 = 5; imm26 = 0 }

add_five-IsInstruction : IsInstruction add_five
unfolding format_of
add_five-IsInstruction = record {
  named = refl;
  fits = (omega arith, omega arith, refl, omega arith, refl);
  plain = λ e. cc;
  upper = λ e. cc;
}

decode-encode_example : decode (encode add_five) ≡ accepted add_five
decode-encode_example = decode-encode add_five add_five-IsInstruction

encode-decode_example : IsInstruction add_five × (encode add_five ≡ 0x24200005)
unfolding decode
encode-decode_example = encode-decode 0x24200005 add_five (omega arith) refl
