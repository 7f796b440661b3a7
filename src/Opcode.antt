-- ===== src/Opcode.antt =====
-- The opcodes: simulator/include/mini32/isa.hpp.
use bit_computer_system.Base.{ℕ, Bool, List, [], ◌∷◌, none, some, get_elem?, ◌==◌}

-- `enum class Opcode : std::uint8_t`; a value of the underlying type that names no enumerator is
-- `unnamed`.
pub data Opcode : Type 0 where
  nop add sub and or xor slt shl shr addi andi ori xori lui lw sw beq bne blt bge j jal jr halt :
      Opcode
  unnamed : ℕ → Opcode

-- The underlying value.
abbrev pub code : Opcode → ℕ
code nop = 0x00
code add = 0x01
code sub = 0x02
code and = 0x03
code or = 0x04
code xor = 0x05
code slt = 0x06
code shl = 0x07
code shr = 0x08
code addi = 0x09
code andi = 0x0a
code ori = 0x0b
code xori = 0x0c
code lui = 0x0d
code lw = 0x0e
code sw = 0x0f
code beq = 0x10
code bne = 0x11
code blt = 0x12
code bge = 0x13
code j = 0x14
code jal = 0x15
code jr = 0x16
code halt = 0x17
code (unnamed raw) = raw

abbrev named : List Opcode
named =
    nop ∷ add ∷ sub ∷ and ∷ or ∷ xor ∷ slt ∷ shl ∷ shr ∷ addi ∷ andi ∷ ori ∷ xori ∷ lui ∷ lw ∷ sw
    ∷ beq ∷ bne ∷ blt ∷ bge ∷ j ∷ jal ∷ jr ∷ halt ∷ []

-- `static_cast<Opcode>(raw)`.
unfoldable pub to_opcode : ℕ → Opcode
to_opcode raw = elim (get_elem? named raw) [ some opcode ↦ opcode | none ↦ unnamed raw ]

-- `==` of two opcodes.
abbrev pub same_opcode : Opcode → Opcode → Bool
same_opcode a b = code a == code b
