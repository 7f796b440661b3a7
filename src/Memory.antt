-- ===== src/Memory.antt =====
-- The byte arrays of ROM and RAM (`bytes_` in simulator/include/mini32/rom.hpp and ram.hpp) and
-- the little-endian words that simulator/src/rom.cpp and ram.cpp make of them.
pub mod Words
use bit_computer_system.Base.{
  ◌*◌, ℕ, ◌+◌, ◌/◌, ◌%◌, ◌^◌, bit_and, bit_or, Result, ok, err, undefined_behaviour, ◌>>=◌, ltb,
  ◌==◌, if◌then◌else◌, u8, ◌<<◌, ◌>>>◌,
}

-- `kSizeBytes` of both memories.
abbrev pub size_bytes : ℕ
size_bytes = 65536

-- std::array<std::uint8_t, kSizeBytes>: the cells below `size_bytes`.
abbrev pub Bytes : Type 0
Bytes = ℕ → ℕ

-- `bytes_[index]`, undefined behaviour past the end.
unfoldable pub byte_at : Bytes → ℕ → Result ℕ
byte_at bytes index = if ltb index size_bytes then ok (bytes index) else err undefined_behaviour

-- `bytes_[index] = value`, undefined behaviour past the end.
unfoldable pub set_byte : ℕ → ℕ → Bytes → Result Bytes
set_byte index value bytes =
    if ltb index size_bytes
    then ok (λ j. if j == index then value else bytes j)
    else err undefined_behaviour

unfoldable pub little_endian : ℕ → ℕ → ℕ → ℕ → ℕ
little_endian b0 b1 b2 b3 = bit_or (bit_or (bit_or b0 (b1 << 8)) (b2 << 16)) (b3 << 24)

-- The word that starts at `offset`.
unfoldable pub word_at : Bytes → ℕ → Result ℕ
unfolding byte_at little_endian
word_at bytes offset = do
  b0 ← byte_at bytes offset
  b1 ← byte_at bytes (offset + 1)
  b2 ← byte_at bytes (offset + 2)
  b3 ← byte_at bytes (offset + 3)
  ok (little_endian b0 b1 b2 b3)

-- Byte `k` of a word, as `static_cast<std::uint8_t>((value >> 8 * k) & 0xFF)`.
unfoldable pub byte_of : ℕ → ℕ → ℕ
byte_of k value = u8 (bit_and (value >>> (8 * k)) 0xff)

-- The four assignments of a word store.
unfoldable pub set_word : ℕ → ℕ → Bytes → Result Bytes
unfolding set_byte byte_of
set_word offset value bytes = do
  bytes1 ← set_byte offset (u8 (bit_and value 0xff)) bytes
  bytes2 ← set_byte (offset + 1) (byte_of 1 value) bytes1
  bytes3 ← set_byte (offset + 2) (byte_of 2 value) bytes2
  set_byte (offset + 3) (byte_of 3 value) bytes3
