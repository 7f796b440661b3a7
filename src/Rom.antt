-- ===== src/Rom.antt =====
-- The ROM: simulator/src/rom.cpp and simulator/include/mini32/rom.hpp.
pub mod Loading
use bit_computer_system.Base.{
  ℕ, ◌+◌, ◌-◌, bit_and, List, [], ◌∷◌, Result, ok, err, Failure, ◌>>=◌, ltb, ◌!=◌, ◌||◌,
  if◌then◌else◌, u8, sub32, length,
}
use bit_computer_system.Memory.{Bytes, size_bytes, set_byte, word_at, byte_of}

pub data RomFault : Type 0 where
  none misaligned out_of_range : RomFault

pub record RomReadResult : Type 0 where
  pub value : ℕ
  pub fault : RomFault

abbrev pub base_address : ℕ
base_address = 0x00000000

abbrev pub last_address : ℕ
last_address = base_address + (size_bytes - 1)

pub record Rom : Type 0 where
  pub bytes : Bytes

-- std::copy of the image to `bytes_.begin() + offset`.
unfoldable pub copy : List ℕ → ℕ → Bytes → Result Bytes
copy [] offset bytes = ok bytes
copy (b ∷ image) offset bytes = do bytes' ← set_byte offset b bytes; copy image (offset + 1) bytes'

unfoldable pub load_bytes : Rom → ℕ → List ℕ → Result Rom
load_bytes rom address image =
    if ltb last_address address || ltb (size_bytes - address) (length image)
    then err Failure.out_of_range
    else do
      let offset = sub32 address base_address
      bytes ← copy image offset rom.bytes
      ok (record { bytes = bytes })

unfoldable pub load32 : Rom → ℕ → ℕ → Result Rom
load32 rom address word =
    if bit_and address 0x3 != 0
    then err Failure.invalid_argument
    else load_bytes rom address
        (u8 (bit_and word 0xff) ∷ byte_of 1 word ∷ byte_of 2 word ∷ byte_of 3 word ∷ [])

unfoldable pub read32 : Rom → ℕ → Result RomReadResult
read32 rom address =
    if bit_and address 0x3 != 0
    then ok (record { value = 0; fault = misaligned })
    else if ltb last_address address || ltb (last_address - 3) address
    then ok (record { value = 0; fault = out_of_range })
    else do
      let offset = sub32 address base_address
      value ← word_at rom.bytes offset
      ok (record { value = value; fault = none })
