-- ===== src/Ram.antt =====
-- The RAM: simulator/src/ram.cpp and simulator/include/mini32/ram.hpp.
pub mod Storage
use bit_computer_system.Base.{
  ℕ, ◌+◌, ◌-◌, Bool, bit_and, Result, ok, err, Failure, ◌>>=◌, ltb, leb, ◌!=◌, ◌&&◌, ◌||◌, not,
  if◌then◌else◌, sub32,
}
use bit_computer_system.Memory.{Bytes, size_bytes, byte_at, word_at, set_word}

pub data RamFault : Type 0 where
  none misaligned out_of_range : RamFault

pub record RamReadResult : Type 0 where
  pub value : ℕ
  pub fault : RamFault

pub record RamWriteResult : Type 0 where
  pub fault : RamFault

abbrev pub base_address : ℕ
base_address = 0x10000000

abbrev pub last_address : ℕ
last_address = base_address + (size_bytes - 1)

pub record Ram : Type 0 where
  pub bytes : Bytes

unfoldable pub valid_word_address : ℕ → Bool
valid_word_address address = leb base_address address && leb address (last_address - 3)

unfoldable pub read32 : Ram → ℕ → Result RamReadResult
unfolding valid_word_address
read32 ram address =
    if bit_and address 0x3 != 0
    then ok (record { value = 0; fault = misaligned })
    else if not (valid_word_address address)
    then ok (record { value = 0; fault = out_of_range })
    else do
      let offset = sub32 address base_address
      value ← word_at ram.bytes offset
      ok (record { value = value; fault = none })

unfoldable pub write32 : Ram → ℕ → ℕ → Result (Ram × RamWriteResult)
unfolding valid_word_address
write32 ram address value =
    if bit_and address 0x3 != 0
    then ok (ram, record { fault = misaligned })
    else if not (valid_word_address address)
    then ok (ram, record { fault = out_of_range })
    else do
      let offset = sub32 address base_address
      bytes ← set_word offset value ram.bytes
      ok (record { bytes = bytes }, record { fault = none })

unfoldable pub debug_read_byte : Ram → ℕ → Result ℕ
debug_read_byte ram address =
    if ltb address base_address || ltb last_address address
    then err Failure.out_of_range
    else byte_at ram.bytes (sub32 address base_address)
