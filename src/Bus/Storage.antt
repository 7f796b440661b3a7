-- ===== src/Bus/Storage.antt =====
-- What a write to the bus changes for later reads and fetches.
use bit_computer_system.Base.{
  ℕ, ◌%◌, ◌^◌, ◌<◌, ◌≡◌, ◌≢◌, arith, Bool, true, false, ◌==◌, if◌then◌else◌, ok, ◌>>=◌, inl, inr,
  Bool-cases,
}
use bit_computer_system.Bits.{and_low}
use bit_computer_system.Ram.Storage as RamStorage
use bit_computer_system.Bus.{Bus, none, read32, fetch32, write32, is_none}
use bit_computer_system.Bus.MemoryMap.{
  Region, ram, region_of, data_write_fault, map_fault, word_in, store_in, read32-map, fetch32-map,
  write32-map,
}

-- The bus after a write.
abbrev pub written : Bus → ℕ → ℕ → Bus
written bus address value =
    if is_none (map_fault data_write_fault address)
    then store_in (region_of address) bus address value
    else bus

pub rom-written : (bus : Bus) (address value : ℕ) → (written bus address value).rom ≡ bus.rom
rom-written bus address value = ground arith

word_in-store_in :
    (r s : Region) (bus : Bus) (a b value : ℕ)
    → r ≢ s
    → word_in s (store_in r bus a value) b ≡ word_in s bus b
word_in-store_in r s bus a b value h = ground arith

-- No write to a 32-bit address changes what a fetch from a 32-bit address gives.
pub fetch32-write32 :
    (bus : Bus) (a b value : ℕ)
    → a < 2 ^ 32
    → b < 2 ^ 32
    → (write32 bus a value >>= λ (bus', _). fetch32 bus' b) ≡ fetch32 bus b
fetch32-write32 bus a b value ha hb = rw (write32-map bus a value ha) (
    ground (
      arith,
      rom-written bus a value,
      fetch32-map (written bus a value) b hb,
      fetch32-map bus b hb,
    ))

-- A write to a 32-bit address leaves what a read of a 32-bit address of another region gives as it
-- was.
pub read32-write32_apart :
    (bus : Bus) (a b value : ℕ)
    → a < 2 ^ 32
    → b < 2 ^ 32
    → region_of a ≢ region_of b
    → (write32 bus a value >>= λ (bus', _). read32 bus' b) ≡ read32 bus b
read32-write32_apart bus a b value ha hb apart = rw (write32-map bus a value ha) (
    ground (
      arith,
      word_in-store_in (region_of a) (region_of b) bus a b value apart,
      read32-map (written bus a value) b hb,
      read32-map bus b hb,
    ))

abbrev is_ram : Region → Bool
is_ram ram = true
is_ram _ = false

-- After a 32-bit word is written to an aligned address of the RAM, a read of that address gives
-- the word, and a read of any other 32-bit address gives what it gave before.
pub read32-write32_ram :
    (bus : Bus) (a b value : ℕ)
    → a < 2 ^ 32
    → b < 2 ^ 32
    → value < 2 ^ 32
    → region_of a ≡ ram
    → a % 4 ≡ 0
    → (write32 bus a value >>= λ (bus', _). read32 bus' b)
      ≡ (if a == b then ok (record { value = value; fault = none }) else read32 bus b)
read32-write32_ram bus a b value ha hb hv inside aligned =
    rw (write32-map bus a value ha) (elim (Bool-cases (is_ram (region_of b))) [
      | inl same ↦ ground (
        arith,
        and_low 2 a,
        and_low 2 b,
        RamStorage.load-stored bus.ram.bytes a b value ha hb hv,
        read32-map (written bus a value) b hb,
        read32-map bus b hb,
      )
      | inr apart ↦ ground (
        arith,
        word_in-store_in (region_of a) (region_of b) bus a b value,
        read32-map (written bus a value) b hb,
        read32-map bus b hb,
      )
    ])
