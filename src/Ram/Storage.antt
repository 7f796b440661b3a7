-- ===== src/Ram/Storage.antt =====
-- Loads and stores of the RAM: always defined, and a load gives what was stored.
use bit_computer_system.Base.{
  ℕ, ◌+◌, ◌-◌, ◌%◌, ◌^◌, ◌≤◌, ◌<◌, ◌≡◌, arith, Bool, true, false, bit_and, leb, ◌==◌, ◌!=◌, ◌&&◌,
  if◌then◌else◌, sub32, ok, ◌>>=◌, inl, inr, Bool-cases,
}
use bit_computer_system.Bits.{and_low}
use bit_computer_system.Memory.{Bytes, size_bytes, word_at, set_word, little_endian}
use bit_computer_system.Memory.Words.{
  stored, word_at_ok, set_word_ok, load_stored, load_stored_apart,
}
use bit_computer_system.Ram.{
  Ram, RamFault, none, misaligned, out_of_range, base_address, last_address, read32, write32,
}

-- The fault of an access, by its address alone.
abbrev pub access_fault : ℕ → RamFault
access_fault address =
    if bit_and address 0x3 != 0
    then misaligned
    else if leb base_address address && leb address last_address
    then none
    else out_of_range

abbrev pub is_none : RamFault → Bool
is_none none = true
is_none misaligned = false
is_none out_of_range = false

-- The word that a load at `address` finds.
abbrev pub load : Bytes → ℕ → ℕ
load bytes address =
    let offset = address - base_address in
    little_endian (bytes offset) (bytes (offset + 1)) (bytes (offset + 2)) (bytes (offset + 3))

in_array :
    (address : ℕ)
    → address < 2 ^ 32
    → is_none (access_fault address) ≡ true
    → (sub32 address base_address ≡ address - base_address)
      × (address - base_address + 3 < size_bytes)
      × (address % 4 ≡ 0)
      × (base_address ≤ address)
in_array address h v = ground (arith, and_low 2 address)

word_at_inside :
    (bytes : Bytes) (address : ℕ)
    → address < 2 ^ 32
    → is_none (access_fault address) ≡ true
    → word_at bytes (sub32 address base_address) ≡ ok (load bytes address)
word_at_inside bytes address h v =
    let inside = in_array address h v in
    rw inside.0 (word_at_ok bytes (address - base_address) inside.1)

set_word_inside :
    (bytes : Bytes) (address value : ℕ)
    → address < 2 ^ 32
    → is_none (access_fault address) ≡ true
    → set_word (sub32 address base_address) value bytes
      ≡ ok (stored (address - base_address) value bytes)
set_word_inside bytes address value h v =
    let inside = in_array address h v in
    rw inside.0 (set_word_ok bytes (address - base_address) value inside.1)

-- A load never reads outside the array: it gives the word at the address, or the fault that the
-- address has.
pub read32_lem :
    (ram : Ram) (address : ℕ)
    → address < 2 ^ 32
    → read32 ram address
      ≡ ok (record {
        value = if is_none (access_fault address) then load ram.bytes address else 0;
        fault = access_fault address;
      })
unfolding read32
read32_lem ram address h = elim (Bool-cases (is_none (access_fault address))) [
  | inl v ↦ ground (arith, word_at_inside ram.bytes address h v, and_low 2 address)
  | inr v ↦ ground (arith, and_low 2 address)
]

-- A store never writes outside the array: it replaces the four cells of the word, or leaves the
-- array alone and gives the fault that the address has.
pub write32_lem :
    (ram : Ram) (address value : ℕ)
    → address < 2 ^ 32
    → write32 ram address value
      ≡ ok (
        record {
          bytes =
              if is_none (access_fault address)
              then stored (address - base_address) value ram.bytes
              else ram.bytes;
        },
        record { fault = access_fault address },
      )
unfolding write32
write32_lem ram address value h = elim (Bool-cases (is_none (access_fault address))) [
  | inl v ↦ ground (arith, set_word_inside ram.bytes address value h v, and_low 2 address)
  | inr v ↦ ground (arith, and_low 2 address)
]

-- A load after a store, of addresses that do not fault.
pub load-stored :
    (bytes : Bytes) (a b value : ℕ)
    → a < 2 ^ 32
    → b < 2 ^ 32
    → value < 2 ^ 32
    → is_none (access_fault a) ≡ true
    → is_none (access_fault b) ≡ true
    → load (stored (a - base_address) value bytes) b ≡ (if a == b then value else load bytes b)
load-stored bytes a b value ha hb hv va vb =
    let inside_a = in_array a ha va in
    let inside_b = in_array b hb vb in
    ground (
      arith,
      word_at_ok (stored (a - base_address) value bytes) (b - base_address) inside_b.1,
      word_at_ok bytes (b - base_address) inside_b.1,
      load_stored bytes (a - base_address) value inside_a.1 hv,
      load_stored_apart bytes (a - base_address) value (b - base_address),
    )

-- For 32-bit addresses and values: after a store that does not fault a load of its address gives
-- the value, and a load of any other address gives what it gave before; after a store that faults
-- every load does.
pub ram_read32-write32 :
    (ram : Ram) (a b value : ℕ)
    → a < 2 ^ 32
    → b < 2 ^ 32
    → value < 2 ^ 32
    → (write32 ram a value >>= λ (ram', _). read32 ram' b) ≡ (
        if is_none (access_fault a) && a == b
        then ok (record { value = value; fault = none })
        else read32 ram b)
ram_read32-write32 ram a b value ha hb hv = rw (write32_lem ram a value ha) (
    ground (
      arith,
      read32_lem ram b hb,
      read32_lem
          (record {
            bytes =
                if is_none (access_fault a)
                then stored (a - base_address) value ram.bytes
                else ram.bytes;
          })
          b hb,
      load-stored ram.bytes a b value ha hb hv,
    ))
