-- ===== src/Rom/Loading.antt =====
-- Loading an image, and fetching the words of it.
use bit_computer_system.Base.{
  ℕ, u8, ◌+◌, ◌/◌, ◌%◌, ◌^◌, ◌≤◌, ◌<◌, ◌≡◌, refl, arith, Bool, true, false, bit_and, leb, ◌==◌,
  ◌!=◌, if◌then◌else◌, sub32, ok, err, Failure, ◌>>=◌, inl, inr, ◌⊎◌, Bool-cases, List, [], ◌∷◌,
  zero, suc, length, get_elem?, some, lt→ltb,
}
use bit_computer_system.Bits.{and_low}
use bit_computer_system.Memory.{Bytes, size_bytes, word_at, little_endian, set_byte, byte_of}
use bit_computer_system.Memory.Words.{word_at_ok, little_endian_sum, byte_of_lem}
use bit_computer_system.Rom.{
  Rom, RomFault, none, misaligned, out_of_range, base_address, last_address, copy, load_bytes,
  load32, read32,
}

abbrev pub access_fault : ℕ → RomFault
access_fault address =
    if bit_and address 0x3 != 0
    then misaligned
    else if leb address last_address
    then none
    else out_of_range

abbrev pub is_none : RomFault → Bool
is_none none = true
is_none misaligned = false
is_none out_of_range = false

abbrev pub load : Bytes → ℕ → ℕ
load bytes offset =
    little_endian (bytes offset) (bytes (offset + 1)) (bytes (offset + 2)) (bytes (offset + 3))

word_at_inside :
    (bytes : Bytes) (address : ℕ)
    → address < 2 ^ 32
    → is_none (access_fault address) ≡ true
    → word_at bytes (sub32 address base_address) ≡ ok (load bytes address)
word_at_inside bytes address h v =
    rw (let e : sub32 address base_address ≡ address = omega arith in e)
      (word_at_ok bytes address (ground (arith, and_low 2 address)))

-- A fetch never reads outside the array: it gives the word at the address, or the fault that the
-- address has.
pub read32_lem :
    (rom : Rom) (address : ℕ)
    → address < 2 ^ 32
    → read32 rom address
      ≡ ok (record {
        value = if is_none (access_fault address) then load rom.bytes address else 0;
        fault = access_fault address;
      })
unfolding read32
read32_lem rom address h = elim (Bool-cases (is_none (access_fault address))) [
  | inl v ↦ ground (arith, word_at_inside rom.bytes address h v, and_low 2 address)
  | inr v ↦ ground (arith, and_low 2 address)
]

-- The cells after an image is copied to `offset`.
unfoldable pub loaded : ℕ → List ℕ → Bytes → Bytes
loaded offset [] bytes = bytes
loaded offset (b ∷ image) bytes =
    loaded (offset + 1) image (λ j. if j == offset then b else bytes j)

copy_ok :
    (image : List ℕ) (offset : ℕ) (bytes : Bytes)
    → offset + length image ≤ size_bytes
    → copy image offset bytes ≡ ok (loaded offset image bytes)
unfolding copy loaded set_byte
copy_ok [] offset bytes h = refl
copy_ok (b ∷ image) offset bytes h =
    rw (lt→ltb offset size_bytes (omega arith)) (copy_ok image (offset + 1) _ (omega arith))

pub loaded_below :
    (image : List ℕ) (offset : ℕ) (bytes : Bytes) (j : ℕ)
    → j < offset
    → loaded offset image bytes j ≡ bytes j
unfolding loaded
loaded_below [] offset bytes j h = refl
loaded_below (b ∷ image) offset bytes j h =
    ground (arith, loaded_below image (offset + 1) (λ j. if j == offset then b else bytes j) j)

pub loaded_above :
    (image : List ℕ) (offset : ℕ) (bytes : Bytes) (j : ℕ)
    → offset + length image ≤ j
    → loaded offset image bytes j ≡ bytes j
unfolding loaded
loaded_above [] offset bytes j h = refl
loaded_above (b ∷ image) offset bytes j h =
    ground (arith, loaded_above image (offset + 1) (λ j. if j == offset then b else bytes j) j)

pub loaded_inside :
    (image : List ℕ) (offset : ℕ) (bytes : Bytes) (i : ℕ)
    → i < length image
    → some (loaded offset image bytes (offset + i)) ≡ get_elem? image i
unfolding loaded
loaded_inside [] offset bytes i h = absurd (omega arith)
loaded_inside (b ∷ image) offset bytes zero h =
    ground (
      arith,
      loaded_below image (offset + 1) (λ j. if j == offset then b else bytes j) (offset + 0),
    )
loaded_inside (b ∷ image) offset bytes (suc i) h =
    rw (let e : offset + suc i ≡ offset + 1 + i = omega arith in e)
      (loaded_inside image (offset + 1) (λ j. if j == offset then b else bytes j) i (omega arith))

-- Loading an image at a 32-bit address throws std::out_of_range when the image starts past the end
-- of the ROM or runs past it.
pub load_bytes_throws :
    (rom : Rom) (address : ℕ) (image : List ℕ)
    → address < 2 ^ 32
    → (size_bytes < address + length image) ⊎ (size_bytes ≤ address)
    → load_bytes rom address image ≡ err Failure.out_of_range
unfolding load_bytes
load_bytes_throws rom address image h bad = ground arith

-- Loading an image that starts in the ROM and fits in it returns; its bytes stand at their places
-- and every other cell keeps its value.
pub load_bytes_fits :
    (rom : Rom) (address : ℕ) (image : List ℕ)
    → address < size_bytes
    → address + length image ≤ size_bytes
    → (rom' : Rom) × (load_bytes rom address image ≡ ok rom')
      × ((i : ℕ) → i < length image → some (rom'.bytes (address + i)) ≡ get_elem? image i)
      × ((j : ℕ) → (j < address) ⊎ (address + length image ≤ j) → rom'.bytes j ≡ rom.bytes j)
unfolding load_bytes
load_bytes_fits rom address image start room = (
  record { bytes = loaded address image rom.bytes },
  ground (arith, copy_ok image address rom.bytes room, exact),
  λ i p. loaded_inside image address rom.bytes i p,
  λ j p.
      ground
        (arith, loaded_below image address rom.bytes j, loaded_above image address rom.bytes j),
)
  where
    exact : sub32 address base_address ≡ address
    exact = omega arith

abbrev word_bytes : ℕ → List ℕ
word_bytes word = u8 (bit_and word 0xff) ∷ byte_of 1 word ∷ byte_of 2 word ∷ byte_of 3 word ∷ []

fetch_word :
    (rom : Rom) (address word : ℕ)
    → address < size_bytes
    → word < 2 ^ 32
    → address % 4 ≡ 0
    → ((i : ℕ) → i < 4 → some (rom.bytes (address + i)) ≡ get_elem? (word_bytes word) i)
    → read32 rom address ≡ ok (record { value = word; fault = none })
fetch_word rom address word h w aligned cells = ground (
  arith,
  and_low 2 address,
  and_low 8 word,
  byte_of_lem 1 word,
  byte_of_lem 2 word,
  byte_of_lem 3 word,
  read32_lem rom address (omega arith),
  cells 0 (omega arith),
  cells 1 (omega arith),
  cells 2 (omega arith),
  cells 3 (omega arith),
  (let e : address + 0 ≡ address = omega arith in e),
  little_endian_sum (word % 256) (word / 256 % 256) (word / 65536 % 256) (word / 16777216 % 256)
      (omega arith) (omega arith) (omega arith) (omega arith),
)

load_fetch :
    (rom : Rom) (address word : ℕ)
    → address < size_bytes
    → word < 2 ^ 32
    → address % 4 ≡ 0
    → (load32 rom address word >>= λ rom'. read32 rom' address)
      ≡ ok (record { value = word; fault = none })
unfolding load32
load_fetch rom address word h w aligned =
    let (rom', loads, cells, _) = load_bytes_fits rom address (word_bytes word) h (omega arith) in
    ground (arith, and_low 2 address, fetch_word rom' address word h w aligned cells)

-- A 32-bit word loaded at an aligned address of the ROM is read from there; at a misaligned
-- address of the ROM the load throws std::invalid_argument.
pub read32-load32 :
    (rom : Rom) (address word : ℕ)
    → address < size_bytes
    → word < 2 ^ 32
    → (load32 rom address word >>= λ rom'. read32 rom' address) ≡ (
        if address % 4 == 0
        then ok (record { value = word; fault = none })
        else err Failure.invalid_argument)
unfolding load32
read32-load32 rom address word h w = elim (Bool-cases (address % 4 == 0)) [
  | inl aligned ↦ rw aligned (load_fetch rom address word h w (ground arith))
  | inr odd ↦ ground (arith, and_low 2 address)
]
