-- ===== src/Memory/Words.antt =====
-- Words of bytes: totality inside the array, round trips, and what a store leaves alone.
use bit_computer_system.Base.{
  ℕ, ap, lt→ltb, ◌+◌, ◌*◌, ◌/◌, ◌%◌, ◌^◌, ◌<◌, ◌⊎◌, ◌≡◌, refl, arith, bit_and, ok, ◌==◌,
  if◌then◌else◌, u8, ◌<<◌, ◌>>>◌,
}
use bit_computer_system.Bits.{and_low, or_low_high}
use bit_computer_system.Memory.{Bytes, size_bytes, little_endian, word_at, byte_of, set_word}

-- Four bytes make the sum of their weights.
pub little_endian_sum :
    (b0 b1 b2 b3 : ℕ)
    → b0 < 256
    → b1 < 256
    → b2 < 256
    → b3 < 256
    → little_endian b0 b1 b2 b3 ≡ b0 + b1 * 256 + b2 * 65536 + b3 * 16777216
unfolding little_endian
little_endian_sum b0 b1 b2 b3 h0 h1 h2 h3 =
    rw
      (
        exact b1 8 (omega arith),
        exact b2 16 (omega arith),
        exact b3 24 (omega arith),
        or_low_high 8 b1 b0 (omega arith),
        or_low_high 16 b2 (b0 + b1 * 2 ^ 8) (omega arith),
        or_low_high 24 b3 (b0 + b1 * 2 ^ 8 + b2 * 2 ^ 16) (omega arith),
      )
      (omega arith)
  where
    exact : (b k : ℕ) → b * 2 ^ k < 2 ^ 32 → b << k ≡ b * 2 ^ k
    exact b k h = omega arith

pub byte_of_lem : (k value : ℕ) → byte_of k value ≡ value / 2 ^ (8 * k) % 256
unfolding byte_of
byte_of_lem k value = rw (and_low 8 (value >>> (8 * k))) (omega arith)

-- The cells after a word store.
unfoldable pub stored : ℕ → ℕ → Bytes → Bytes
stored offset value bytes j =
    if j == offset + 3
    then byte_of 3 value
    else if j == offset + 2
    then byte_of 2 value
    else if j == offset + 1
    then byte_of 1 value
    else if j == offset
    then u8 (bit_and value 0xff)
    else bytes j

-- Inside the array a load and a store are defined, and give the word of the four cells and the
-- array with these cells replaced.
pub word_at_ok :
    (bytes : Bytes) (offset : ℕ)
    → offset + 3 < size_bytes
    → word_at bytes offset
      ≡ ok (
          little_endian
            (bytes offset)
            (bytes (offset + 1))
            (bytes (offset + 2))
            (bytes (offset + 3)))
unfolding word_at
word_at_ok bytes offset h = ground arith

pub set_word_ok :
    (bytes : Bytes) (offset value : ℕ)
    → offset + 3 < size_bytes
    → set_word offset value bytes ≡ ok (stored offset value bytes)
unfolding set_word stored
set_word_ok bytes offset value h =
    rw
      (
        lt→ltb offset size_bytes (omega arith),
        lt→ltb (offset + 1) size_bytes (omega arith),
        lt→ltb (offset + 2) size_bytes (omega arith),
        lt→ltb (offset + 3) size_bytes h,
      )
      refl

stored_cells :
    (bytes : Bytes) (offset value : ℕ)
    → (stored offset value bytes offset ≡ value % 256)
      × (stored offset value bytes (offset + 1) ≡ value / 256 % 256)
      × (stored offset value bytes (offset + 2) ≡ value / 65536 % 256)
      × (stored offset value bytes (offset + 3) ≡ value / 16777216 % 256)
unfolding stored
stored_cells bytes offset value =
    let byte0 = and_low 8 value in
    let byte1 = byte_of_lem 1 value in
    let byte2 = byte_of_lem 2 value in
    let byte3 = byte_of_lem 3 value in (ground arith, ground arith, ground arith, ground arith)

stored_apart :
    (bytes : Bytes) (offset value j : ℕ)
    → (j < offset) ⊎ (offset + 3 < j)
    → stored offset value bytes j ≡ bytes j
unfolding stored
stored_apart bytes offset value j h = ground arith

-- The word just stored is the word loaded.
pub load_stored :
    (bytes : Bytes) (offset value : ℕ)
    → offset + 3 < size_bytes
    → value < 2 ^ 32
    → word_at (stored offset value bytes) offset ≡ ok value
load_stored bytes offset value h v =
    let cells = stored_cells bytes offset value in
    rw
      (
        word_at_ok (stored offset value bytes) offset h,
        cells.0,
        cells.1,
        cells.2,
        cells.3,
        little_endian_sum (value % 256) (value / 256 % 256) (value / 65536 % 256)
            (value / 16777216 % 256) (omega arith) (omega arith) (omega arith) (omega arith),
      )
      (ap ok (omega arith))

-- A word that does not overlap the stored one is loaded as before.
pub load_stored_apart :
    (bytes : Bytes) (offset value other : ℕ)
    → (other + 3 < offset) ⊎ (offset + 3 < other)
    → word_at (stored offset value bytes) other ≡ word_at bytes other
unfolding word_at
load_stored_apart bytes offset value other h =
    rw
      (
        stored_apart bytes offset value other (omega arith),
        stored_apart bytes offset value (other + 1) (omega arith),
        stored_apart bytes offset value (other + 2) (omega arith),
        stored_apart bytes offset value (other + 3) (omega arith),
      )
      refl

-- Four bytes below 256 make a word below 2 ^ 32.
pub little_endian-lt :
    (b0 b1 b2 b3 : ℕ)
    → b0 < 256
    → b1 < 256
    → b2 < 256
    → b3 < 256
    → little_endian b0 b1 b2 b3 < 2 ^ 32
little_endian-lt b0 b1 b2 b3 h0 h1 h2 h3 = omega (arith, little_endian_sum b0 b1 b2 b3 h0 h1 h2 h3)
