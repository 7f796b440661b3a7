-- ===== src/Base/Word.antt =====
-- The unsigned types of C++ as native numbers: wrap by `%`, shift by `*` and `/`.
use Prim.Native.Nat.{ℕ, ◌+◌, ◌-◌, ◌*◌, ◌/◌, ◌%◌, ◌^◌}

abbrev pub u8 : ℕ → ℕ
u8 n = n % 2 ^ 8

abbrev pub u16 : ℕ → ℕ
u16 n = n % 2 ^ 16

abbrev pub u32 : ℕ → ℕ
u32 n = n % 2 ^ 32

-- `std::size_t` on the 64-bit hosts.
abbrev pub u64 : ℕ → ℕ
u64 n = n % 2 ^ 64

-- `a - b` of std::uint32_t; `-` on ℕ stops at 0, so the modulus is added first.
abbrev pub sub32 : ℕ → ℕ → ℕ
sub32 a b = (a + 2 ^ 32 - b) % 2 ^ 32

infixl 75 ◌<<◌ ◌>>>◌
-- `x << k` of std::uint32_t.
abbrev pub ◌<<◌ : ℕ → ℕ → ℕ
x << k = x * 2 ^ k % 2 ^ 32

abbrev pub ◌>>>◌ : ℕ → ℕ → ℕ
x >>> k = x / 2 ^ k
