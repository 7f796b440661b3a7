-- ===== src/Bits.antt =====
-- The `&`, `|` and `^` of the unsigned types: their binary digits, and the arithmetic of masks.
mod Digits
mod Masks
pub use Digits.*
pub use Masks.*
