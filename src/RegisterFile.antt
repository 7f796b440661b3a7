-- ===== src/RegisterFile.antt =====
-- The registers: simulator/src/register_file.cpp, simulator/include/mini32/register_file.hpp and
-- the constants of simulator/include/mini32/isa.hpp.
pub mod ReadWrite
use bit_computer_system.Base.{
  ℕ, Bool, Result, ok, err, out_of_range, leb, ◌==◌, ◌!=◌, if◌then◌else◌, ◌>>=◌, ◌>>◌,
}

abbrev pub register_count : ℕ
register_count = 32

-- `registers_`, whose 32 cells are read and written only past `validate_index`.
pub record RegisterFile : Type 0 where
  pub registers : ℕ → ℕ

unfoldable pub reset : RegisterFile
reset = record { registers = λ _. 0 }

unfoldable pub validate_index : ℕ → Result (Unit {0})
validate_index index = if leb register_count index then err out_of_range else ok tt

unfoldable pub read : RegisterFile → ℕ → Result ℕ
unfolding validate_index
read r index = do validate_index index; ok (if index == 0 then 0 else r.registers index)

unfoldable pub write : RegisterFile → ℕ → ℕ → Result RegisterFile
unfolding validate_index
write r index value = do
  validate_index index
  ok (
      if index != 0
      then record { registers = λ j. if j == index then value else r.registers j }
      else r)
