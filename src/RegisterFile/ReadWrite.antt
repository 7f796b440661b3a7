-- ===== src/RegisterFile/ReadWrite.antt =====
-- What a read returns after a write.
use bit_computer_system.Base.{ℕ, ◌<◌, ◌≡◌, arith, ok, ◌==◌, if◌then◌else◌, ◌>>=◌}
use bit_computer_system.RegisterFile.{RegisterFile, read, write}

-- After a write to an index below 32, a read of an index below 32 gives the value written if it is
-- that index, zero for register 0, and what it gave before otherwise.
pub read-write :
    (r : RegisterFile) (index value other : ℕ)
    → index < 32
    → other < 32
    → (write r index value >>= λ r'. read r' other)
      ≡ (if other == 0 then ok 0 else if other == index then ok value else read r other)
unfolding read write
read-write r index value other p q = ground arith
