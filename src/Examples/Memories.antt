-- ===== src/Examples/Memories.antt =====
-- Loads, stores and fetches of simulator/src/rom.cpp, ram.cpp and bus.cpp.
use bit_computer_system.Base.{
  ℕ, ◌≡◌, ◌+◌, ◌<◌, ◌≤◌, refl, arith, ok, err, Failure, ◌>>=◌, [], ◌∷◌, some, get_elem?, inl, ◌⊎◌,
}
use bit_computer_system.Rom as Rom
use bit_computer_system.Rom.Loading.{load_bytes_throws, load_bytes_fits, read32-load32}
use bit_computer_system.Timer as Timer
use bit_computer_system.Ram as Ram
use bit_computer_system.Ram.Storage.{ram_read32-write32}
use bit_computer_system.Bus as Bus
use bit_computer_system.Bus.MemoryMap.{read32-map, fetch32-map, write32-map, store_in, gpio}
use bit_computer_system.Bus.Storage.{fetch32-write32, read32-write32_apart, read32-write32_ram}
use bit_computer_system.Examples.Machines.{empty_ram, program, small_bus}

abbrev rom : Rom.Rom
rom = record { bytes = program }

read32-load32_example :
    (Rom.load32 rom 8 77 >>= λ rom'. Rom.read32 rom' 8)
    ≡ ok (record { value = 77; fault = Rom.RomFault.none })
read32-load32_example = read32-load32 rom 8 77 (omega arith) (omega arith)

load_bytes_throws_example : Rom.load_bytes rom 65535 (1 ∷ 2 ∷ []) ≡ err Failure.out_of_range
load_bytes_throws_example =
    load_bytes_throws rom 65535 (1 ∷ 2 ∷ []) (omega arith) (inl (omega arith))

load_bytes_fits_example :
    (rom' : Rom.Rom) × (Rom.load_bytes rom 65534 (1 ∷ 2 ∷ []) ≡ ok rom')
    × ((i : ℕ) → i < 2 → some (rom'.bytes (65534 + i)) ≡ get_elem? (1 ∷ 2 ∷ []) i)
    × ((j : ℕ) → (j < 65534) ⊎ (65536 ≤ j) → rom'.bytes j ≡ rom.bytes j)
load_bytes_fits_example = load_bytes_fits rom 65534 (1 ∷ 2 ∷ []) (omega arith) (omega arith)

ram_read32-write32_example :
    (Ram.write32 empty_ram 0x10000004 9 >>= λ (ram', _). Ram.read32 ram' 0x10000004)
    ≡ ok (record { value = 9; fault = Ram.RamFault.none })
ram_read32-write32_example =
    ram_read32-write32 empty_ram 0x10000004 0x10000004 9 (omega arith) (omega arith) (omega arith)

read32-map_example :
    Bus.read32 small_bus 0x20000104 ≡ ok (record { value = 7; fault = Bus.BusFault.none })
unfolding Timer.read32
read32-map_example = read32-map small_bus 0x20000104 (omega arith)

fetch32-map_example :
    Bus.fetch32 small_bus 0x10000000
    ≡ ok (record { value = 0; fault = Bus.BusFault.non_executable })
fetch32-map_example = fetch32-map small_bus 0x10000000 (omega arith)

write32-map_example :
    Bus.write32 small_bus 0x20000204 3
    ≡ ok (store_in gpio small_bus 0x20000204 3, record { fault = Bus.BusFault.none })
write32-map_example = write32-map small_bus 0x20000204 3 (omega arith)

fetch32-write32_example :
    (Bus.write32 small_bus 0x10000000 3 >>= λ (bus', _). Bus.fetch32 bus' 0)
    ≡ Bus.fetch32 small_bus 0
fetch32-write32_example = fetch32-write32 small_bus 0x10000000 0 3 (omega arith) (omega arith)

read32-write32_apart_example :
    (Bus.write32 small_bus 0x20000204 3 >>= λ (bus', _). Bus.read32 bus' 0x10000000)
    ≡ Bus.read32 small_bus 0x10000000
read32-write32_apart_example =
    read32-write32_apart small_bus 0x20000204 0x10000000 3 (omega arith) (omega arith) (λ e. cc)

read32-write32_ram_example :
    (Bus.write32 small_bus 0x10000008 3 >>= λ (bus', _). Bus.read32 bus' 0x10000008)
    ≡ ok (record { value = 3; fault = Bus.BusFault.none })
read32-write32_ram_example =
    read32-write32_ram small_bus 0x10000008 0x10000008 3 (omega arith) (omega arith) (omega arith)
      refl refl
