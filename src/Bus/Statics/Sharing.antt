-- ===== src/Bus/Statics/Sharing.antt =====
-- A store and a retirement by one bus, seen by another that shares its timer and pins:
-- simulator/src/bus.cpp.
use bit_computer_system.Base.{
  ℕ, ◌^◌, ◌<◌, ◌≡◌, ◌≢◌, ◌∙◌, refl, ap, arith, Bool, true, false, ◌&&◌, ◌==◌, if◌then◌else◌,
  if_true, if_false, ok, bind_ok,
}
use bit_computer_system.Bus.{Bus, BusWriteResult, write32, retire_tick, is_none}
use bit_computer_system.Bus.MemoryMap.{
  Region, rom, ram, uart, timer, gpio, debug, nothing, region_of, store_in, map_fault,
  data_write_fault, write32-map,
}
use bit_computer_system.Bus.Statics.{World, Parts, assemble, bus_at, behind, store, retire}

abbrev pub is_shared : Region → Bool
is_shared timer = true
is_shared gpio = true
is_shared rom = false
is_shared ram = false
is_shared uart = false
is_shared debug = false
is_shared nothing = false

-- What the buses are after an operation of one of them.
behind_same : (w : World) (i : ℕ) (bus : Bus) → bus_at (behind w i bus) i ≡ bus
unfolding bus_at assemble behind
behind_same w i bus =
    ap (λ (p : Parts). assemble p bus.timer bus.gpio) (if_true {b = i == i} _ _ (ground arith))

behind_other :
    (w : World) (i j : ℕ) (bus : Bus)
    → i ≢ j
    → bus_at (behind w i bus) j ≡ assemble (w.parts j) bus.timer bus.gpio
unfolding bus_at behind
behind_other w i j bus n =
    ap (λ (p : Parts). assemble p bus.timer bus.gpio) (if_false {b = j == i} _ _ (ground arith))

-- The shared objects after a store, whichever bus it goes through.
stored_other :
    (w : World) (i j address value : ℕ) (region : Region)
    → let bus = store_in region (bus_at w i) address value in
      assemble (w.parts j) bus.timer bus.gpio
      ≡ (if is_shared region then store_in region (bus_at w j) address value else bus_at w j)
unfolding bus_at assemble
stored_other w i j address value rom = refl
stored_other w i j address value ram = refl
stored_other w i j address value uart = refl
stored_other w i j address value timer = refl
stored_other w i j address value gpio = refl
stored_other w i j address value debug = refl
stored_other w i j address value nothing = refl

-- What another bus is after the store.
abbrev pub seen_by : World → ℕ → ℕ → ℕ → Bus
seen_by w j address value =
    if is_none (map_fault data_write_fault address) && is_shared (region_of address)
    then store_in (region_of address) (bus_at w j) address value
    else bus_at w j

unchanged :
    (w : World) (i j : ℕ) → assemble (w.parts j) (bus_at w i).timer (bus_at w i).gpio ≡ bus_at w j
unfolding bus_at assemble
unchanged w i j = refl

other_bus :
    (b : Bool) (w : World) (i j address value : ℕ)
    → let bus = if b then store_in (region_of address) (bus_at w i) address value else bus_at w i in
      assemble (w.parts j) bus.timer bus.gpio ≡ (
        if b && is_shared (region_of address)
        then store_in (region_of address) (bus_at w j) address value
        else bus_at w j)
other_bus true w i j address value = stored_other w i j address value (region_of address)
other_bus false w i j address value = unchanged w i j

-- Of two buses that share the static timer and pins, a store to a 32-bit address through one
-- returns, with what the bus does on its own; the other then is as if the store had gone through
-- it when it does not fault and goes to the timer or the pins, and is what it was otherwise.
pub store-seen_by :
    (w : World) (i j address value : ℕ)
    → address < 2 ^ 32
    → i ≢ j
    → (w' : World) × (bus : Bus) × (result : BusWriteResult) × (write32 (bus_at w i) address value
        ≡ ok (bus, result))
      × (store w i address value ≡ ok (w', result))
      × (bus_at w' i ≡ bus)
      × (bus_at w' j ≡ seen_by w j address value)
unfolding store
store-seen_by w i j address value h n =
    let fine = is_none (map_fault data_write_fault address) in
    let bus =
      if fine then store_in (region_of address) (bus_at w i) address value else bus_at w i in
    let result : BusWriteResult = record { fault = map_fault data_write_fault address } in
    let writes = write32-map (bus_at w i) address value h in
    (
      behind w i bus,
      bus,
      result,
      writes,
      bind_ok (write32 (bus_at w i) address value) (bus, result)
          (λ ((b, r) : Bus × BusWriteResult). ok (behind w i b, r)) writes,
      behind_same w i bus,
      behind_other w i j bus n ∙ other_bus fine w i j address value,
    )

retire_tick_shared :
    (w : World) (i j : ℕ)
    → assemble (w.parts j) (retire_tick (bus_at w i)).timer (retire_tick (bus_at w i)).gpio
      ≡ retire_tick (bus_at w j)
unfolding bus_at assemble retire_tick
retire_tick_shared w i j = refl

retire-seen_by : (w : World) (i j : ℕ) → i ≢ j → bus_at (retire w i) j ≡ retire_tick (bus_at w j)
unfolding retire
retire-seen_by w i j n = behind_other w i j (retire_tick (bus_at w i)) n ∙ retire_tick_shared w i j
