-- ===== src/Base/Tests.antt =====
-- Boolean tests on the native numbers, the conditional, and splits on a computed value.
use Prim.Native.Nat.{ℕ, zero, suc, ◌≤◌, ◌<◌, compare, Ordering}
use mathlib.Core.Path.{◌≡◌, refl}
use mathlib.Core.Logic.{◌↔◌, ◌⊎◌, inl, inr}
use mathlib.Core.Bool.{Bool, true, false, ◌&&◌, not}
use native.Mathlib.Omega.{arith}

abbrev pub ltb : ℕ → ℕ → Bool
ltb a b = elim (compare a b) [ Ordering.lt ↦ true | _ ↦ false ]

abbrev pub leb : ℕ → ℕ → Bool
leb a b = elim (compare a b) [ Ordering.gt ↦ false | _ ↦ true ]

infix 50 ◌==◌ ◌!=◌
abbrev pub ◌==◌ : ℕ → ℕ → Bool
a == b = elim (compare a b) [ Ordering.eq ↦ true | _ ↦ false ]

abbrev pub ◌!=◌ : ℕ → ℕ → Bool
a != b = elim (compare a b) [ Ordering.eq ↦ false | _ ↦ true ]

infix 1 if◌then◌else◌
abbrev pub if◌then◌else◌ {ℓ} : {A : Type ℓ} → Bool → A → A → A
if true then x else y = x
if false then x else y = y

-- `!=` on bool.
abbrev pub bool_ne : Bool → Bool → Bool
bool_ne true b = not b
bool_ne false b = b

pub ltb→lt : (a b : ℕ) → ltb a b ≡ true → a < b
ltb→lt a b h = ground arith

pub lt→ltb : (a b : ℕ) → a < b → ltb a b ≡ true
lt→ltb a b h = ground arith

pub le→ltb : (a b : ℕ) → b ≤ a → ltb a b ≡ false
le→ltb a b h = ground arith

pub le→leb : (a b : ℕ) → a ≤ b → leb a b ≡ true
le→leb a b h = ground arith

pub lt→leb : (a b : ℕ) → b < a → leb a b ≡ false
lt→leb a b h = ground arith

pub ltb_false→le : (a b : ℕ) → ltb a b ≡ false → b ≤ a
ltb_false→le a b h = ground arith

pub not-leb : (a b : ℕ) → not (leb a b) ≡ ltb b a
not-leb a b = ground arith

pub ==_iff : (a b : ℕ) → ((a == b) ≡ true) ↔ (a ≡ b)
==_iff a b = ground arith

pub eq→== : (a b : ℕ) → a ≡ b → (a == b) ≡ true
eq→== a b h = ground arith

pub ne→== : (a b : ℕ) → ¬ (a ≡ b) → (a == b) ≡ false
ne→== a b h = ground arith

-- To split on a computed value and keep the equation.
pub Bool-cases : (b : Bool) → (b ≡ true) ⊎ (b ≡ false)
Bool-cases true = inl refl
Bool-cases false = inr refl

pub if_true {ℓ} : {A : Type ℓ} {b : Bool} (x y : A) → b ≡ true → (if b then x else y) ≡ x
if_true x y h = rw h refl

pub if_false {ℓ} : {A : Type ℓ} {b : Bool} (x y : A) → b ≡ false → (if b then x else y) ≡ y
if_false x y h = rw h refl

-- Over a small range, check every value by evaluation.
unfoldable pub all_below : (ℕ → Bool) → ℕ → Bool
all_below test zero = true
all_below test (suc limit) = all_below test limit && test limit

pub all_below-holds :
    (test : ℕ → Bool) (limit i : ℕ) → i < limit → all_below test limit ≡ true → test i ≡ true
unfolding all_below
all_below-holds test zero i below all = absurd (omega arith)
all_below-holds test (suc limit) i below all = ground (arith, all_below-holds test limit i)
