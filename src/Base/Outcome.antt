-- ===== src/Base/Outcome.antt =====
-- What a call of C++ code ends in: a value, a thrown exception, or undefined behaviour.
use mathlib.Core.Path.{◌≡◌, ap}

-- `undefined_behaviour` is a read of an empty std::optional or an array index out of bounds;
-- `out_of_fuel` is the model's own: a loop was cut off before it ended.
pub data Failure : Type 0 where
  out_of_range invalid_argument undefined_behaviour out_of_fuel : Failure

pub data Result {ℓ} (A : Type ℓ) : Type ℓ where
  ok : A → Result A
  err : Failure → Result A

infixl 5 ◌>>=◌ ◌>>◌
abbrev pub ◌>>=◌ {ℓ κ} : {A : Type ℓ} {B : Type κ} → Result A → (A → Result B) → Result B
ok a >>= f = f a
err e >>= f = err e

abbrev pub ◌>>◌ {ℓ κ} : {A : Type ℓ} {B : Type κ} → Result A → Result B → Result B
m >> k = m >>= λ _. k

-- The call returns, with a value of which `P` holds.
abbrev pub Returns {ℓ κ} : {A : Type ℓ} → (A → Type κ) → Result A → Type (ℓ ⊔ κ)
Returns {A} P r = (a : A) × (r ≡ ok a) × P a

-- A chain after a result that is there.
pub bind_ok {ℓ κ} :
    {A : Type ℓ} {B : Type κ} (r : Result A) (a : A) (k : A → Result B) → r ≡ ok a → (r >>= k) ≡ k a
bind_ok r a k e = ap (λ x. x >>= k) e
