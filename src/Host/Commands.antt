-- ===== src/Host/Commands.antt =====
-- What the command lines of simulator/app/main.cpp and simulator/app/ref_trace.cpp ask for.
use bit_computer_system.Base.{
  ℕ, ◌^◌, ◌<◌, ◌==◌, ◌≡◌, ◌∙◌, refl, arith, if◌then◌else◌, some, List, [], ◌∷◌, length, if_false,
}
use bit_computer_system.Text.{codes, decimal}
use bit_computer_system.Host.{InputFile}

-- An image for the program's file name, and a limit: the default one, or a number below 2 ^ 64.
pub data Asks (default : ℕ) : List (List ℕ) → ℕ → List ℕ → Type 0 where
  by_default : (program filename : List ℕ) → Asks default (program ∷ filename ∷ []) default filename
  limited :
      (program filename : List ℕ) (n : ℕ)
      → n < 2 ^ 64
      → Asks default (program ∷ filename ∷ codes "--max-instructions" ∷ decimal n ∷ []) n filename

pub Asks-lt :
    (default : ℕ) (argv : List (List ℕ)) (limit : ℕ) (filename : List ℕ)
    → default < 2 ^ 64
    → Asks default argv limit filename
    → limit < 2 ^ 64
Asks-lt default _ _ _ h (by_default program filename) = h
Asks-lt default _ _ _ h (limited program filename n small) = small

-- The file holds the bytes, and they are read.
pub record Holds (input : InputFile) (image : List ℕ) : Type 0 where
  pub sized : input.size ≡ some (length image)
  pub brings : input.content ≡ some image

-- An empty image is not read.
pub read_image :
    (input : InputFile) (image : List ℕ)
    → Holds input image
    → (if length image == 0 then some [] else input.content) ≡ some image
read_image input [] h = refl
read_image input (byte ∷ image) h =
    if_false {b = length (byte ∷ image) == 0} _ _ (ground arith) ∙ h.brings
