-- ===== src/Host.antt =====
-- What simulator/app/main.cpp and simulator/app/ref_trace.cpp have to do with the host: arguments,
-- files and output streams. A text is the list of its bytes.
pub mod Commands
use bit_computer_system.Base.{
  ℕ, Bool, true, false, ◌&&◌, ◌==◌, Option, none, some, List, [], ◌∷◌, Result, ok, err,
  undefined_behaviour, get_elem?, refl, arith, ◌≡◌,
}

-- A file that `std::ifstream` has opened in binary mode: what `tellg` gives at its end, nothing for
-- -1, and what a `read` of so many bytes brings, nothing when it fails.
pub record InputFile : Type 0 where
  pub size : Option ℕ
  pub content : Option (List ℕ)

-- The host's files by name; nothing for a file that does not open.
abbrev pub Files : Type 0
Files = List ℕ → Option InputFile

-- The exit code and what is on the two output streams.
pub record Process : Type 0 where
  pub exit_code : ℕ
  pub output : List ℕ
  pub diagnostics : List ℕ

abbrev present : Option (List ℕ) → Result (List ℕ)
present none = err undefined_behaviour
present (some text) = ok text

-- `argv[index]`; a null pointer or a place past the end is not to be used as a text.
unfoldable pub argument : List (List ℕ) → ℕ → Result (List ℕ)
argument argv index = present (get_elem? argv index)

-- Equality of two texts.
unfoldable pub same_text : List ℕ → List ℕ → Bool
same_text [] [] = true
same_text [] (c ∷ text) = false
same_text (b ∷ text) [] = false
same_text (b ∷ text) (c ∷ text') = b == c && same_text text text'

pub same_text_refl : (text : List ℕ) → same_text text text ≡ true
unfolding same_text
same_text_refl [] = refl
same_text_refl (c ∷ text) = ground (arith, same_text_refl text)
