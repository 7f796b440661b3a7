-- ===== src/Simulator/Program/Endings.antt =====
-- The program of simulator/app/main.cpp ends, with one of its exit codes, whatever it is given.
use bit_computer_system.Base.{
  ℕ, suc, ◌%◌, ◌^◌, ◌<◌, ◌≤◌, ◌≡◌, ◌⊎◌, inl, inr, ◌∙◌, refl, ap, arith, Bool, true, false, not,
  ◌&&◌, ◌||◌, ◌!=◌, ◌==◌, ltb, if◌then◌else◌, if_true, if_false, Option, none, some, List, [], ◌∷◌,
  length, Result, ok, Bool-cases,
}
use bit_computer_system.Text.{codes, from_chars, is_fine, is_empty, size_max}
use bit_computer_system.Host.{InputFile, Files, Process, same_text, argument}
use bit_computer_system.Memory.{size_bytes}
use bit_computer_system.Isa.Execution.{Ending, halts, fails, exceeds, execute}
use bit_computer_system.Simulator.Images.{AreBytes, powered}
use bit_computer_system.Simulator.Program.{
  default_instruction_limit, parse_limit, limit_asked, with_size, with_file, with_limit, main, run,
  read_result,
}
use bit_computer_system.Simulator.Program.Runs.{code_of, run-report}

-- A file that is read brings as many bytes as its size.
abbrev pub AreReadable : Files → Type 0
AreReadable files =
    (filename : List ℕ) (input : InputFile) (size : ℕ) (image : List ℕ)
    → files filename ≡ some input
    → input.size ≡ some size
    → input.content ≡ some image
    → (length image ≡ size) × AreBytes image

-- It has run the processor, or it is 2 and nothing is on the standard output.
abbrev pub IsEnding : Process → Type 0
IsEnding p = (p.exit_code ≤ 1) ⊎ ((p.exit_code ≡ 2) × (p.output ≡ []))

abbrev pub Ends : Result Process → Type 0
Ends r = (p : Process) × (r ≡ ok p) × IsEnding p

limit_of :
    (f b l : Bool) (n limit : ℕ)
    → l ≡ ltb size_max n
    → (if not f || not b || l then none else some n) ≡ some limit
    → limit < 2 ^ 64
limit_of f b l n limit e h = ground arith

parse_limit-lt : (text : List ℕ) (limit : ℕ) → parse_limit text ≡ some limit → limit < 2 ^ 64
unfolding parse_limit
parse_limit-lt text limit h =
    let r = from_chars text in
    limit_of (is_fine r.error) (is_empty r.rest) (ltb size_max r.parsed) r.parsed limit refl h

code_of-le : (ending : Ending) → code_of ending ≤ 1
code_of-le halts = omega arith
code_of-le (fails code word data_address) = omega arith
code_of-le exceeds = omega arith

module _ (ticks limit : ℕ) (filename : List ℕ) (enough : 5 ≤ ticks) (small : limit < 2 ^ 64) where
  rejection :
      (r : Result Process) (text : List ℕ)
      → r ≡ ok (record { exit_code = 2; output = []; diagnostics = text })
      → Ends r
  rejection r text e = (_, e, inr (refl, refl))

  run-Ends :
      (image : List ℕ)
      → AreBytes image
      → length image ≤ size_bytes
      → Ends (run ticks (suc limit) limit image)
  run-Ends image v room =
      let (rom, loads, runs) =
        run-report ticks (suc limit) limit image enough (omega arith) small v room in
      (_, runs, inl (code_of-le ((execute limit 0 (powered rom)).ending)))

  content-Ends :
      (size : ℕ) (content : Option (List ℕ))
      → size ≤ size_bytes
      → ((image : List ℕ) → content ≡ some image → (length image ≡ size) × AreBytes image)
      → Ends (read_result ticks (suc limit) limit filename content)
  content-Ends size none room v = (_, refl, inr (refl, refl))
  content-Ends size (some image) room v =
      let (same, bytes) = v image refl in run-Ends image bytes (omega arith)

  with_size-Ends :
      (input : InputFile) (size : Option ℕ)
      → ((n : ℕ) (image : List ℕ)
          → size ≡ some n
          → input.content ≡ some image
          → (length image ≡ n) × AreBytes image)
      → Ends (with_size ticks (suc limit) limit filename input size)
  unfolding with_size
  with_size-Ends input none v = (_, refl, inr (refl, refl))
  with_size-Ends input (some size) v = elim (Bool-cases (ltb size_bytes size)) [
    | inl large ↦ (_, if_true _ _ large, inr (refl, refl))
    | inr fits ↦ elim (Bool-cases (size % 4 != 0)) [
      | inl odd ↦ (_, if_false _ _ fits ∙ if_true _ _ odd, inr (refl, refl))
      | inr words ↦ elim (Bool-cases (size == 0)) [
        | inl empty ↦
            let (p, runs, ending) = run-Ends [] (λ i b e. ground arith) (omega arith) in
            (
              p,
              if_false _ _ fits
                  ∙ if_false _ _ words
                  ∙ ap (read_result ticks (suc limit) limit filename) (if_true _ _ empty)
                  ∙ runs,
              ending,
            )
        | inr full ↦
            let (p, runs, ending) =
              content-Ends size input.content (ground arith) (λ image e. v size image refl e) in
            (
              p,
              if_false _ _ fits
                  ∙ if_false _ _ words
                  ∙ ap (read_result ticks (suc limit) limit filename) (if_false _ _ full)
                  ∙ runs,
              ending,
            )
      ]
    ]
  ]

  with_file-Ends :
      (file : Option InputFile)
      → ((input : InputFile) (size : ℕ) (image : List ℕ)
          → file ≡ some input
          → input.size ≡ some size
          → input.content ≡ some image
          → (length image ≡ size) × AreBytes image)
      → Ends (with_file ticks (suc limit) limit filename file)
  unfolding with_file
  with_file-Ends none v = (_, refl, inr (refl, refl))
  with_file-Ends (some input) v =
      with_size-Ends input input.size (λ n image s c. v input n image refl s c)

limit_asked_returns :
    (ticks : ℕ) (files : Files) (program filename : List ℕ) (tail : List (List ℕ))
    (asked : Option ℕ)
    → 5 ≤ ticks
    → AreReadable files
    → ((limit : ℕ) → asked ≡ some limit → limit < 2 ^ 64)
    → Ends (with_limit suc ticks files (program ∷ filename ∷ tail) asked)
unfolding argument
limit_asked_returns ticks files program filename tail none enough v small =
    (_, refl, inr (refl, refl))
limit_asked_returns ticks files program filename tail (some limit) enough v small =
    with_file-Ends ticks limit filename enough (small limit refl) (files filename) (v filename)

-- The option of a command line of four.
option_limit :
    (b : Bool) (text : List ℕ) (limit : ℕ)
    → (if b then none else parse_limit text) ≡ some limit
    → limit < 2 ^ 64
option_limit true text limit e = ground arith
option_limit false text limit e = parse_limit-lt text limit e

default_small : (limit : ℕ) → some default_instruction_limit ≡ some limit → limit < 2 ^ 64
default_small limit e = ground arith

-- With five ticks a step or more, on a host whose files hold bytes, as many as their size says,
-- the simulator program returns for every command line that names it; its exit code is at most 1,
-- or it is 2 and the standard output is empty.
pub main-Ends :
    (ticks : ℕ) (files : Files) (program : List ℕ) (arguments : List (List ℕ))
    → 5 ≤ ticks
    → AreReadable files
    → Ends (main ticks files (program ∷ arguments))
unfolding main limit_asked argument
main-Ends ticks files program [] enough v = (_, refl, inr (refl, refl))
main-Ends ticks files program (filename ∷ []) enough v =
    limit_asked_returns ticks files program filename [] (some default_instruction_limit) enough v
      default_small
main-Ends ticks files program (filename ∷ option ∷ []) enough v = (_, refl, inr (refl, refl))
main-Ends ticks files program (filename ∷ option ∷ text ∷ []) enough v =
    limit_asked_returns ticks files program filename (option ∷ text ∷ [])
      (if not (same_text option (codes "--max-instructions")) then none else parse_limit text)
      enough v (option_limit (not (same_text option (codes "--max-instructions"))) text)
main-Ends ticks files program (filename ∷ option ∷ text ∷ more ∷ rest) enough v =
    (_, if_true _ _ (counted rest), inr (refl, refl))
  where
    counted :
        (tail : List (List ℕ))
        → (length (program ∷ filename ∷ option ∷ text ∷ more ∷ tail) != 2
            && length (program ∷ filename ∷ option ∷ text ∷ more ∷ tail) != 4)
          ≡ true
    counted tail = ground arith
