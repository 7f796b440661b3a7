-- ===== src/RefTrace/Scan.antt =====
-- The register loops of simulator/app/ref_trace.cpp: the copy that is taken before a step, and the
-- search for the register that it changed.
use bit_computer_system.Base.{
  ℕ, zero, suc, ◌+◌, ◌≤◌, ◌<◌, ◌≡◌, ◌≢◌, ◌∙◌, refl, sym, ap, arith, true, ◌==◌, if◌then◌else◌,
  if_true, if_false, none, some, ok, Bool-cases, inl, inr, eq→==, ne→==, ==_iff, lt→ltb,
}
use bit_computer_system.RegisterFile.{RegisterFile}
use bit_computer_system.Isa.{get}
use bit_computer_system.CpuCore.Phases.{read-get}
use bit_computer_system.RefTrace.{Registers, Change, cell, snapshot, scan}

-- The copy holds what the registers read.
abbrev pub Copies : ℕ → Registers → RegisterFile → Type 0
Copies n before r = (j : ℕ) → j < n → before j ≡ get r j

pub snapshot_lem :
    (n : ℕ) (r : RegisterFile)
    → n ≤ 32
    → (before : Registers) × (snapshot n r ≡ ok before) × Copies n before r
unfolding snapshot
snapshot_lem zero r h = (λ _. 0, refl, λ j p. absurd (omega arith))
snapshot_lem (suc n) r h =
    let (before, copied, same) = snapshot_lem n r (omega arith) in
    (
      λ j. if j == n then get r n else before j,
      rw (copied, read-get r n (omega arith)) refl,
      λ j p. ground (arith, same j, eq→== j n, ne→== j n),
    )

pub cell_lem :
    (before : Registers) (r : RegisterFile) (index : ℕ)
    → Copies 32 before r
    → index < 32
    → cell before index ≡ ok (get r index)
unfolding cell
cell_lem before r index c h = if_true _ _ (lt→ltb index 32 h) ∙ ap ok (c index h)

abbrev pub nothing : Change
nothing = record { changed_register = none; register_value = 0 }

-- What is seen when a register `d` may have changed.
abbrev pub change_at : RegisterFile → RegisterFile → ℕ → Change
change_at r r' d =
    if get r' d == get r d
    then nothing
    else record { changed_register = some d; register_value = get r' d }

module _ (before : Registers) (r r' : RegisterFile) (c : Copies 32 before r) where
  -- A round at a register that is the same.
  scan_skip :
      (left index : ℕ) (change : Change)
      → index < 32
      → get r' index ≡ get r index
      → scan (suc left) index before r' change ≡ scan left (index + 1) before r' change
  unfolding scan
  scan_skip left index change h e =
      rw (read-get r' index h, cell_lem before r index c h)
        (if_true _ _ (eq→== (get r' index) (get r index) e))

  -- A round at the first register that is not.
  scan_found :
      (left index : ℕ)
      → index < 32
      → get r' index ≢ get r index
      → scan (suc left) index before r' nothing
        ≡ scan left
            (index + 1)
            before
            r'
            (record { changed_register = some index; register_value = get r' index })
  unfolding scan
  scan_found left index h e =
      rw (read-get r' index h, cell_lem before r index c h)
        (if_false _ _ (ne→== (get r' index) (get r index) e))

  scan_rest :
      (left index : ℕ) (change : Change)
      → index + left ≤ 32
      → ((j : ℕ) → index ≤ j → j < 32 → get r' j ≡ get r j)
      → scan left index before r' change ≡ ok (some change)
  unfolding scan
  scan_rest zero index change h same = refl
  scan_rest (suc left) index change h same =
      scan_skip left index change (omega arith) (same index (omega arith) (omega arith))
      ∙ scan_rest left (index + 1) change (omega arith) (λ j p q. same j (omega arith) q)

  same_at :
      (d : ℕ)
      → ((j : ℕ) → j ≢ d → get r' j ≡ get r j)
      → (get r' d == get r d) ≡ true
      → (j : ℕ) → get r' j ≡ get r j
  same_at d same e j = elim (Bool-cases (j == d)) [
    | inl here ↦ let h : j ≡ d = (==_iff j d).0 here in rw h ((==_iff (get r' d) (get r d)).0 e)
    | inr other ↦ same j (ground arith)
  ]

  -- The rounds from the register `d` on.
  scan_here :
      (left d : ℕ)
      → d + suc left ≡ 32
      → ((j : ℕ) → j ≢ d → get r' j ≡ get r j)
      → scan (suc left) d before r' nothing ≡ ok (some (change_at r r' d))
  scan_here left d h same = elim (Bool-cases (get r' d == get r d)) [
    | inl e ↦
        scan_rest (suc left) d nothing (omega arith) (λ j p q. same_at d same e j)
        ∙ ap (λ (k : Change). ok (some k)) (sym (if_true _ _ e))
    | inr e ↦
        let found : Change = record { changed_register = some d; register_value = get r' d } in
        scan_found left d (omega arith) (ground arith)
        ∙ scan_rest left (d + 1) found (omega arith) (λ j p q. same j (omega arith))
        ∙ ap (λ (k : Change). ok (some k)) (sym (if_false _ _ e))
  ]

  -- The search finds the one register that may have changed, and only if it has.
  pub scan_lem :
      (left index d : ℕ)
      → index + left ≡ 32
      → index ≤ d
      → d < 32
      → ((j : ℕ) → j ≢ d → get r' j ≡ get r j)
      → scan left index before r' nothing ≡ ok (some (change_at r r' d))
  scan_lem zero index d h p q same = absurd (omega arith)
  scan_lem (suc left) index d h p q same = elim (Bool-cases (index == d)) [
    | inl here ↦
        let e : index ≡ d = (==_iff index d).0 here in rw e (scan_here left d (omega arith) same)
    | inr other ↦
        scan_skip left index nothing (omega arith) (same index (ground arith))
        ∙ scan_lem left (index + 1) d (omega arith) (ground arith) q same
  ]
