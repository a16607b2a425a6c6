-- ===== src/RenameTable/Tests.antt =====
-- Four architectural registers and two snapshots; a branch that is predicted wrongly.
use lizard.Prelude.{ℕ, ◌≡◌, refl, arith, true, none, some, List, [], ◌∷◌}
use lizard.RegisterFile.{WriteCall}
use lizard.RegisterFile.Snapshot.{SnapState, SnapCalls}
use lizard.RenameTable.{step, run}
use lizard.RenameTable.Recover.{recover_lem}

abbrev start : SnapState ℕ
start = record {
  regs = 0 ∷ 1 ∷ 2 ∷ 3 ∷ [];
  snapshots = (0 ∷ 0 ∷ 0 ∷ 0 ∷ []) ∷ (0 ∷ 0 ∷ 0 ∷ 0 ∷ []) ∷ [];
}

abbrev rename : ℕ → ℕ → List (WriteCall ℕ)
rename areg preg = record { call = true; addr = areg; value = preg } ∷ []

-- Renames register 1 and takes snapshot 0 for a branch.
abbrev branch : SnapCalls ℕ
branch = record { writes = rename 1 9; snapshot = some 0; restore = none; set_in = none }

-- Two instructions on the wrong path, the second with a snapshot of its own.
abbrev wrong_path : List (SnapCalls ℕ)
wrong_path =
    record { writes = rename 2 10; snapshot = none; restore = none; set_in = none }
    ∷ record { writes = rename 1 11; snapshot = some 1; restore = none; set_in = none }
    ∷ []

abbrev redirect : SnapCalls ℕ
redirect = record { writes = rename 3 12; snapshot = none; restore = some 0; set_in = none }

abbrev after_branch : SnapState ℕ
after_branch = record {
  regs = 0 ∷ 9 ∷ 2 ∷ 3 ∷ [];
  snapshots = (0 ∷ 9 ∷ 2 ∷ 3 ∷ []) ∷ (0 ∷ 0 ∷ 0 ∷ 0 ∷ []) ∷ [];
}

abbrev after_wrong_path : SnapState ℕ
after_wrong_path = record {
  regs = 0 ∷ 11 ∷ 10 ∷ 3 ∷ [];
  snapshots = (0 ∷ 9 ∷ 2 ∷ 3 ∷ []) ∷ (0 ∷ 11 ∷ 10 ∷ 3 ∷ []) ∷ [];
}

abbrev recovered : SnapState ℕ
recovered = record {
  regs = 0 ∷ 9 ∷ 2 ∷ 3 ∷ [];
  snapshots = (0 ∷ 9 ∷ 2 ∷ 3 ∷ []) ∷ (0 ∷ 11 ∷ 10 ∷ 3 ∷ []) ∷ [];
}

branches : step true start branch ≡ some after_branch
unfolding step lizard.RegisterFile.after_write lizard.RegisterFile.handle_write
branches = refl

runs : run true after_branch wrong_path ≡ some after_wrong_path
unfolding run step lizard.RegisterFile.after_write lizard.RegisterFile.handle_write
runs = refl

redirects : step true after_wrong_path redirect ≡ some recovered
unfolding step lizard.RegisterFile.after_write lizard.RegisterFile.handle_write
redirects = refl

recover_lem_example : recovered.regs ≡ after_branch.regs
recover_lem_example =
    recover_lem true 0 start after_branch after_wrong_path recovered branch redirect wrong_path
      (omega arith) (record { takes = refl; no_restore = refl; no_set = refl }) branches
      (refl, (refl, tt)) runs (record { takes = refl; other = refl; no_set = refl }) redirects
