-- ===== src/RegisterFile/Tests.antt =====
-- Three registers and two snapshots, and the theorems at inputs that meet their hypotheses.
use lizard.Prelude.{ℕ, ◌&&◌, ◌≡◌, refl, true, false, none, some, List, [], ◌∷◌}
use lizard.Prelude.{if◌then◌else◌}
use lizard.RegisterFile.{WriteCall, after_write, handle_write}
use lizard.RegisterFile.Refine.{in_range}
use lizard.RegisterFile.Snapshot.{SnapState, SnapCalls, snap_step, fl_snap_cycle}
use lizard.RegisterFile.Snapshot.Refine.{id_in_range, fl_snap_cycle-snap_step}

abbrev regs : List ℕ
regs = 10 ∷ 11 ∷ 12 ∷ []

abbrev ports : List (WriteCall ℕ)
ports =
    record { call = true; addr = 1; value = 21 }
    ∷ record { call = false; addr = 0; value = 30 }
    ∷ record { call = true; addr = 1; value = 41 }
    ∷ []

-- The later port wins.
after_write_test : after_write regs ports ≡ 10 ∷ 41 ∷ 12 ∷ []
unfolding after_write handle_write
after_write_test = refl

abbrev saved : SnapState ℕ
saved = record { regs = regs; snapshots = (1 ∷ 2 ∷ 3 ∷ []) ∷ (4 ∷ 5 ∷ 6 ∷ []) ∷ [] }

abbrev calls : SnapCalls ℕ
calls = record { writes = ports; snapshot = some 1; restore = some 1; set_in = none }

fl_snap_cycle-snap_step_example :
    fl_snap_cycle true saved calls
    ≡ (if in_range 3 ports && id_in_range 2 (some 1) then snap_step true saved calls else none)
fl_snap_cycle-snap_step_example = fl_snap_cycle-snap_step true saved calls
