-- ===== src/RenameTable/Refine.antt =====
-- The rename table against its functional model.
use lizard.Prelude.{ℕ, Bool, true, false, ◌&&◌, arith}
use lizard.Prelude.{none, List, [], ◌∷◌, length, set, map, ◌∙◌, ◌≡◌, refl}
use lizard.Prelude.{if◌then◌else◌}
use lizard.RegisterFile.{WriteCall, read_data, fl_read, fl_writes, fl_write}
use lizard.RegisterFile.Refine.{in_range}
use lizard.RegisterFile.Snapshot.{SnapState, SnapCalls, snap_writes, fl_snap_cycle}
use lizard.RegisterFile.Snapshot.Refine.{id_in_range, fl_snap_cycle-snap_step}
use lizard.RenameTable.{lookup, fl_lookup, handle_zero_write, step, fl_updates, fl_cycle}

-- The updates that reach the table name registers that it has.
abbrev pub updates_in_range : Bool → ℕ → List (WriteCall ℕ) → Bool
updates_in_range const_zero n ports = in_range n (map (handle_zero_write const_zero) ports)

fl_updates-snap_writes :
    (const_zero : Bool) (s : SnapState ℕ) (ports : List (WriteCall ℕ))
    → fl_updates const_zero s ports ≡ snap_writes s (map (handle_zero_write const_zero) ports)
unfolding fl_updates snap_writes fl_writes handle_zero_write fl_write
fl_updates-snap_writes const_zero s [] = refl
fl_updates-snap_writes true s (w ∷ ports) = ground (
  arith,
  fl_updates-snap_writes true s ports,
  fl_updates-snap_writes true (record s { regs = set s.regs w.addr w.value }) ports,
)
fl_updates-snap_writes false s (w ∷ ports) = ground (
  arith,
  fl_updates-snap_writes false s ports,
  fl_updates-snap_writes false (record s { regs = set s.regs w.addr w.value }) ports,
)

fl_cycle-snap_cycle :
    (const_zero : Bool) (s : SnapState ℕ) (c : SnapCalls ℕ)
    → fl_cycle const_zero s c
      ≡ fl_snap_cycle true s (record c { writes = map (handle_zero_write const_zero) c.writes })
unfolding fl_cycle fl_snap_cycle
fl_cycle-snap_cycle const_zero s c = rw (fl_updates-snap_writes const_zero s c.writes) refl

-- A cycle of the rename table does what the methods of its functional model do that are called in it:
-- the lookups return what they return before the other methods, and the updates, `snapshot`,
-- `restore` and `set` leave the same table and snapshots. Where an update that is not to a constant
-- register 0, or `snapshot`, is called out of range, the functional model raises an error instead;
-- both fail if `restore` is called out of range.
fl_cycle-rename :
    (const_zero : Bool) (zero_tag : ℕ) (s : SnapState ℕ) (c : SnapCalls ℕ)
    → ((areg : ℕ) → lookup const_zero zero_tag s c areg ≡ fl_lookup const_zero zero_tag s areg)
      × (fl_cycle const_zero s c ≡ (
          if updates_in_range const_zero (length s.regs) c.writes
            && id_in_range (length s.snapshots) c.snapshot
          then step const_zero s c
          else none))
unfolding lookup fl_lookup read_data fl_read step
fl_cycle-rename const_zero zero_tag s c = (λ areg. refl, cycle)
  where
    gated : SnapCalls ℕ
    gated = record c { writes = map (handle_zero_write const_zero) c.writes }

    cycle : fl_cycle const_zero s c ≡ (
        if updates_in_range const_zero (length s.regs) c.writes
          && id_in_range (length s.snapshots) c.snapshot
        then step const_zero s c
        else none)
    cycle = fl_cycle-snap_cycle const_zero s c ∙ fl_snap_cycle-snap_step true s gated
