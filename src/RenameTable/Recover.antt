-- ===== src/RenameTable/Recover.antt =====
-- Recovery from a wrong prediction: a restored snapshot gives the table back.
use lizard.Prelude.{ℕ, ◌<◌, Bool, true, false, arith}
use lizard.Prelude.{none, some, List, [], ◌∷◌, length, map, ◌∙◌, get_elem?, ◌≡◌, refl}
use lizard.Prelude.{Option-cases, inl, inr}
use lizard.RegisterFile.{after_set, after_write, dump_out}
use lizard.RegisterFile.Snapshot.{
  SnapState, SnapCalls, same_id, snap_step, snapshots_next, restore_out, inner_set, should_restore,
  restore_vector, mux_out,
}
use lizard.RegisterFile.Snapshot.Refine.{snapshots_next-get_elem?}
use lizard.RenameTable.{handle_zero_write, step, run}

-- No cycle takes snapshot `id` anew.
abbrev pub Keeps : ℕ → List (SnapCalls ℕ) → Type 0
Keeps id [] = Unit
Keeps id (c ∷ cs) = (same_id c.snapshot (some id) ≡ false) × Keeps id cs

-- A cycle that takes snapshot `id` of the table that it leaves.
pub record Saves (id : ℕ) (c : SnapCalls ℕ) : Type 0 where
  pub takes : c.snapshot ≡ some id
  pub no_restore : c.restore ≡ none
  pub no_set : c.set_in ≡ none

-- A cycle that restores snapshot `id`, whatever it updates.
pub record Restores (id : ℕ) (c : SnapCalls ℕ) : Type 0 where
  pub takes : c.restore ≡ some id
  pub other : same_id c.snapshot (some id) ≡ false
  pub no_set : c.set_in ≡ none

-- A step that succeeds, taken apart.
snap_step-eq_some :
    (s t : SnapState ℕ) (c : SnapCalls ℕ)
    → snap_step true s c ≡ some t
    → (out : List ℕ) × (restore_out s c.restore ≡ some out)
      × (t.regs ≡ after_set s.regs c.writes (inner_set true c (after_write s.regs c.writes) out))
      × (t.snapshots ≡ snapshots_next c.snapshot (after_write s.regs c.writes) 0 s.snapshots)
unfolding snap_step dump_out
snap_step-eq_some s t c h = elim (Option-cases (restore_out s c.restore)) [
  | inl e ↦ absurd (ground arith)
  | inr (out, e) ↦ (out, e, ground arith, ground arith)
]

gate : Bool → SnapCalls ℕ → SnapCalls ℕ
gate const_zero c = record c { writes = map (handle_zero_write const_zero) c.writes }

step_keeps :
    (const_zero : Bool) (id : ℕ) (s t : SnapState ℕ) (c : SnapCalls ℕ)
    → same_id c.snapshot (some id) ≡ false
    → step const_zero s c ≡ some t
    → get_elem? t.snapshots id ≡ get_elem? s.snapshots id
unfolding step gate
step_keeps const_zero id s t c other h =
    let g = gate const_zero c in
    let dump = after_write s.regs g.writes in
    let (out, e, regs, snaps) = snap_step-eq_some s t g h in
    rw snaps (rw (snapshots_next-get_elem? c.snapshot dump s.snapshots id, other) refl)

step-Saves :
    (const_zero : Bool) (id : ℕ) (s t : SnapState ℕ) (c : SnapCalls ℕ)
    → Saves id c
    → id < length s.snapshots
    → step const_zero s c ≡ some t
    → get_elem? t.snapshots id ≡ some t.regs
unfolding step gate inner_set should_restore after_set
step-Saves const_zero id s t c v lt h =
    let g = gate const_zero c in
    let dump = after_write s.regs g.writes in
    let (out, e, regs, snaps) = snap_step-eq_some s t g h in
    ground (arith, snapshots_next-get_elem? c.snapshot dump s.snapshots id, regs, snaps)

step-Restores :
    (const_zero : Bool) (id : ℕ) (s t : SnapState ℕ) (c : SnapCalls ℕ) (saved : List ℕ)
    → Restores id c
    → get_elem? s.snapshots id ≡ some saved
    → step const_zero s c ≡ some t
    → t.regs ≡ saved
unfolding step gate inner_set should_restore restore_vector after_set restore_out mux_out
step-Restores const_zero id s t c saved v e h =
    let g = gate const_zero c in
    let (out, e', regs, snaps) = snap_step-eq_some s t g h in ground (arith, regs)

run-Keeps :
    (const_zero : Bool) (id : ℕ) (s t : SnapState ℕ) (cs : List (SnapCalls ℕ))
    → Keeps id cs
    → run const_zero s cs ≡ some t
    → get_elem? t.snapshots id ≡ get_elem? s.snapshots id
unfolding run
run-Keeps const_zero id s t [] k h = ground arith
run-Keeps const_zero id s t (c ∷ cs) k h = elim (Option-cases (step const_zero s c)) [
  | inl e ↦ absurd (ground arith)
  | inr (u, e) ↦
      ground (arith, run-Keeps const_zero id u t cs k.1, step_keeps const_zero id s u c k.0 e)
]

-- A restored snapshot gives the table back: if a cycle takes snapshot `id` (a number that the table
-- has) and no cycle after it takes that snapshot anew, whatever else those cycles update, save and
-- restore, then a cycle that restores `id`, and calls no `set`, leaves the table of the end of the cycle
-- that took it; the updates of the restoring cycle itself are lost.
pub recover_lem :
    (const_zero : Bool) (id : ℕ) (s t u v : SnapState ℕ) (c d : SnapCalls ℕ)
    (cs : List (SnapCalls ℕ))
    → id < length s.snapshots
    → Saves id c
    → step const_zero s c ≡ some t
    → Keeps id cs
    → run const_zero t cs ≡ some u
    → Restores id d
    → step const_zero u d ≡ some v
    → v.regs ≡ t.regs
recover_lem const_zero id s t u v c d cs lt saves sc keeps r restores sd =
    step-Restores const_zero id u v d t.regs restores
      (run-Keeps const_zero id t u cs keeps r ∙ step-Saves const_zero id s t c saves lt sc) sd
