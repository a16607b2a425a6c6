-- ===== src/RegisterFile/Snapshot.antt =====
-- The register file with snapshots: lizard/util/rtl/snapshotting_registerfile.py, which is built of
-- register files and multiplexers, and lizard/util/fl/snapshotting_registerfile.py.
pub mod Refine
use lizard.Prelude.{ℕ, suc, ◌==◌, ltb, Bool, true, false, ◌&&◌, ◌||◌, if◌then◌else◌}
use lizard.Prelude.{Option, none, some, List, [], ◌∷◌, length, set, get_elem?, ◌>>=◌}
use lizard.RegisterFile.{WriteCall, after_set, dump_out, fl_writes, fl_set}

pub record SnapState (A : Type 0) : Type 0 where
  pub regs : List A
  pub snapshots : List (List A)

-- The calls of a cycle: a method with an argument is that argument, if the method is called.
pub record SnapCalls (A : Type 0) : Type 0 where
  pub writes : List (WriteCall A)
  pub snapshot : Option ℕ
  pub restore : Option ℕ
  pub set_in : Option (List A)

abbrev pub is_some {ℓ} : {A : Type ℓ} → Option A → Bool
is_some none = false
is_some (some a) = true

-- Two methods are called with one number.
abbrev pub same_id : Option ℕ → Option ℕ → Bool
same_id none b = false
same_id (some a) none = false
same_id (some a) (some b) = a == b

-- `Mux`: the input that is selected, or `none` where the assertion on `select` fails
unfoldable pub mux_out {ℓ} : {A : Type ℓ} → List A → ℕ → Option A
mux_out in_ select = get_elem? in_ select

-- A method of a cycle, where it is called.
abbrev pub called {ℓ} : {B : Type ℓ} {S : Type 0} → Option B → (S → B → Option S) → S → Option S
called none method s = some s
called (some b) method s = method s b

module _ {A : Type 0} where
  -- `handle_snapshot_save` for the snapshots from `i` on, each of which is a register file whose
  -- `set_in_` is `dump`
  unfoldable pub snapshots_next : Option ℕ → List A → ℕ → List (List A) → List (List A)
  unfolding after_set
  snapshots_next target dump i [] = []
  snapshots_next target dump i (x ∷ rest) =
      after_set x [] (if same_id target (some i) then some dump else none)
      ∷ snapshots_next target dump (suc i) rest

  -- `should_restore`, by `write_snapshot_bypass`
  unfoldable pub should_restore : Bool → SnapCalls A → Bool
  should_restore false c = is_some c.restore
  should_restore true c = if same_id c.snapshot c.restore then false else is_some c.restore

  -- `restore_vector`, by `write_snapshot_bypass`, from the output of the multiplexers
  unfoldable pub restore_vector : Bool → SnapCalls A → List A → List A → List A
  restore_vector false c dump out = if same_id c.snapshot c.restore then dump else out
  restore_vector true c dump out = out

  -- `set_call` and `set_in_` of the inner register file: `should_set` and `set_muxes`
  unfoldable pub inner_set : Bool → SnapCalls A → List A → List A → Option (List A)
  unfolding should_restore restore_vector
  inner_set bypass c dump out = elim c.set_in [
    | some value ↦ some value
    | none ↦ if should_restore bypass c then some (restore_vector bypass c dump out) else none
  ]

  -- The multiplexers' output; `restore_source_id` is taken for valid where `restore` is not called.
  unfoldable pub restore_out : SnapState A → Option ℕ → Option (List A)
  unfolding mux_out
  restore_out s none = some s.regs
  restore_out s (some id) = mux_out s.snapshots id

  -- A clock edge without reset.
  unfoldable pub snap_step : Bool → SnapState A → SnapCalls A → Option (SnapState A)
  unfolding restore_out inner_set snapshots_next after_set dump_out
  snap_step bypass s c =
      let dump = dump_out bypass s.regs c.writes in
      restore_out s c.restore >>= λ out. some (record {
        regs = after_set s.regs c.writes (inner_set bypass c dump out);
        snapshots = snapshots_next c.snapshot dump 0 s.snapshots;
      })

  -- `SnapshottingRegisterFileFL`
  unfoldable pub fl_snapshot : SnapState A → ℕ → Option (SnapState A)
  fl_snapshot s target_id =
      if ltb target_id (length s.snapshots)
      then some (record s { snapshots = set s.snapshots target_id s.regs })
      else none

  unfoldable pub fl_restore : SnapState A → ℕ → Option (SnapState A)
  unfolding fl_set
  fl_restore s source_id =
      get_elem? s.snapshots source_id >>= λ out. some (record s { regs = fl_set s.regs out })

  unfoldable pub snap_writes : SnapState A → List (WriteCall A) → Option (SnapState A)
  unfolding fl_writes
  snap_writes s ports = fl_writes s.regs ports >>= λ regs. some (record s { regs = regs })

  -- The methods that a cycle calls, in the order of the interface.
  unfoldable pub fl_snap_cycle : Bool → SnapState A → SnapCalls A → Option (SnapState A)
  unfolding snap_writes fl_snapshot fl_restore fl_set
  fl_snap_cycle true s c = snap_writes s c.writes >>= λ s1.
      called c.snapshot fl_snapshot s1 >>= λ s2. called c.restore fl_restore s2 >>= λ s3.
      called c.set_in (λ s v. some (record s { regs = fl_set s.regs v })) s3
  fl_snap_cycle false s c = called c.snapshot fl_snapshot s >>= λ s1.
      snap_writes s1 c.writes >>= λ s2. called c.restore fl_restore s2 >>= λ s3.
      called c.set_in (λ s v. some (record s { regs = fl_set s.regs v })) s3
