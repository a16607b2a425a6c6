-- ===== src/RegisterFile/Snapshot/Refine.antt =====
-- The register file with snapshots against its functional model.
use lizard.Prelude.{ℕ, zero, suc, ◌+◌, ◌<◌, ◌≤◌, ◌==◌, ltb, Bool, true, false, ◌&&◌, arith}
use lizard.Prelude.{Option, none, some, List, [], ◌∷◌, length, set, get_elem?, get_or, ◌≡◌, refl}
use lizard.Prelude.{if◌then◌else◌}
use lizard.RegisterFile.{WriteCall, after_write, after_set, dump_out, fl_set}
use lizard.RegisterFile.Refine.{in_range, fl_writes-after_write}
use lizard.RegisterFile.Snapshot.{
  SnapState, fl_snap_cycle, snapshots_next, SnapCalls, same_id, snap_step, snap_writes, fl_snapshot,
  fl_restore, restore_out, inner_set, should_restore, restore_vector, mux_out,
}

module _ {ℓ} {A : Type ℓ} where
  pub get_elem?-set_self :
      (xs : List A) (i : ℕ) (v : A) → i < length xs → get_elem? (set xs i v) i ≡ some v
  get_elem?-set_self [] i v h = absurd (omega arith)
  get_elem?-set_self (x ∷ xs) zero v h = refl
  get_elem?-set_self (x ∷ xs) (suc i) v h = get_elem?-set_self xs i v (omega arith)

  pub get_elem?-set_ne :
      (xs : List A) (i j : ℕ) (v : A) → (i == j) ≡ false → get_elem? (set xs i v) j ≡ get_elem? xs j
  get_elem?-set_ne [] i j v h = refl
  get_elem?-set_ne (x ∷ xs) zero zero v h = cc
  get_elem?-set_ne (x ∷ xs) zero (suc j) v h = refl
  get_elem?-set_ne (x ∷ xs) (suc i) zero v h = refl
  get_elem?-set_ne (x ∷ xs) (suc i) (suc j) v h = get_elem?-set_ne xs i j v (ground arith)

  pub get_elem?-set_ge :
      (xs : List A) (i j : ℕ) (v : A) → length xs ≤ i → get_elem? (set xs i v) j ≡ get_elem? xs j
  get_elem?-set_ge [] i j v h = refl
  get_elem?-set_ge (x ∷ xs) zero j v h = absurd (omega arith)
  get_elem?-set_ge (x ∷ xs) (suc i) zero v h = refl
  get_elem?-set_ge (x ∷ xs) (suc i) (suc j) v h = get_elem?-set_ge xs i j v (omega arith)

  pub get_elem?-get_or :
      (xs : List A) (i : ℕ) (d : A) → i < length xs → get_elem? xs i ≡ some (get_or xs i d)
  get_elem?-get_or [] i d h = absurd (omega arith)
  get_elem?-get_or (x ∷ xs) zero d h = refl
  get_elem?-get_or (x ∷ xs) (suc i) d h = get_elem?-get_or xs i d (omega arith)

-- The number that a method is called with, if it is called, is below `n`.
abbrev pub id_in_range : ℕ → Option ℕ → Bool
id_in_range n none = true
id_in_range n (some id) = ltb id n

module _ {A : Type 0} where
  snapshots_next_idle :
      (dump : List A) (i : ℕ) (snaps : List (List A)) → snapshots_next none dump i snaps ≡ snaps
  unfolding snapshots_next after_set after_write
  snapshots_next_idle dump i [] = refl
  snapshots_next_idle dump i (x ∷ snaps) = rw (snapshots_next_idle dump (suc i) snaps)

  snapshots_next_below :
      (id : ℕ) (dump : List A) (i : ℕ) (snaps : List (List A))
      → id < i
      → snapshots_next (some id) dump i snaps ≡ snaps
  unfolding snapshots_next after_set after_write
  snapshots_next_below id dump i [] h = refl
  snapshots_next_below id dump i (x ∷ snaps) h =
      ground (arith, snapshots_next_below id dump (suc i) snaps)

  snapshots_next-set :
      (id : ℕ) (dump : List A) (i k : ℕ) (snaps : List (List A))
      → id ≡ i + k
      → snapshots_next (some id) dump i snaps ≡ set snaps k dump
  unfolding snapshots_next after_set after_write
  snapshots_next-set id dump i k [] h = refl
  snapshots_next-set id dump i zero (x ∷ snaps) h =
      ground (arith, snapshots_next_below id dump (suc i) snaps)
  snapshots_next-set id dump i (suc k) (x ∷ snaps) h =
      ground (arith, snapshots_next-set id dump (suc i) k snaps)

  -- What snapshot `id` holds after a cycle.
  pub snapshots_next-get_elem? :
      (target : Option ℕ) (dump : List A) (snaps : List (List A)) (id : ℕ)
      → get_elem? (snapshots_next target dump 0 snaps) id ≡ (
          if same_id target (some id) && ltb id (length snaps)
          then some dump
          else get_elem? snaps id)
  snapshots_next-get_elem? none dump snaps id = rw (snapshots_next_idle dump 0 snaps) refl
  snapshots_next-get_elem? (some sn) dump snaps id = ground (
    arith,
    snapshots_next-set sn dump 0 sn snaps,
    get_elem?-set_self snaps sn dump,
    get_elem?-set_ne snaps sn id dump,
    get_elem?-set_ge snaps sn id dump,
  )

  -- The statement below, by the fields.
  CycleOf :
      (bypass : Bool)
      → List A
      → List (List A)
      → List (WriteCall A)
      → (snapshot restore : Option ℕ) → Option (List A)
      → Type 0
  CycleOf bypass regs snapshots writes snapshot restore set_in =
      let s : SnapState A = record { regs = regs; snapshots = snapshots } in
      let c : SnapCalls A = record {
        writes = writes;
        snapshot = snapshot;
        restore = restore;
        set_in = set_in;
      } in
      fl_snap_cycle bypass s c ≡ (
        if in_range (length regs) writes && id_in_range (length snapshots) snapshot
        then snap_step bypass s c
        else none)

  cycle_cases :
      (bypass : Bool) (regs : List A) (snaps : List (List A)) (writes : List (WriteCall A))
      (snapshot restore : Option ℕ) (set_in : Option (List A))
      → CycleOf bypass regs snaps writes snapshot restore set_in
  unfolding CycleOf fl_snap_cycle snap_step snap_writes fl_snapshot fl_restore fl_set restore_out
      inner_set dump_out after_set should_restore restore_vector mux_out
  cycle_cases true regs snaps writes none none se = ground (
    arith,
    fl_writes-after_write regs writes,
    snapshots_next_idle (after_write regs writes) 0 snaps,
  )
  cycle_cases true regs snaps writes none (some re) se = ground (
    arith,
    fl_writes-after_write regs writes,
    snapshots_next_idle (after_write regs writes) 0 snaps,
  )
  cycle_cases true regs snaps writes (some sn) none se = ground (
    arith,
    fl_writes-after_write regs writes,
    snapshots_next-set sn (after_write regs writes) 0 sn snaps,
  )
  cycle_cases true regs snaps writes (some sn) (some re) se = ground (
    arith,
    fl_writes-after_write regs writes,
    snapshots_next-set sn (after_write regs writes) 0 sn snaps,
    get_elem?-set_self snaps sn (after_write regs writes),
    get_elem?-set_ne snaps sn re (after_write regs writes),
    get_elem?-get_or snaps re [],
  )
  cycle_cases false regs snaps writes none none se =
      ground (arith, fl_writes-after_write regs writes, snapshots_next_idle regs 0 snaps)
  cycle_cases false regs snaps writes none (some re) se =
      ground (arith, fl_writes-after_write regs writes, snapshots_next_idle regs 0 snaps)
  cycle_cases false regs snaps writes (some sn) none se =
      ground (arith, fl_writes-after_write regs writes, snapshots_next-set sn regs 0 sn snaps)
  cycle_cases false regs snaps writes (some sn) (some re) se = ground (
    arith,
    fl_writes-after_write regs writes,
    snapshots_next-set sn regs 0 sn snaps,
    get_elem?-set_self snaps sn regs,
    get_elem?-set_ne snaps sn re regs,
    get_elem?-get_or snaps re [],
  )

  -- A cycle of the register file with snapshots, of either bypass, does what the methods of the
  -- functional model do that are called in it, in the order of the interface, whichever of them are
  -- called and whether or not they name one snapshot; where a write port or `snapshot` is called out
  -- of range, the functional model raises an error instead. Both fail if `restore` is called out of
  -- range.
  pub fl_snap_cycle-snap_step :
      (bypass : Bool) (s : SnapState A) (c : SnapCalls A)
      → fl_snap_cycle bypass s c ≡ (
          if in_range (length s.regs) c.writes && id_in_range (length s.snapshots) c.snapshot
          then snap_step bypass s c
          else none)
  unfolding CycleOf
  fl_snap_cycle-snap_step bypass s c =
      cycle_cases bypass s.regs s.snapshots c.writes c.snapshot c.restore c.set_in
