-- ===== src/RenameTable.antt =====
-- The rename table: lizard/core/rtl/renametable.py over the register file with snapshots, and the
-- functional model of lizard/core/fl/renametable.py.
pub mod Refine
pub mod Recover
mod Tests
use lizard.Prelude.{ℕ, ◌==◌, Bool, true, false, ◌&&◌, if◌then◌else◌}
use lizard.Prelude.{Option, none, some, List, [], ◌∷◌, map, ◌>>=◌}
use lizard.RegisterFile.{WriteCall, read_data, fl_read, fl_write, fl_set}
use lizard.RegisterFile.Snapshot.{SnapState, SnapCalls, snap_step, fl_snapshot, fl_restore, called}

-- Physical registers are numbers; `const_zero` and `zero_tag` are `const_zero` and `ZERO_TAG`.
module _ (const_zero : Bool) (zero_tag : ℕ) where
  -- `handle_zero_read`: `lookup_preg` of a lookup port in a cycle with the given calls
  unfoldable pub lookup : SnapState ℕ → SnapCalls ℕ → ℕ → Option ℕ
  unfolding read_data
  lookup s c areg =
      if const_zero && areg == 0
      then some zero_tag
      else read_data false s.regs c.writes c.set_in areg

  unfoldable pub fl_lookup : SnapState ℕ → ℕ → Option ℕ
  unfolding fl_read
  fl_lookup s areg = if const_zero && areg == 0 then some zero_tag else fl_read s.regs areg

module _ (const_zero : Bool) where
  -- `handle_zero_write`: what the inner register file gets from an update port
  unfoldable pub handle_zero_write : WriteCall ℕ → WriteCall ℕ
  handle_zero_write w =
      if const_zero then record w { call = if w.addr == 0 then false else w.call } else w

  unfoldable pub step : SnapState ℕ → SnapCalls ℕ → Option (SnapState ℕ)
  unfolding snap_step handle_zero_write
  step s c = snap_step true s (record c { writes = map handle_zero_write c.writes })

  unfoldable pub run : SnapState ℕ → List (SnapCalls ℕ) → Option (SnapState ℕ)
  run s [] = some s
  run s (c ∷ cs) = step s c >>= λ next. run next cs

  -- `RenameTableFL`
  unfoldable pub fl_update : SnapState ℕ → ℕ → ℕ → Option (SnapState ℕ)
  unfolding fl_write
  fl_update s areg preg =
      if const_zero && areg == 0
      then some s
      else fl_write s.regs areg preg >>= λ regs. some (record s { regs = regs })

  unfoldable pub fl_updates : SnapState ℕ → List (WriteCall ℕ) → Option (SnapState ℕ)
  unfolding fl_update
  fl_updates s [] = some s
  fl_updates s (w ∷ ports) =
      (if w.call then fl_update s w.addr w.value else some s) >>= λ next. fl_updates next ports

  -- The methods that a cycle calls, in the order of the interface.
  unfoldable pub fl_cycle : SnapState ℕ → SnapCalls ℕ → Option (SnapState ℕ)
  unfolding fl_updates fl_snapshot fl_restore fl_set
  fl_cycle s c = fl_updates s c.writes >>= λ s1. called c.snapshot fl_snapshot s1 >>= λ s2.
      called c.restore fl_restore s2 >>= λ s3.
      called c.set_in (λ s v. some (record s { regs = fl_set s.regs v })) s3
