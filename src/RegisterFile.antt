-- ===== src/RegisterFile.antt =====
-- The register file of lizard/util/rtl/registerfile.py, cycle by cycle, and the functional model
-- of lizard/util/fl/registerfile.py, method by method.
pub mod Refine
pub mod Snapshot
mod Tests
use lizard.Prelude.{ℕ, zero, suc, ◌==◌, ltb, Bool, true, false, ◌&&◌, if◌then◌else◌}
use lizard.Prelude.{Option, none, some, List, [], ◌∷◌, length, set, get_elem?, ◌>>=◌}

-- What a write port carries in a cycle.
pub record WriteCall (A : Type 0) : Type 0 where
  pub call : Bool
  pub addr : ℕ
  pub value : A

module _ {A : Type 0} where
  -- `handle_write`: a row of `write_inc`, from the row before it, for the registers from `reg_i` on
  unfoldable pub handle_write : WriteCall A → ℕ → List A → List A
  handle_write w reg_i [] = []
  handle_write w reg_i (x ∷ row) =
      (if w.call && w.addr == reg_i then w.value else x) ∷ handle_write w (suc reg_i) row

  -- `after_write`: the last row, or the registers where there is no write port
  unfoldable pub after_write : List A → List (WriteCall A) → List A
  after_write regs [] = regs
  after_write regs (w ∷ ports) = after_write (handle_write w 0 regs) ports

  -- `handle_set`, with `set_in_` under `set_call`
  unfoldable pub after_set : List A → List (WriteCall A) → Option (List A) → List A
  after_set regs ports (some in_) = in_
  after_set regs ports none = after_write regs ports

  -- `update` at a clock edge
  unfoldable pub update : Bool → List A → List A → List (WriteCall A) → Option (List A) → List A
  update true reset_values regs ports in_ = reset_values
  update false reset_values regs ports in_ = after_set regs ports in_

  -- `dump_out`, by `write_dump_bypass`
  unfoldable pub dump_out : Bool → List A → List (WriteCall A) → List A
  dump_out true regs ports = after_write regs ports
  dump_out false regs ports = regs

  -- `handle_read`, by `write_read_bypass`; `none` is an address that no register has
  unfoldable pub read_data : Bool → List A → List (WriteCall A) → Option (List A) → ℕ → Option A
  read_data true regs ports in_ addr = get_elem? (after_set regs ports in_) addr
  read_data false regs ports in_ addr = get_elem? regs addr

  -- `RegisterFileFL`: `none` is the `IndexError` of the list
  unfoldable pub fl_read : List A → ℕ → Option A
  fl_read regs addr = get_elem? regs addr

  unfoldable pub fl_write : List A → ℕ → A → Option (List A)
  fl_write regs addr value = if ltb addr (length regs) then some (set regs addr value) else none

  unfoldable pub fl_set : List A → List A → List A
  fl_set regs in_ = in_

-- The methods of a cycle in the order of the interface: the write ports that are called, in turn.
module _ {A : Type 0} where
  unfoldable pub fl_writes : List A → List (WriteCall A) → Option (List A)
  unfolding fl_write
  fl_writes regs [] = some regs
  fl_writes regs (w ∷ ports) =
      (if w.call then fl_write regs w.addr w.value else some regs) >>= λ next. fl_writes next ports

  -- The writes, then `set`.
  unfoldable pub fl_cycle : List A → List (WriteCall A) → Option (List A) → Option (List A)
  unfolding fl_writes fl_set
  fl_cycle regs ports in_ = fl_writes regs ports >>= λ next.
      some (elim in_ [ some value ↦ fl_set next value | none ↦ next ])
