-- ===== src/RegisterFile/Refine.antt =====
-- The register file of a cycle against the methods of its functional model.
use lizard.Prelude.{ℕ, zero, suc, ◌+◌, ◌<◌, ltb, Bool, true, false, ◌&&◌, ◌||◌, not, arith}
use lizard.Prelude.{Option, none, some, List, [], ◌∷◌, length, set, ◌≡◌, refl, ap}
use lizard.Prelude.{◌∙◌, if◌then◌else◌, Bool-cases, inl, inr, length-set}
use lizard.RegisterFile.{WriteCall, handle_write, after_write, after_set, fl_writes, fl_cycle}

-- Every port that is called has an address below `n`.
abbrev pub in_range : {A : Type 0} → ℕ → List (WriteCall A) → Bool
in_range n [] = true
in_range n (w ∷ ports) = (not w.call || ltb w.addr n) && in_range n ports

module _ {A : Type 0} where
  pub length-handle_write :
      (w : WriteCall A) (i : ℕ) (row : List A) → length (handle_write w i row) ≡ length row
  unfolding handle_write
  length-handle_write w i [] = refl
  length-handle_write w i (x ∷ row) = ap suc (length-handle_write w (suc i) row)

  handle_write_idle :
      (w : WriteCall A) (i : ℕ) (row : List A) → w.call ≡ false → handle_write w i row ≡ row
  unfolding handle_write
  handle_write_idle w i [] h = refl
  handle_write_idle w i (x ∷ row) h = rw (h, handle_write_idle w (suc i) row h)

  -- Registers numbered past the address keep their values.
  handle_write_below :
      (w : WriteCall A) (i : ℕ) (row : List A) → w.addr < i → handle_write w i row ≡ row
  unfolding handle_write
  handle_write_below w i [] h = refl
  handle_write_below w i (x ∷ row) h = ground (arith, handle_write_below w (suc i) row)

  handle_write-set :
      (w : WriteCall A) (i k : ℕ) (row : List A)
      → w.call ≡ true
      → w.addr ≡ i + k
      → handle_write w i row ≡ set row k w.value
  unfolding handle_write
  handle_write-set w i k [] h e = refl
  handle_write-set w i zero (x ∷ row) h e = ground (arith, handle_write_below w (suc i) row)
  handle_write-set w i (suc k) (x ∷ row) h e = ground (arith, handle_write-set w (suc i) k row h)

  pub length-after_write :
      (regs : List A) (ports : List (WriteCall A)) → length (after_write regs ports) ≡ length regs
  unfolding after_write
  length-after_write regs [] = refl
  length-after_write regs (w ∷ ports) =
      length-after_write (handle_write w 0 regs) ports ∙ length-handle_write w 0 regs

  pub fl_writes-after_write :
      (regs : List A) (ports : List (WriteCall A))
      → fl_writes regs ports
        ≡ (if in_range (length regs) ports then some (after_write regs ports) else none)
  unfolding fl_writes after_write
  fl_writes-after_write regs [] = refl
  fl_writes-after_write regs (w ∷ ports) = elim (Bool-cases w.call) [
    | inl called ↦ ground (
      arith,
      handle_write-set w 0 w.addr regs called (omega arith),
      length-set regs w.addr w.value,
      fl_writes-after_write (set regs w.addr w.value) ports,
    )
    | inr idle ↦ ground (arith, handle_write_idle w 0 regs idle, fl_writes-after_write regs ports)
  ]

  -- A clock cycle of the register file does what the methods of the functional model do that are
  -- called in it, port by port and then `set`, for all ports and values; where a port that is called
  -- has an address out of range, the functional model raises an error instead.
  fl_cycle-after_set :
      (regs : List A) (ports : List (WriteCall A)) (in_ : Option (List A))
      → fl_cycle regs ports in_
        ≡ (if in_range (length regs) ports then some (after_set regs ports in_) else none)
  unfolding fl_cycle after_set
  fl_cycle-after_set regs ports none = ground (arith, fl_writes-after_write regs ports)
  fl_cycle-after_set regs ports (some in_) = ground (arith, fl_writes-after_write regs ports)
