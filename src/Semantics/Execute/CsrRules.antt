-- ===== src/Semantics/Execute/CsrRules.antt =====
-- What the instruction set says of the CSR instructions.
use lizard.Prelude.{ℕ, ◌+◌, ◌-◌, ◌%◌, ◌^◌, ◌≡◌, ◌≢◌, arith, ◌==◌, Bool, true, false}
use lizard.Prelude.{if◌then◌else◌, Option, none, some, not, ◌&&◌, ◌/◌, bit_and, bit_or}
use lizard.Pymtl.{Pymtl}
use lizard.Semantics.Machine.{Machine, set_reg, get_reg, csr_contains}
use lizard.Semantics.Execute
use lizard.Semantics.Execute.{Outcome, Result, done, fall_through}

-- What the instruction set writes to a CSR that holds `old`.
abbrev pub isa_value : Execute.CsrOp → ℕ → ℕ → ℕ
isa_value Execute.csrrw old v = v
isa_value Execute.csrrs old v = bit_or old v
isa_value Execute.csrrc old v = bit_and old (2 ^ 64 - 1 - v)
isa_value Execute.csrrwi old v = v
isa_value Execute.csrrsi old v = bit_or old v
isa_value Execute.csrrci old v = bit_and old (2 ^ 64 - 1 - v)

-- The CSRs that the instruction set makes read-only: bits 11 and 10 of the number are set.
abbrev pub is_read_only : ℕ → Bool
is_read_only num = num / 2 ^ 10 % 4 == 3

-- The instructions that attempt a write: a set or a clear does not if its operand is `x0` or 0.
abbrev pub attempts_write : Execute.CsrOp → ℕ → Bool
attempts_write Execute.csrrw rs1 = true
attempts_write Execute.csrrwi rs1 = true
attempts_write _ rs1 = not (rs1 == 0)

-- What a CSR holds after an instruction, by the instruction set; `none` is an illegal instruction, the
-- write of a read-only CSR. Privilege levels and reserved fields, which the code does not have, are
-- left out.
unfoldable pub isa_write : Execute.CsrOp → ℕ → ℕ → ℕ → ℕ → Option ℕ
isa_write op num rs1 old v =
    if is_read_only num && attempts_write op rs1 then none else some (isa_value op old v)

legal_value : (illegal : Bool) (v w : ℕ) → (if illegal then none else some v) ≡ some w → v ≡ w
legal_value true v w e = absurd cc
legal_value false v w e = grind arith

pub isa_write-some :
    (op : Execute.CsrOp) (num rs1 old v w : ℕ)
    → isa_write op num rs1 old v ≡ some w
    → isa_value op old v ≡ w
unfolding isa_write
isa_write-some op num rs1 old v w e =
    legal_value (is_read_only num && attempts_write op rs1) (isa_value op old v) w e

-- What the other instructions leave in a CSR.
abbrev pub lossy_value : Execute.CsrOp → ℕ → ℕ
lossy_value Execute.csrrsi rs1 = rs1
lossy_value _ rs1 = 0

-- A CSR that is in the dictionary and is not one of the two queues.
pub record IsStored (num : ℕ) : Type 0 where
  pub known : csr_contains num ≡ true
  pub not_mngr2proc : num ≢ 0xFC0
  pub not_proc2mngr : num ≢ 0x7C0

-- The instructions that write what the instruction set says.
abbrev pub Conforms : Execute.CsrOp → Type 0
Conforms Execute.csrrw = Unit
Conforms Execute.csrrs = Unit
Conforms Execute.csrrwi = Unit
Conforms _ = ⊥

module _ {Mem : Type 0} where
  -- The operand: a register, or the field of the instruction.
  abbrev pub operand : Execute.CsrOp → ℕ → Machine Mem → ℕ
  operand Execute.csrrw rs1 s = get_reg s rs1
  operand Execute.csrrs rs1 s = get_reg s rs1
  operand Execute.csrrc rs1 s = get_reg s rs1
  operand Execute.csrrwi rs1 s = rs1
  operand Execute.csrrsi rs1 s = rs1
  operand Execute.csrrci rs1 s = rs1

  module _ ⦃p : Pymtl⦄ where
    -- The outcome: `rd` gets the old value, the CSR gets `w`, and nothing else changes.
    abbrev pub Updates : Machine Mem → ℕ → ℕ → ℕ → Outcome Mem (Unit {0}) → Type 0
    Updates s rd num w o =
        (t : Machine Mem) × (o ≡ done t tt)
        × (t.csr num ≡ w)
        × ((k : ℕ) → k ≢ num → t.csr k ≡ s.csr k)
        × (t.regs ≡ (set_reg s rd (s.csr num)).regs)
        × (t.pc ≡ (s.pc + 4) % 2 ^ 64)
