-- ===== src/CoreBranch.antt =====
-- Branches and jumps in the core: lizard/util/rtl/comparator.py, the stage around it in
-- lizard/core/rtl/backend/branch.py, and the table of lizard/core/rtl/frontend/branch_decoder.py.
pub mod Compare
pub mod Refine
mod Tests
use lizard.Prelude.{ℕ, ◌==◌, Bool, true, false, not, ltb, ◌||◌, if◌then◌else◌, Option, none, some}
use lizard.Prelude.{List, [], ◌∷◌}
use lizard.Pymtl.{Pymtl}
use lizard.CoreAlu.{biased}

-- `CMPFunc`
pub data CmpFunc : Type 0 where
  cmp_eq cmp_ne cmp_lt cmp_ge : CmpFunc

-- `BranchType` of lizard/core/rtl/messages.py
pub data BranchType : Type 0 where
  branch_type_eq branch_type_ne branch_type_lt branch_type_ge : BranchType

pub record BranchMsg : Type 0 where
  pub type_ : BranchType
  pub unsigned : Bool

-- The operation classes that reach the stage
pub data OpClass : Type 0 where
  op_class_branch op_class_jump : OpClass

-- The parts of a `DispatchMsg` that the stage reads
pub record BranchInput : Type 0 where
  pub op_class : OpClass
  pub msg : BranchMsg
  pub rs1_val : Bool
  pub rs1 : ℕ
  pub rs2 : ℕ
  pub imm : ℕ
  pub hdr_pc : ℕ

abbrev pub branch_msg : BranchType → Bool → BranchMsg
branch_msg t u = record { type_ = t; unsigned = u }

-- `field_map` of `BranchDecoder`
unfoldable pub branch_map : List (ℕ × BranchMsg)
branch_map =
    (0b000, branch_msg branch_type_eq false)
    ∷ (0b001, branch_msg branch_type_ne false)
    ∷ (0b100, branch_msg branch_type_lt false)
    ∷ (0b101, branch_msg branch_type_ge false)
    ∷ (0b110, branch_msg branch_type_lt true)
    ∷ (0b111, branch_msg branch_type_ge true)
    ∷ []

unfoldable pub lookup_in : List (ℕ × BranchMsg) → ℕ → Option BranchMsg
lookup_in [] k = none
lookup_in ((n, m) ∷ rest) k = let later = lookup_in rest k in if n == k then some m else later

-- The lookup of `funct3`
unfoldable pub branch_decoder : ℕ → Option BranchMsg
unfolding branch_map lookup_in
branch_decoder funct3 = lookup_in branch_map funct3

-- `OP_LUT_MAP`
unfoldable pub cmp_lut : BranchType → CmpFunc
cmp_lut branch_type_eq = cmp_eq
cmp_lut branch_type_ne = cmp_ne
cmp_lut branch_type_lt = cmp_lt
cmp_lut branch_type_ge = cmp_ge

abbrev pub is_jump_class : OpClass → Bool
is_jump_class op_class_jump = true
is_jump_class op_class_branch = false

module _ ⦃p : Pymtl⦄ where
  -- `Comparator`: `set_signed` is as in the ALU.
  unfoldable pub compare_exec : ℕ → CmpFunc → ℕ → ℕ → Bool → Bool
  unfolding biased
  compare_exec xlen func src0 src1 usign =
      let eq_ = biased xlen usign src0 == biased xlen usign src1 in
      let lt_ = ltb (biased xlen usign src0) (biased xlen usign src1) in
      elim func [ cmp_eq ↦ eq_ | cmp_ne ↦ not eq_ | cmp_lt ↦ lt_ | cmp_ge ↦ not lt_ || eq_ ]

  -- `set_take_branch`
  unfoldable pub take_branch : BranchInput → Bool
  unfolding compare_exec cmp_lut
  take_branch m =
      compare_exec 64 (cmp_lut m.msg.type_) m.rs1 m.rs2 m.msg.unsigned || is_jump_class m.op_class

  -- `compute_target`: the address that the stage redirects to
  unfoldable pub branch_target : BranchInput → ℕ
  unfolding take_branch
  branch_target m =
      let imm = p.sext 21 64 m.imm in
      let pcimm = p.add 64 m.hdr_pc imm in
      let rs1imm = p.put (p.add 64 m.rs1 imm) 0 1 0 in
      let fallthrough = p.add 64 m.hdr_pc 4 in
      if take_branch m
      then (if not (is_jump_class m.op_class) || not m.rs1_val then pcimm else rs1imm)
      else fallthrough

  -- The field `result` of the message that the stage passes on
  unfoldable pub link : BranchInput → ℕ
  link m = p.add 64 m.hdr_pc 4
