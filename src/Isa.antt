-- ===== src/Isa.antt =====
-- The instruction encodings: `FieldSpec` of lizard/util/arch/isa.py and the tables of
-- lizard/util/arch/rv64g.py.
pub mod Table
pub mod Fields
pub mod Offsets
mod Tests
use lizard.Prelude.{
  ℕ, zero, suc, ◌+◌, ◌-◌, ◌==◌, Bool, true, false, if◌then◌else◌, Option, none, some, List, [], ◌∷◌,
}
use lizard.Prelude.Int.{pos}
use lizard.Pymtl.{Pymtl}

-- A pair of `FieldSpec.parts`: the bits of the instruction, or a fixed value, and the bits of the field.
-- Slices are written as `bslice` takes them, the high bit first.
pub data Part : Type 0 where
  copied : ℕ → ℕ → ℕ → ℕ → Part
  fixed : ℕ → ℕ → ℕ → Part

pub record FieldSpec : Type 0 where
  pub width : ℕ
  pub parts : List Part

-- A `FieldSpec` whose parts are one slice
unfoldable pub whole : ℕ → ℕ → ℕ → FieldSpec
whole width high low = record { width = width; parts = copied high low (width - 1) 0 ∷ [] }

-- The keys of `fields`
pub data Field : Type 0 where
  opcode funct2 funct3 funct7 rd rs1 rs2 shamt32 shamt64 : Field
  i_imm csrnum s_imm b_imm u_imm j_imm c_imm pred succ aq rl : Field

unfoldable pub fields : Field → FieldSpec
unfolding whole
fields opcode = whole 7 6 0
fields funct2 = whole 2 26 25
fields funct3 = whole 3 14 12
fields funct7 = whole 7 31 25
fields rd = whole 5 11 7
fields rs1 = whole 5 19 15
fields rs2 = whole 5 24 20
fields shamt32 = whole 5 24 20
fields shamt64 = whole 6 25 20
fields i_imm = whole 12 31 20
fields csrnum = whole 12 31 20
fields s_imm = record { width = 12; parts = copied 11 7 4 0 ∷ copied 31 25 11 5 ∷ [] }
fields b_imm = record {
  width = 13;
  parts =
      copied 31 31 12 12
      ∷ copied 7 7 11 11
      ∷ copied 30 25 10 5
      ∷ copied 11 8 4 1
      ∷ fixed 0 0 0
      ∷ [];
}
fields u_imm = whole 20 31 12
fields j_imm = record {
  width = 21;
  parts =
      copied 31 31 20 20
      ∷ copied 19 12 19 12
      ∷ copied 20 20 11 11
      ∷ copied 30 21 10 1
      ∷ fixed 0 0 0
      ∷ [];
}
fields c_imm = whole 5 19 15
fields pred = whole 4 27 24
fields succ = whole 4 23 20
fields aq = whole 1 26 26
fields rl = whole 1 25 25

module _ ⦃p : Pymtl⦄ where
  -- The loop of `assemble`; `none` is the ValueError of a fixed part.
  unfoldable pub assemble_parts : List Part → ℕ → ℕ → Option ℕ
  assemble_parts [] target value = some target
  assemble_parts (copied high low field_high field_low ∷ rest) target value =
      assemble_parts rest (p.put target low (high + 1) (p.slice value field_low (field_high + 1)))
        value
  assemble_parts (fixed wanted field_high field_low ∷ rest) target value =
      let further = assemble_parts rest target value in
      if p.slice value field_low (field_high + 1) == wanted then further else none

  -- `FieldSpec.assemble`; `value` is built as `Bits(width, value)` first.
  unfoldable pub assemble : FieldSpec → ℕ → ℕ → Option ℕ
  unfolding assemble_parts
  assemble spec target value = elim (p.construct spec.width (pos value)) [
    | none ↦ none
    | some bits ↦ assemble_parts spec.parts target bits
  ]

  -- The loop of `disassemble`
  unfoldable pub disassemble_parts : List Part → ℕ → ℕ → ℕ
  disassemble_parts [] source result = result
  disassemble_parts (copied high low field_high field_low ∷ rest) source result =
      disassemble_parts rest source
        (p.put result field_low (field_high + 1) (p.slice source low (high + 1)))
  disassemble_parts (fixed value field_high field_low ∷ rest) source result =
      disassemble_parts rest source (p.put result field_low (field_high + 1) value)

  -- `FieldSpec.disassemble`
  unfoldable pub disassemble : FieldSpec → ℕ → ℕ
  unfolding disassemble_parts
  disassemble spec source = disassemble_parts spec.parts source 0
