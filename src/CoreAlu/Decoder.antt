-- ===== src/CoreAlu/Decoder.antt =====
-- The decoders of the ALU instructions. `GenDecoder` merges the fields that it looks up into one word;
-- the words of two entries are equal when the fields are, and the fields are compared here.
use mathlib.Core.Option
use lizard.Prelude.{ℕ, ◌==◌, Bool, true, false, ◌&&◌, if◌then◌else◌, Option, none, some}
use lizard.Prelude.{List, [], ◌∷◌}
use lizard.Pymtl.{Pymtl}
use lizard.CoreAlu.{AluFunc, AluMsg, add, sub, sll, slt, xor, srl, sra, or, and, lui, auipc}

-- The fields of `InstMsg` that the decoders name
pub data InstField : Type 0 where
  opcode funct3 funct7 funct7_shft64 : InstField

-- The members of `ImmType` in use
pub data ImmType : Type 0 where
  imm_i imm_u imm_shamt64 : ImmType

-- The arguments of `GenDecoderFixed`
pub record GenDecoder : Type 0 where
  pub fixed_map : List (InstField × ℕ)
  pub field_list : List InstField
  pub field_map : List (List ℕ × AluMsg)
  pub rs1_val : Bool
  pub rs2_val : Bool
  pub rd_val : Bool
  pub imm_type : ImmType
  pub imm_val : Bool

-- The results of `decode`, under `decode_success`
pub record Decoded : Type 0 where
  pub msg : AluMsg
  pub uses_rs1 : Bool
  pub uses_rs2 : Bool
  pub writes_rd : Bool
  pub imm_kind : ImmType
  pub uses_imm : Bool

abbrev pub alu_msg : AluFunc → Bool → Bool → AluMsg
alu_msg f u w = record { func = f; unsigned = u; op32 = w }

unfoldable pub op_decoder : GenDecoder
op_decoder = record {
  fixed_map = (opcode, 0b0110011) ∷ [];
  field_list = funct7 ∷ funct3 ∷ [];
  field_map =
      (0b0000000 ∷ 0b000 ∷ [], alu_msg add false false)
      ∷ (0b0100000 ∷ 0b000 ∷ [], alu_msg sub false false)
      ∷ (0b0000000 ∷ 0b001 ∷ [], alu_msg sll false false)
      ∷ (0b0000000 ∷ 0b010 ∷ [], alu_msg slt false false)
      ∷ (0b0000000 ∷ 0b011 ∷ [], alu_msg slt true false)
      ∷ (0b0000000 ∷ 0b100 ∷ [], alu_msg xor false false)
      ∷ (0b0000000 ∷ 0b101 ∷ [], alu_msg srl false false)
      ∷ (0b0100000 ∷ 0b101 ∷ [], alu_msg sra false false)
      ∷ (0b0000000 ∷ 0b110 ∷ [], alu_msg or false false)
      ∷ (0b0000000 ∷ 0b111 ∷ [], alu_msg and false false)
      ∷ [];
  rs1_val = true;
  rs2_val = true;
  rd_val = true;
  imm_type = imm_i;
  imm_val = false;
}

unfoldable pub op_32_decoder : GenDecoder
op_32_decoder = record {
  fixed_map = (opcode, 0b0111011) ∷ [];
  field_list = funct7 ∷ funct3 ∷ [];
  field_map =
      (0b0000000 ∷ 0b000 ∷ [], alu_msg add false true)
      ∷ (0b0100000 ∷ 0b000 ∷ [], alu_msg sub false true)
      ∷ (0b0000000 ∷ 0b001 ∷ [], alu_msg sll false true)
      ∷ (0b0000000 ∷ 0b101 ∷ [], alu_msg srl false true)
      ∷ (0b0100000 ∷ 0b101 ∷ [], alu_msg sra false true)
      ∷ [];
  rs1_val = true;
  rs2_val = true;
  rd_val = true;
  imm_type = imm_i;
  imm_val = false;
}

unfoldable pub op_imm_decoder : GenDecoder
op_imm_decoder = record {
  fixed_map = (opcode, 0b0010011) ∷ [];
  field_list = funct3 ∷ [];
  field_map =
      (0b000 ∷ [], alu_msg add false false)
      ∷ (0b010 ∷ [], alu_msg slt false false)
      ∷ (0b011 ∷ [], alu_msg slt true false)
      ∷ (0b100 ∷ [], alu_msg xor false false)
      ∷ (0b110 ∷ [], alu_msg or false false)
      ∷ (0b111 ∷ [], alu_msg and false false)
      ∷ [];
  rs1_val = true;
  rs2_val = false;
  rd_val = true;
  imm_type = imm_i;
  imm_val = true;
}

unfoldable pub op_imm_shift_decoder : GenDecoder
op_imm_shift_decoder = record {
  fixed_map = (opcode, 0b0010011) ∷ [];
  field_list = funct7_shft64 ∷ funct3 ∷ [];
  field_map =
      (0b000000 ∷ 0b001 ∷ [], alu_msg sll false false)
      ∷ (0b000000 ∷ 0b101 ∷ [], alu_msg srl false false)
      ∷ (0b010000 ∷ 0b101 ∷ [], alu_msg sra false false)
      ∷ [];
  rs1_val = true;
  rs2_val = false;
  rd_val = true;
  imm_type = imm_shamt64;
  imm_val = true;
}

unfoldable pub op_imm_32_decoder : GenDecoder
op_imm_32_decoder = record {
  fixed_map = (opcode, 0b0011011) ∷ [];
  field_list = funct3 ∷ [];
  field_map = (0b000 ∷ [], alu_msg add false true) ∷ [];
  rs1_val = true;
  rs2_val = false;
  rd_val = true;
  imm_type = imm_i;
  imm_val = true;
}

unfoldable pub op_imm_32_shift_decoder : GenDecoder
op_imm_32_shift_decoder = record {
  fixed_map = (opcode, 0b0011011) ∷ [];
  field_list = funct7 ∷ funct3 ∷ [];
  field_map =
      (0b0000000 ∷ 0b001 ∷ [], alu_msg sll false true)
      ∷ (0b0000000 ∷ 0b101 ∷ [], alu_msg srl false true)
      ∷ (0b0100000 ∷ 0b101 ∷ [], alu_msg sra false true)
      ∷ [];
  rs1_val = true;
  rs2_val = false;
  rd_val = true;
  imm_type = imm_shamt64;
  imm_val = true;
}

unfoldable pub misc_decoder : GenDecoder
misc_decoder = record {
  fixed_map = [];
  field_list = opcode ∷ [];
  field_map =
      (0b0110111 ∷ [], alu_msg lui false false) ∷ (0b0010111 ∷ [], alu_msg auipc false false) ∷ [];
  rs1_val = false;
  rs2_val = false;
  rd_val = true;
  imm_type = imm_u;
  imm_val = true;
}

module _ ⦃p : Pymtl⦄ where
  -- `decode_inst[msg._bitfields[field_name]]`
  unfoldable pub field_of : ℕ → InstField → ℕ
  field_of inst opcode = p.slice inst 0 7
  field_of inst funct3 = p.slice inst 12 15
  field_of inst funct7 = p.slice inst 25 32
  field_of inst funct7_shft64 = p.slice inst 26 32

-- `fields` gives the fields of a word.
-- The `Equals` units of the fixed fields, and the `And` over them
unfoldable pub fixed_equals : (InstField → ℕ) → List (InstField × ℕ) → Bool
fixed_equals fields [] = true
fixed_equals fields ((f, v) ∷ rest) = fields f == v && fixed_equals fields rest

unfoldable pub fields_equal : (InstField → ℕ) → List InstField → List ℕ → Bool
fields_equal fields [] [] = true
fields_equal fields (f ∷ fs) (v ∷ vs) = fields f == v && fields_equal fields fs vs
fields_equal fields [] (v ∷ vs) = false
fields_equal fields (f ∷ fs) [] = false

-- The `LookupTable` over the merged fields; `none` is no match.
unfoldable pub lookup : (InstField → ℕ) → List InstField → List (List ℕ × AluMsg) → Option AluMsg
unfolding fields_equal
lookup fields fs [] = none
lookup fields fs ((vs, m) ∷ rest) =
    let later = lookup fields fs rest in if fields_equal fields fs vs then some m else later

unfoldable pub decode_with : GenDecoder → (InstField → ℕ) → Option Decoded
unfolding fixed_equals lookup
decode_with d fields =
    if fixed_equals fields d.fixed_map
    then Option.map
        (λ m. record {
          msg = m;
          uses_rs1 = d.rs1_val;
          uses_rs2 = d.rs2_val;
          writes_rd = d.rd_val;
          imm_kind = d.imm_type;
          uses_imm = d.imm_val;
        })
        (lookup fields d.field_list d.field_map)
    else none

-- `CompositeDecoder`: the first child that succeeds
unfoldable pub composite : List GenDecoder → (InstField → ℕ) → Option Decoded
unfolding decode_with
composite [] fields = none
composite (d ∷ ds) fields =
    let rest = composite ds fields in
    elim (decode_with d fields) [ some decoded ↦ some decoded | none ↦ rest ]

-- The children of `AluDecoder`
unfoldable pub alu_decoders : List GenDecoder
unfolding op_decoder op_32_decoder op_imm_decoder op_imm_32_decoder op_imm_shift_decoder
    op_imm_32_shift_decoder misc_decoder
alu_decoders =
    op_decoder ∷ op_32_decoder ∷ op_imm_decoder ∷ op_imm_32_decoder ∷ op_imm_shift_decoder
    ∷ op_imm_32_shift_decoder ∷ misc_decoder ∷ []

module _ ⦃p : Pymtl⦄ where
  unfoldable pub alu_decoder : ℕ → Option Decoded
  unfolding field_of composite alu_decoders
  alu_decoder inst = composite alu_decoders (field_of inst)
