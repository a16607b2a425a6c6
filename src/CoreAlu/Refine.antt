-- ===== src/CoreAlu/Refine.antt =====
-- The core's ALU computes what `RV64GSemantics` says, from the instruction word to the result.
use lizard.Prelude.{ℕ, ◌/◌, ◌%◌, ◌^◌, ◌<◌, ◌≡◌, refl, sym, ap, ◌∙◌, arith, true, false, some}
use lizard.Pymtl.{Pymtl}
use lizard.Semantics.Alu
use lizard.Semantics.Alu.{RrOp, rr_value}
use lizard.CoreAlu.{AluMsg, process, add, sub, sll, slt, xor, srl, sra, or, and}
use lizard.CoreAlu.Decoder
use lizard.CoreAlu.Decoder.{
  InstField, field_of, composite, alu_decoders, alu_decoder, alu_msg, Decoded, imm_i,
}
use lizard.CoreAlu.Stage

-- The opcode, `funct7` and `funct3` of an R-type word.
abbrev HasFields : ℕ → ℕ → ℕ → ℕ → Type 0
HasFields inst opcode funct7 funct3 =
    (inst % 2 ^ 7 ≡ opcode) × (inst / 2 ^ 25 % 2 ^ 7 ≡ funct7) × (inst / 2 ^ 12 % 2 ^ 3 ≡ funct3)

-- The words of the register-register instructions that the ALU executes, as the instruction set encodes
-- them. The others go to the multiplier and the divider.
abbrev pub Encodes : RrOp → ℕ → Type 0
Encodes Alu.add inst = HasFields inst 0b0110011 0b0000000 0b000
Encodes Alu.sub inst = HasFields inst 0b0110011 0b0100000 0b000
Encodes Alu.sll inst = HasFields inst 0b0110011 0b0000000 0b001
Encodes Alu.slt inst = HasFields inst 0b0110011 0b0000000 0b010
Encodes Alu.sltu inst = HasFields inst 0b0110011 0b0000000 0b011
Encodes Alu.xor inst = HasFields inst 0b0110011 0b0000000 0b100
Encodes Alu.srl inst = HasFields inst 0b0110011 0b0000000 0b101
Encodes Alu.sra inst = HasFields inst 0b0110011 0b0100000 0b101
Encodes Alu.or inst = HasFields inst 0b0110011 0b0000000 0b110
Encodes Alu.and inst = HasFields inst 0b0110011 0b0000000 0b111
Encodes Alu.addw inst = HasFields inst 0b0111011 0b0000000 0b000
Encodes Alu.subw inst = HasFields inst 0b0111011 0b0100000 0b000
Encodes Alu.sllw inst = HasFields inst 0b0111011 0b0000000 0b001
Encodes Alu.srlw inst = HasFields inst 0b0111011 0b0000000 0b101
Encodes Alu.sraw inst = HasFields inst 0b0111011 0b0100000 0b101
Encodes _ inst = ⊥

-- Two register operands and a result register.
abbrev decoded : AluMsg → Decoded
decoded m = record {
  msg = m;
  uses_rs1 = true;
  uses_rs2 = true;
  writes_rd = true;
  imm_kind = imm_i;
  uses_imm = false;
}

module _ ⦃p : Pymtl⦄ where
  -- What the stage computes of a decoded instruction and the values of its registers.
  abbrev pub result_of : Decoded → ℕ → ℕ → ℕ → ℕ → ℕ
  result_of d a b imm pc =
      process
        record { alu_msg = d.msg; rs1 = a; rs2 = b; rs2_val = d.uses_rs2; imm = imm; hdr_pc = pc }

  -- The decoder succeeds, reads both registers, writes one, and the stage gives the instruction's value.
  abbrev pub Implements : RrOp → ℕ → ℕ → ℕ → ℕ → ℕ → Type 0
  Implements op inst a b imm pc =
      (d : Decoded) × (alu_decoder inst ≡ some d)
      × (d.uses_rs1 ≡ true)
      × (d.uses_rs2 ≡ true)
      × (d.writes_rd ≡ true)
      × (rr_value op a b ≡ some (result_of d a b imm pc))

  module _ (inst a b imm pc : ℕ) (ha : a < 2 ^ 64) (hb : b < 2 ^ 64) where
    -- The fields of the word, by the numbers that they hold
    field_values : ℕ → ℕ → ℕ → InstField → ℕ
    field_values o f7 f3 Decoder.opcode = o
    field_values o f7 f3 Decoder.funct3 = f3
    field_values o f7 f3 Decoder.funct7 = f7
    field_values o f7 f3 Decoder.funct7_shft64 = f7 / 2

    field_of_lem :
        (o f7 f3 : ℕ)
        → HasFields inst o f7 f3
        → (f : InstField) → field_of inst f ≡ field_values o f7 f3 f
    unfolding field_of field_values
    field_of_lem o f7 f3 (eo, e7, e3) Decoder.opcode = omega (arith, p.slice_law inst 0 7, eo)
    field_of_lem o f7 f3 (eo, e7, e3) Decoder.funct3 = omega (arith, p.slice_law inst 12 15, e3)
    field_of_lem o f7 f3 (eo, e7, e3) Decoder.funct7 = omega (arith, p.slice_law inst 25 32, e7)
    field_of_lem o f7 f3 (eo, e7, e3) Decoder.funct7_shft64 =
        omega (arith, p.slice_law inst 26 32, e7)

    -- Decoding a word is decoding the numbers.
    decodes :
        (o f7 f3 : ℕ) (m : AluMsg)
        → HasFields inst o f7 f3
        → composite alu_decoders (field_values o f7 f3) ≡ some (decoded m)
        → alu_decoder inst ≡ some (decoded m)
    unfolding alu_decoder
    decodes o f7 f3 m h e = ap (composite alu_decoders) (λ i f. field_of_lem o f7 f3 h f i) ∙ e

    implements :
        (op : RrOp) (o f7 f3 : ℕ) (m : AluMsg)
        → HasFields inst o f7 f3
        → composite alu_decoders (field_values o f7 f3) ≡ some (decoded m)
        → some (Stage.stage a b imm pc ha hb m) ≡ rr_value op a b
        → Implements op inst a b imm pc
    implements op o f7 f3 m h e value =
        (decoded m, decodes o f7 f3 m h e, refl, refl, refl, sym value)

    -- For the fifteen instructions of the ALU on 64-bit operands: the decoder accepts every word that
    -- encodes the instruction, and the stage computes from what it decodes, whatever the immediate and
    -- the program counter, the value that the semantics writes to `rd`.
    pub alu_refines : (op : RrOp) → Encodes op inst → Implements op inst a b imm pc
    unfolding alu_decoders composite field_values
    alu_refines Alu.add h =
        implements Alu.add 0x33 0x0 0 (alu_msg add false false) h refl
          (Stage.stage-add a b imm pc ha hb)
    alu_refines Alu.addw h =
        implements Alu.addw 0x3b 0x0 0 (alu_msg add false true) h refl
          (Stage.stage-addw a b imm pc ha hb)
    alu_refines Alu.sub h =
        implements Alu.sub 0x33 0x20 0 (alu_msg sub false false) h refl
          (Stage.stage-sub a b imm pc ha hb)
    alu_refines Alu.subw h =
        implements Alu.subw 0x3b 0x20 0 (alu_msg sub false true) h refl
          (Stage.stage-subw a b imm pc ha hb)
    alu_refines Alu.sll h =
        implements Alu.sll 0x33 0x0 1 (alu_msg sll false false) h refl
          (Stage.stage-sll a b imm pc ha hb)
    alu_refines Alu.sllw h =
        implements Alu.sllw 0x3b 0x0 1 (alu_msg sll false true) h refl
          (Stage.stage-sllw a b imm pc ha hb)
    alu_refines Alu.slt h =
        implements Alu.slt 0x33 0x0 2 (alu_msg slt false false) h refl
          (Stage.stage-slt a b imm pc ha hb)
    alu_refines Alu.sltu h =
        implements Alu.sltu 0x33 0x0 3 (alu_msg slt true false) h refl
          (Stage.stage-sltu a b imm pc ha hb)
    alu_refines Alu.xor h =
        implements Alu.xor 0x33 0x0 4 (alu_msg xor false false) h refl
          (Stage.stage-xor a b imm pc ha hb)
    alu_refines Alu.srl h =
        implements Alu.srl 0x33 0x0 5 (alu_msg srl false false) h refl
          (Stage.stage-srl a b imm pc ha hb)
    alu_refines Alu.srlw h =
        implements Alu.srlw 0x3b 0x0 5 (alu_msg srl false true) h refl
          (Stage.stage-srlw a b imm pc ha hb)
    alu_refines Alu.sra h =
        implements Alu.sra 0x33 0x20 5 (alu_msg sra false false) h refl
          (Stage.stage-sra a b imm pc ha hb)
    alu_refines Alu.sraw h =
        implements Alu.sraw 0x3b 0x20 5 (alu_msg sra false true) h refl
          (Stage.stage-sraw a b imm pc ha hb)
    alu_refines Alu.or h =
        implements Alu.or 0x33 0x0 6 (alu_msg or false false) h refl
          (Stage.stage-or a b imm pc ha hb)
    alu_refines Alu.and h =
        implements Alu.and 0x33 0x0 7 (alu_msg and false false) h refl
          (Stage.stage-and a b imm pc ha hb)
    alu_refines Alu.mul h = elim h [ ]
    alu_refines Alu.mulh h = elim h [ ]
    alu_refines Alu.mulhsu h = elim h [ ]
    alu_refines Alu.mulhu h = elim h [ ]
    alu_refines Alu.mulw h = elim h [ ]
    alu_refines Alu.div h = elim h [ ]
    alu_refines Alu.divu h = elim h [ ]
    alu_refines Alu.divw h = elim h [ ]
    alu_refines Alu.divuw h = elim h [ ]
    alu_refines Alu.rem h = elim h [ ]
    alu_refines Alu.remu h = elim h [ ]
    alu_refines Alu.remw h = elim h [ ]
    alu_refines Alu.remuw h = elim h [ ]
