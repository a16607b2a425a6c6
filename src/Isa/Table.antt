-- ===== src/Isa/Table.antt =====
-- `encoding_table` of lizard/util/arch/rv64g.py and the search of `Isa.decode_inst_name`.
pub mod Decode
use lizard.Prelude.{
  ◌>>=◌, ℕ, ◌==◌, Bool, true, false, if◌then◌else◌, Option, none, some, List, [], ◌∷◌, ◌++◌,
}
use lizard.Pymtl.{Pymtl}
use lizard.Semantics.Alu
use lizard.Semantics.Alu.{RrOp}
use lizard.Semantics.Execute
use lizard.Semantics.Execute.{ImmOp, ShiftOp, LoadOp, StoreOp, BranchOp, CsrOp}
use lizard.Isa.{
  Field, fields, assemble, rd, rs1, rs2, i_imm, s_imm, b_imm, u_imm, j_imm, c_imm, csrnum, shamt32,
  shamt64, pred, succ, aq, rl, funct3,
}

pub data AmoOp : Type 0 where
  lr sc amoswap amoadd amoxor amoand amoor amomin amomax amominu amomaxu : AmoOp

-- The suffixes of `gen_amo_width_variants` and `gen_amo_consistency_variants`
pub data AmoWidth : Type 0 where
  w d : AmoWidth

pub data AmoOrder : Type 0 where
  plain acquire release acquire_release : AmoOrder

-- The names in the table. The names that `RV64GSemantics` has a method for are those of the operations
-- there.
pub data Name : Type 0 where
  rr : RrOp → Name
  imm : ImmOp → Name
  shift : ShiftOp → Name
  load : LoadOp → Name
  store : StoreOp → Name
  branch : BranchOp → Name
  csr : CsrOp → Name
  lui auipc jal jalr fence fence_i ecall ebreak invld : Name
  amo : AmoOp → AmoWidth → AmoOrder → Name

-- A row: `name`, `simple_args`, `opcode_mask` and `opcode`
pub record Row : Type 0 where
  pub name : Name
  pub simple_args : List Field
  pub opcode_mask : ℕ
  pub opcode : ℕ

abbrev pub row : Name → List Field → ℕ → ℕ → Row
row n args mask code = record { name = n; simple_args = args; opcode_mask = mask; opcode = code }

unfoldable pub base_table : List Row
base_table =
    row lui (rd ∷ u_imm ∷ []) 0x0000007F 0x00000037
    ∷ row auipc (rd ∷ u_imm ∷ []) 0x0000007F 0x00000017
    ∷ row jal (rd ∷ j_imm ∷ []) 0x0000007F 0x0000006F
    ∷ row jalr (rd ∷ rs1 ∷ i_imm ∷ []) 0x0000707F 0x00000067
    ∷ row (branch Execute.beq) (rs1 ∷ rs2 ∷ b_imm ∷ []) 0x0000707F 0x00000063
    ∷ row (branch Execute.bne) (rs1 ∷ rs2 ∷ b_imm ∷ []) 0x0000707F 0x00001063
    ∷ row (branch Execute.blt) (rs1 ∷ rs2 ∷ b_imm ∷ []) 0x0000707F 0x00004063
    ∷ row (branch Execute.bge) (rs1 ∷ rs2 ∷ b_imm ∷ []) 0x0000707F 0x00005063
    ∷ row (branch Execute.bltu) (rs1 ∷ rs2 ∷ b_imm ∷ []) 0x0000707F 0x00006063
    ∷ row (branch Execute.bgeu) (rs1 ∷ rs2 ∷ b_imm ∷ []) 0x0000707F 0x00007063
    ∷ row (load Execute.lb) (rd ∷ i_imm ∷ rs1 ∷ []) 0x0000707F 0x00000003
    ∷ row (load Execute.lh) (rd ∷ i_imm ∷ rs1 ∷ []) 0x0000707F 0x00001003
    ∷ row (load Execute.lw) (rd ∷ i_imm ∷ rs1 ∷ []) 0x0000707F 0x00002003
    ∷ row (load Execute.ld) (rd ∷ i_imm ∷ rs1 ∷ []) 0x0000707F 0x00003003
    ∷ row (load Execute.lbu) (rd ∷ i_imm ∷ rs1 ∷ []) 0x0000707F 0x00004003
    ∷ row (load Execute.lhu) (rd ∷ i_imm ∷ rs1 ∷ []) 0x0000707F 0x00005003
    ∷ row (load Execute.lwu) (rd ∷ i_imm ∷ rs1 ∷ []) 0x0000707F 0x00006003
    ∷ row (store Execute.sb) (rs2 ∷ s_imm ∷ rs1 ∷ []) 0x0000707F 0x00000023
    ∷ row (store Execute.sh) (rs2 ∷ s_imm ∷ rs1 ∷ []) 0x0000707F 0x00001023
    ∷ row (store Execute.sw) (rs2 ∷ s_imm ∷ rs1 ∷ []) 0x0000707F 0x00002023
    ∷ row (store Execute.sd) (rs2 ∷ s_imm ∷ rs1 ∷ []) 0x0000707F 0x00003023
    ∷ row (imm Execute.addi) (rd ∷ rs1 ∷ i_imm ∷ []) 0x0000707F 0x00000013
    ∷ row (imm Execute.slti) (rd ∷ rs1 ∷ i_imm ∷ []) 0x0000707F 0x00002013
    ∷ row (imm Execute.sltiu) (rd ∷ rs1 ∷ i_imm ∷ []) 0x0000707F 0x00003013
    ∷ row (imm Execute.xori) (rd ∷ rs1 ∷ i_imm ∷ []) 0x0000707F 0x00004013
    ∷ row (imm Execute.ori) (rd ∷ rs1 ∷ i_imm ∷ []) 0x0000707F 0x00006013
    ∷ row (imm Execute.andi) (rd ∷ rs1 ∷ i_imm ∷ []) 0x0000707F 0x00007013
    ∷ row (shift Execute.slli) (rd ∷ rs1 ∷ shamt64 ∷ []) 0xFC00707F 0x00001013
    ∷ row (shift Execute.srli) (rd ∷ rs1 ∷ shamt64 ∷ []) 0xFC00707F 0x00005013
    ∷ row (shift Execute.srai) (rd ∷ rs1 ∷ shamt64 ∷ []) 0xFC00707F 0x40005013
    ∷ row (imm Execute.addiw) (rd ∷ rs1 ∷ i_imm ∷ []) 0x0000707F 0x0000001B
    ∷ row (shift Execute.slliw) (rd ∷ rs1 ∷ shamt32 ∷ []) 0xFE00707F 0x0000101B
    ∷ row (shift Execute.srliw) (rd ∷ rs1 ∷ shamt32 ∷ []) 0xFE00707F 0x0000501B
    ∷ row (shift Execute.sraiw) (rd ∷ rs1 ∷ shamt32 ∷ []) 0xFE00707F 0x4000501B
    ∷ row (rr Alu.add) (rd ∷ rs1 ∷ rs2 ∷ []) 0xFE00707F 0x00000033
    ∷ row (rr Alu.sub) (rd ∷ rs1 ∷ rs2 ∷ []) 0xFE00707F 0x40000033
    ∷ row (rr Alu.sll) (rd ∷ rs1 ∷ rs2 ∷ []) 0xFE00707F 0x00001033
    ∷ row (rr Alu.slt) (rd ∷ rs1 ∷ rs2 ∷ []) 0xFE00707F 0x00002033
    ∷ row (rr Alu.sltu) (rd ∷ rs1 ∷ rs2 ∷ []) 0xFE00707F 0x00003033
    ∷ row (rr Alu.xor) (rd ∷ rs1 ∷ rs2 ∷ []) 0xFE00707F 0x00004033
    ∷ row (rr Alu.srl) (rd ∷ rs1 ∷ rs2 ∷ []) 0xFE00707F 0x00005033
    ∷ row (rr Alu.sra) (rd ∷ rs1 ∷ rs2 ∷ []) 0xFE00707F 0x40005033
    ∷ row (rr Alu.or) (rd ∷ rs1 ∷ rs2 ∷ []) 0xFE00707F 0x00006033
    ∷ row (rr Alu.and) (rd ∷ rs1 ∷ rs2 ∷ []) 0xFE00707F 0x00007033
    ∷ row (rr Alu.addw) (rd ∷ rs1 ∷ rs2 ∷ []) 0xFE00707F 0x0000003B
    ∷ row (rr Alu.subw) (rd ∷ rs1 ∷ rs2 ∷ []) 0xFE00707F 0x4000003B
    ∷ row (rr Alu.sllw) (rd ∷ rs1 ∷ rs2 ∷ []) 0xFE00707F 0x0000103B
    ∷ row (rr Alu.srlw) (rd ∷ rs1 ∷ rs2 ∷ []) 0xFE00707F 0x0000503B
    ∷ row (rr Alu.sraw) (rd ∷ rs1 ∷ rs2 ∷ []) 0xFE00707F 0x4000503B
    ∷ row fence (pred ∷ succ ∷ []) 0xF00FFFFF 0x0000000F
    ∷ row fence_i ([]) 0xFFFFFFFF 0x0000100F
    ∷ row ecall ([]) 0xFFFFFFFF 0x00000073
    ∷ row ebreak ([]) 0xFFFFFFFF 0x00100073
    ∷ row (csr Execute.csrrw) (rd ∷ csrnum ∷ rs1 ∷ []) 0x0000707F 0x00001073
    ∷ row (csr Execute.csrrs) (rd ∷ csrnum ∷ rs1 ∷ []) 0x0000707F 0x00002073
    ∷ row (csr Execute.csrrc) (rd ∷ csrnum ∷ rs1 ∷ []) 0x0000707F 0x00003073
    ∷ row (csr Execute.csrrwi) (rd ∷ csrnum ∷ c_imm ∷ []) 0x0000707F 0x00005073
    ∷ row (csr Execute.csrrsi) (rd ∷ csrnum ∷ c_imm ∷ []) 0x0000707F 0x00006073
    ∷ row (csr Execute.csrrci) (rd ∷ csrnum ∷ c_imm ∷ []) 0x0000707F 0x00007073
    ∷ row (rr Alu.mul) (rd ∷ rs1 ∷ rs2 ∷ []) 0xFE00707F 0x02000033
    ∷ row (rr Alu.mulh) (rd ∷ rs1 ∷ rs2 ∷ []) 0xFE00707F 0x02001033
    ∷ row (rr Alu.mulhsu) (rd ∷ rs1 ∷ rs2 ∷ []) 0xFE00707F 0x02002033
    ∷ row (rr Alu.mulhu) (rd ∷ rs1 ∷ rs2 ∷ []) 0xFE00707F 0x02003033
    ∷ row (rr Alu.div) (rd ∷ rs1 ∷ rs2 ∷ []) 0xFE00707F 0x02004033
    ∷ row (rr Alu.divu) (rd ∷ rs1 ∷ rs2 ∷ []) 0xFE00707F 0x02005033
    ∷ row (rr Alu.rem) (rd ∷ rs1 ∷ rs2 ∷ []) 0xFE00707F 0x02006033
    ∷ row (rr Alu.remu) (rd ∷ rs1 ∷ rs2 ∷ []) 0xFE00707F 0x02007033
    ∷ row (rr Alu.mulw) (rd ∷ rs1 ∷ rs2 ∷ []) 0xFE00707F 0x0200003B
    ∷ row (rr Alu.divw) (rd ∷ rs1 ∷ rs2 ∷ []) 0xFE00707F 0x0200403B
    ∷ row (rr Alu.divuw) (rd ∷ rs1 ∷ rs2 ∷ []) 0xFE00707F 0x0200503B
    ∷ row (rr Alu.remw) (rd ∷ rs1 ∷ rs2 ∷ []) 0xFE00707F 0x0200603B
    ∷ row (rr Alu.remuw) (rd ∷ rs1 ∷ rs2 ∷ []) 0xFE00707F 0x0200703B
    ∷ row invld ([]) 0xFFFFFFFF 0x00C0FFEE
    ∷ []

-- The rows of the AMO table, which are named without a suffix and are of width `w`
pub record AmoRow : Type 0 where
  pub op : AmoOp
  pub simple_args : List Field
  pub opcode_mask : ℕ
  pub opcode : ℕ

abbrev pub amo_row : AmoOp → List Field → ℕ → ℕ → AmoRow
amo_row o args mask code = record { op = o; simple_args = args; opcode_mask = mask; opcode = code }

unfoldable pub amo_table : List AmoRow
amo_table =
    amo_row lr (rd ∷ rs1 ∷ []) 0xFFF0707F 0x1000202F
    ∷ amo_row sc (rd ∷ rs1 ∷ rs2 ∷ []) 0xFE00707F 0x1800202F
    ∷ amo_row amoswap (rd ∷ rs1 ∷ rs2 ∷ []) 0xFE00707F 0x0800202F
    ∷ amo_row amoadd (rd ∷ rs1 ∷ rs2 ∷ []) 0xFE00707F 0x0000202F
    ∷ amo_row amoxor (rd ∷ rs1 ∷ rs2 ∷ []) 0xFE00707F 0x2000202F
    ∷ amo_row amoand (rd ∷ rs1 ∷ rs2 ∷ []) 0xFE00707F 0x6000202F
    ∷ amo_row amoor (rd ∷ rs1 ∷ rs2 ∷ []) 0xFE00707F 0x4000202F
    ∷ amo_row amomin (rd ∷ rs1 ∷ rs2 ∷ []) 0xFE00707F 0x8000202F
    ∷ amo_row amomax (rd ∷ rs1 ∷ rs2 ∷ []) 0xFE00707F 0xA000202F
    ∷ amo_row amominu (rd ∷ rs1 ∷ rs2 ∷ []) 0xFE00707F 0xC000202F
    ∷ amo_row amomaxu (rd ∷ rs1 ∷ rs2 ∷ []) 0xFE00707F 0xE000202F
    ∷ []

module _ ⦃p : Pymtl⦄ where
  -- One turn of `gen_amo_consistency_variants`; `none` is a ValueError.
  unfoldable pub consistency_variant : AmoRow → AmoWidth → ℕ → AmoOrder → ℕ → ℕ → Option Row
  consistency_variant r width code order aq_value rl_value = do
    with_aq ← assemble (fields aq) code aq_value
    with_rl ← assemble (fields rl) with_aq rl_value
    some (row (amo r.op width order) r.simple_args r.opcode_mask with_rl)

  -- `gen_amo_consistency_variants` on one row
  unfoldable pub gen_amo_consistency_variants : AmoRow → AmoWidth → ℕ → Option (List Row)
  unfolding consistency_variant
  gen_amo_consistency_variants r width code = do
    first ← consistency_variant r width code plain 0 0
    second ← consistency_variant r width code acquire 1 0
    third ← consistency_variant r width code release 0 1
    fourth ← consistency_variant r width code acquire_release 1 1
    some (first ∷ second ∷ third ∷ fourth ∷ [])

  -- `gen_amo_width_variants` on one row, and the consistency variants of both of its results
  unfoldable pub gen_amo_width_variants : AmoRow → Option (List Row)
  unfolding gen_amo_consistency_variants
  gen_amo_width_variants r = do
    word ← assemble (fields funct3) r.opcode 0b010
    double ← assemble (fields funct3) r.opcode 0b011
    words ← gen_amo_consistency_variants r w word
    doubles ← gen_amo_consistency_variants r d double
    some (words ++ doubles)

  -- The loop of `expand_gen`, from the rows of the AMO table
  unfoldable pub expand_amo : List AmoRow → Option (List Row)
  unfolding gen_amo_width_variants
  expand_amo [] = some []
  expand_amo (r ∷ rs) = do
    variants ← gen_amo_width_variants r
    rest ← expand_amo rs
    some (variants ++ rest)

  unfoldable pub encoding_table : Option (List Row)
  unfolding base_table amo_table expand_amo
  encoding_table = do amos ← expand_amo amo_table; some (base_table ++ amos)

  -- `Isa.decode_inst_name`, over the rows in the order in which the dictionary gives them
  unfoldable pub decode_inst_name : List Row → ℕ → Name
  decode_inst_name [] inst_bits = invld
  decode_inst_name (r ∷ rs) inst_bits =
      let rest = decode_inst_name rs inst_bits in
      if p.band inst_bits r.opcode_mask == r.opcode then r.name else rest
