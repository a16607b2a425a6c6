-- ===== src/CoreAlu.antt =====
-- The ALU of the core: lizard/util/rtl/alu.py, the stage around it in lizard/core/rtl/backend/alu.py,
-- and the decoders of lizard/core/rtl/frontend/alu_decoder.py over those of sub_decoder.py.
pub mod Decoder
pub mod Compare
pub mod Shift
pub mod Stage
pub mod Refine
mod Tests
use lizard.Prelude.{ℕ, ◌-◌, ◌*◌, Bool, true, false, not, ltb, ◌||◌, ◌&&◌, to_bit, if◌then◌else◌}
use lizard.Pymtl.{Pymtl}

-- `ALUFunc` of lizard/util/rtl/alu.py
pub data ExecFunc : Type 0 where
  exec_add exec_sub exec_and exec_or exec_xor exec_sll exec_srl exec_sra exec_slt : ExecFunc

-- `AluFunc` of lizard/core/rtl/messages.py
pub data AluFunc : Type 0 where
  add sub sll slt xor srl sra or and lui auipc : AluFunc

pub record AluMsg : Type 0 where
  pub func : AluFunc
  pub unsigned : Bool
  pub op32 : Bool

-- The parts of a `DispatchMsg` that the stage reads
pub record DispatchMsg : Type 0 where
  pub alu_msg : AluMsg
  pub rs1 : ℕ
  pub rs2 : ℕ
  pub rs2_val : Bool
  pub imm : ℕ
  pub hdr_pc : ℕ

module _ ⦃p : Pymtl⦄ where
  -- The concatenation in `set_cmp`: the upper bit is flipped if the operands are signed.
  unfoldable pub biased : ℕ → Bool → ℕ → ℕ
  biased xlen usign src =
      let up = if usign then p.index src (xlen - 1) else not (p.index src (xlen - 1)) in
      p.concat (xlen - 1) (to_bit up) (p.slice src 0 (xlen - 1))

  -- `ALU` with `xlen` bits, whose shift amount has `clog2_xlen` bits
  unfoldable pub exec : ℕ → ℕ → ExecFunc → ℕ → ℕ → Bool → ℕ
  unfolding biased
  exec xlen clog2_xlen exec_add s0 s1 usign = p.add xlen s0 s1
  exec xlen clog2_xlen exec_sub s0 s1 usign = p.sub xlen s0 s1
  exec xlen clog2_xlen exec_and s0 s1 usign = p.band s0 s1
  exec xlen clog2_xlen exec_or s0 s1 usign = p.bor s0 s1
  exec xlen clog2_xlen exec_xor s0 s1 usign = p.bxor s0 s1
  exec xlen clog2_xlen exec_sll s0 s1 usign = p.shl xlen s0 (p.slice s1 0 clog2_xlen)
  exec xlen clog2_xlen exec_srl s0 s1 usign = p.shr s0 (p.slice s1 0 clog2_xlen)
  exec xlen clog2_xlen exec_sra s0 s1 usign =
      p.slice (p.shr (p.sext xlen (2 * xlen) s0) (p.slice s1 0 clog2_xlen)) 0 xlen
  exec xlen clog2_xlen exec_slt s0 s1 usign =
      to_bit (ltb (biased xlen usign s0) (biased xlen usign s1))

-- `OP_LUT_MAP`
unfoldable pub op_lut : AluFunc → ExecFunc
op_lut add = exec_add
op_lut sub = exec_sub
op_lut and = exec_and
op_lut or = exec_or
op_lut xor = exec_xor
op_lut sll = exec_sll
op_lut srl = exec_srl
op_lut sra = exec_sra
op_lut slt = exec_slt
op_lut auipc = exec_add
op_lut lui = exec_or

abbrev pub is_srl : AluFunc → Bool
is_srl srl = true
is_srl _ = false

abbrev pub is_shift : AluFunc → Bool
is_shift sll = true
is_shift srl = true
is_shift sra = true
is_shift _ = false

abbrev pub is_upper : AluFunc → Bool
is_upper auipc = true
is_upper lui = true
is_upper _ = false

module _ ⦃p : Pymtl⦄ where
  -- A 32-bit operand in `set_src_res`
  abbrev pub widened : AluMsg → ℕ → ℕ
  widened msg src =
      if msg.unsigned || is_srl msg.func then p.slice src 0 32 else p.sext 32 64 (p.slice src 0 32)

  -- `src1_` and `src2_` of `set_src_res`
  unfoldable pub src1 : DispatchMsg → ℕ
  src1 m =
      if m.alu_msg.op32
      then widened m.alu_msg m.rs1
      else elim m.alu_msg.func [ auipc ↦ m.hdr_pc | lui ↦ 0 | _ ↦ m.rs1 ]

  unfoldable pub src2 : DispatchMsg → ℕ
  src2 m =
      if m.alu_msg.op32
      then (let wide = widened m.alu_msg m.rs2 in
          p.put wide 5 6 (to_bit (p.index wide 5 && not (is_shift m.alu_msg.func))))
      else m.rs2

  -- `imm_` of `set_inputs`; an immediate has `DECODED_IMM_LEN` bits.
  unfoldable pub imm64 : DispatchMsg → ℕ
  imm64 m =
      let wide = p.sext 21 64 m.imm in if is_upper m.alu_msg.func then p.shl 64 wide 12 else wide

  -- `process`: the field `result` of the message that `ALUStage` passes on
  unfoldable pub process : DispatchMsg → ℕ
  unfolding exec op_lut src1 src2 imm64
  process m =
      let operand = if m.rs2_val then src2 m else imm64 m in
      let res = exec 64 6 (op_lut m.alu_msg.func) (src1 m) operand m.alu_msg.unsigned in
      if m.alu_msg.op32
      then (if m.alu_msg.unsigned then p.slice res 0 32 else p.sext 32 64 (p.slice res 0 32))
      else res
