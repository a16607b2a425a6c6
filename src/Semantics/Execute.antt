-- ===== src/Semantics/Execute.antt =====
-- `RV64GSemantics.execute` and the `execute_` methods, on a decoded instruction: the fields are the
-- values that `instr` passes to a method; a register field has five bits, so it indexes one of the
-- `AREG_COUNT` registers.
pub mod Valid
pub mod Runs
pub mod Jumps
pub mod Kinds
pub mod CsrRules
pub mod Csrs
pub mod Outcomes
use lizard.Prelude.{
  ℕ, zero, ◌+◌, ◌*◌, ◌==◌, Bool, true, false, not, ltb, leb, to_bit, if◌then◌else◌,
}
use lizard.Prelude.{Option, none, some}
use lizard.Prelude.Int.{ℤ, pos, ltb_ℤ, shift_right}
use lizard.Pymtl.{Pymtl}
use lizard.Semantics.Alu.{xlen, RrOp, rr_value, sext_xlen, low32}
use lizard.Semantics.Machine.{
  Machine, MemPort, csr_contains, get_reg, set_reg, get_csr, set_csr, mepc, mcause, mtval,
}

pub data ImmOp : Type 0 where
  addi addiw slti sltiu xori ori andi : ImmOp

pub data ShiftOp : Type 0 where
  slli slliw srli srliw srai sraiw : ShiftOp

pub data LoadOp : Type 0 where
  lb lh lw ld lbu lhu lwu : LoadOp

pub data StoreOp : Type 0 where
  sb sh sw sd : StoreOp

pub data BranchOp : Type 0 where
  beq bne blt bge bltu bgeu : BranchOp

pub data CsrOp : Type 0 where
  csrrw csrrs csrrc csrrwi csrrsi csrrci : CsrOp

pub data Instr : Type 0 where
  rr : RrOp → ℕ → ℕ → ℕ → Instr
  imm : ImmOp → ℕ → ℕ → ℕ → Instr
  shift : ShiftOp → ℕ → ℕ → ℕ → Instr
  lui auipc : ℕ → ℕ → Instr
  load : LoadOp → ℕ → ℕ → ℕ → Instr
  store : StoreOp → ℕ → ℕ → ℕ → Instr
  fence fence_i : Instr
  jal : ℕ → ℕ → Instr
  jalr : ℕ → ℕ → ℕ → Instr
  branch : BranchOp → ℕ → ℕ → ℕ → Instr
  csr : CsrOp → ℕ → ℕ → ℕ → Instr
  invld ecall ebreak : Instr

-- What an `execute_` method returns: `None`, a `ProcRedirect` or a `ProcException`
pub data Result : Type 0 where
  fall_through : Result
  redirect : ℕ → Result
  exception : ℕ → Result

-- A step, or a Python exception that leaves the state as it is by then
pub data Outcome (Mem : Type 0) (A : Type 0) : Type 0 where
  done : Machine Mem → A → Outcome Mem A
  raised : Machine Mem → Outcome Mem A

-- `ExceptionCode` of lizard/msg/codes.py
abbrev pub illegal_instruction : ℕ
illegal_instruction = 2

abbrev pub breakpoint : ℕ
breakpoint = 3

abbrev pub environment_call_from_u : ℕ
environment_call_from_u = 8

module _ ⦃p : Pymtl⦄ where
  -- The methods with operands `rd, rs1, i_imm`
  unfoldable pub imm_value : ImmOp → ℕ → ℕ → ℕ
  imm_value addi a i_imm = p.add xlen a (sext_xlen 12 i_imm)
  imm_value addiw a i_imm = sext_xlen 32 (p.add 32 (low32 a) (low32 (sext_xlen 12 i_imm)))
  imm_value slti a i_imm = to_bit (ltb_ℤ (p.to_int xlen a) (p.to_int 12 i_imm))
  imm_value sltiu a i_imm = to_bit (ltb a (sext_xlen 12 i_imm))
  imm_value xori a i_imm = p.bxor a (sext_xlen 12 i_imm)
  imm_value ori a i_imm = p.bor a (sext_xlen 12 i_imm)
  imm_value andi a i_imm = p.band a (sext_xlen 12 i_imm)

  -- The methods with operands `rd, rs1, shamt64` or `rd, rs1, shamt32`
  unfoldable pub shift_value : ShiftOp → ℕ → ℕ → ℕ
  shift_value slli a shamt = p.shl xlen a shamt
  shift_value slliw a shamt = sext_xlen 32 (p.shl 32 (low32 a) shamt)
  shift_value srli a shamt = p.shr a shamt
  shift_value srliw a shamt = sext_xlen 32 (p.shr (low32 a) shamt)
  shift_value srai a shamt = p.trunc xlen (shift_right (p.to_int xlen a) shamt)
  shift_value sraiw a shamt = sext_xlen 32 (p.trunc 32 (shift_right (p.to_int 32 (low32 a)) shamt))

  -- `sext(augment_u_imm(u_imm))`
  unfoldable pub upper_imm : ℕ → ℕ
  upper_imm u_imm = sext_xlen 32 (p.concat 12 u_imm 0)

  -- The tests of the branch methods
  unfoldable pub branch_taken : BranchOp → ℕ → ℕ → Bool
  branch_taken beq a b = a == b
  branch_taken bne a b = not (a == b)
  branch_taken blt a b = ltb_ℤ (p.to_int xlen a) (p.to_int xlen b)
  branch_taken bge a b = not (ltb_ℤ (p.to_int xlen a) (p.to_int xlen b))
  branch_taken bltu a b = ltb a b
  branch_taken bgeu a b = leb b a

abbrev pub load_bytes : LoadOp → ℕ
load_bytes lb = 1
load_bytes lh = 2
load_bytes lw = 4
load_bytes ld = 8
load_bytes lbu = 1
load_bytes lhu = 2
load_bytes lwu = 4

abbrev pub is_signed_load : LoadOp → Bool
is_signed_load lbu = false
is_signed_load lhu = false
is_signed_load lwu = false
is_signed_load _ = true

abbrev pub store_bytes : StoreOp → ℕ
store_bytes sb = 1
store_bytes sh = 2
store_bytes sw = 4
store_bytes sd = 8

module _ ⦃p : Pymtl⦄ {Mem : Type 0} where
  -- `csrrw_op`
  unfoldable pub csrrw_op : ℕ → Bool → ℕ → Machine Mem → Outcome Mem Result
  csrrw_op num rs1_is_x0 value s = done (set_csr s num value) fall_through

  -- `csrrs_op`
  unfoldable pub csrrs_op : ℕ → Bool → ℕ → Machine Mem → Outcome Mem Result
  csrrs_op num rs1_is_x0 value s = if rs1_is_x0 then done s fall_through else elim (get_csr s num) [
    | none ↦ raised s
    | some (old, s') ↦ done (set_csr s' num (p.bor old value)) fall_through
  ]

  -- `csrrc_op`, where `not value` is Python's negation of a truth value
  unfoldable pub csrrc_op : ℕ → Bool → ℕ → Machine Mem → Outcome Mem Result
  csrrc_op num rs1_is_x0 value s = if rs1_is_x0 then done s fall_through else elim (get_csr s num) [
    | none ↦ raised s
    | some (old, s') ↦ done (set_csr s' num (p.band old (to_bit (value == 0)))) fall_through
  ]

  -- `csr_func`
  unfoldable pub csr_func :
      ℕ
      → ℕ
      → Bool
      → ℕ
      → (ℕ → Bool → ℕ → Machine Mem → Outcome Mem Result)
      → Machine Mem
      → Outcome Mem Result
  csr_func rd csrnum rs1_is_x0 value op s =
      if not (csr_contains csrnum)
      then done s (exception illegal_instruction)
      else elim (get_csr s csrnum) [
        | none ↦ raised s
        | some (old, s') ↦ op csrnum rs1_is_x0 value (set_reg s' rd old)
      ]

  unfoldable pub csr_reg_func :
      ℕ
      → ℕ
      → ℕ
      → (ℕ → Bool → ℕ → Machine Mem → Outcome Mem Result)
      → Machine Mem
      → Outcome Mem Result
  unfolding csr_func
  csr_reg_func rd csrnum rs1 op s = csr_func rd csrnum (rs1 == 0) (get_reg s rs1) op s

  unfoldable pub csr_imm_func :
      ℕ
      → ℕ
      → ℕ
      → (ℕ → Bool → ℕ → Machine Mem → Outcome Mem Result)
      → Machine Mem
      → Outcome Mem Result
  unfolding csr_func
  csr_imm_func rd csrnum rs1 op s = csr_func rd csrnum false rs1 op s

  -- `execute_csrrw` to `execute_csrrci`
  unfoldable pub execute_csr : CsrOp → ℕ → ℕ → ℕ → Machine Mem → Outcome Mem Result
  unfolding csr_reg_func csr_imm_func
  execute_csr csrrw rd csrnum rs1 s = csr_reg_func rd csrnum rs1 csrrw_op s
  execute_csr csrrs rd csrnum rs1 s = csr_reg_func rd csrnum rs1 csrrs_op s
  execute_csr csrrc rd csrnum rs1 s = csr_reg_func rd csrnum rs1 csrrc_op s
  execute_csr csrrwi rd csrnum rs1 s = csr_imm_func rd csrnum rs1 csrrw_op s
  execute_csr csrrsi rd csrnum rs1 s = csr_imm_func rd csrnum rs1 csrrw_op s
  execute_csr csrrci rd csrnum rs1 s = csr_imm_func rd csrnum rs1 csrrc_op s

  -- A write of `rd` that falls through
  abbrev pub write_rd : Machine Mem → ℕ → ℕ → Outcome Mem Result
  write_rd s rd value = done (set_reg s rd value) fall_through

  module _ (port : MemPort Mem) where
    -- The method for an instruction
    unfoldable pub execute_method : Instr → Machine Mem → Outcome Mem Result
    unfolding imm_value shift_value upper_imm branch_taken execute_csr
    execute_method (rr op rd rs1 rs2) s = elim (rr_value op (get_reg s rs1) (get_reg s rs2)) [
      | none ↦ raised s
      | some value ↦ write_rd s rd value
    ]
    execute_method (imm op rd rs1 i_imm) s = write_rd s rd (imm_value op (get_reg s rs1) i_imm)
    execute_method (shift op rd rs1 shamt) s = write_rd s rd (shift_value op (get_reg s rs1) shamt)
    execute_method (lui rd u_imm) s = write_rd s rd (upper_imm u_imm)
    execute_method (auipc rd u_imm) s = write_rd s rd (p.add xlen (upper_imm u_imm) s.pc)
    execute_method (load op rd rs1 i_imm) s =
        let addr = p.add xlen (get_reg s rs1) (sext_xlen 12 i_imm) in
        elim (port.load s.mem addr (load_bytes op)) [
          | none ↦ raised s
          | some value ↦
              write_rd s rd
                (if is_signed_load op then sext_xlen (load_bytes op * 8) value else value)
        ]
    execute_method (store op rs1 rs2 s_imm) s =
        let addr = p.add xlen (get_reg s rs1) (sext_xlen 12 s_imm) in
        let value = p.slice (get_reg s rs2) 0 (store_bytes op * 8) in
        elim (port.store s.mem addr (store_bytes op) value) [
          | none ↦ raised s
          | some mem ↦ done (record s { mem = mem }) fall_through
        ]
    execute_method fence s = done s fall_through
    execute_method fence_i s = done s fall_through
    execute_method (jal rd j_imm) s =
        done (set_reg s rd (p.add xlen s.pc 4)) (redirect (p.add xlen s.pc (sext_xlen 21 j_imm)))
    execute_method (jalr rd rs1 i_imm) s =
        let temp = p.add xlen (get_reg s rs1) (sext_xlen 12 i_imm) in
        done (set_reg s rd (p.add xlen s.pc 4)) (redirect (p.band temp 0xFFFFFFFE))
    execute_method (branch op rs1 rs2 b_imm) s =
        if branch_taken op (get_reg s rs1) (get_reg s rs2)
        then done s (redirect (p.add xlen s.pc (sext_xlen 13 b_imm)))
        else done s fall_through
    execute_method (csr op rd csrnum rs1) s = execute_csr op rd csrnum rs1 s
    execute_method invld s = done s (exception illegal_instruction)
    execute_method ecall s = done s (exception environment_call_from_u)
    execute_method ebreak s = done s (exception breakpoint)

  -- `handle_exception`: after the writes, the attribute `MtvecMode.direct` is looked up, which
  -- `MtvecMode` of lizard/msg/codes.py does not have, whatever `mode` is.
  unfoldable pub handle_exception : ℕ → ℕ → Machine Mem → Outcome Mem (Unit {0})
  handle_exception instr cause s =
      let s' = set_csr (set_csr (set_csr s mtval instr) mcause cause) mepc s.pc in raised s'

  module _ (port : MemPort Mem) where
    unfoldable pub finish : ℕ → Outcome Mem Result → Outcome Mem (Unit {0})
    unfolding handle_exception
    finish inst (raised s) = raised s
    finish inst (done s fall_through) = done (record s { pc = p.add xlen s.pc 4 }) tt
    finish inst (done s (redirect target)) = done (record s { pc = target }) tt
    finish inst (done s (exception cause)) = handle_exception inst cause s

    -- `execute`, of the instruction that the bits `inst` decode to
    unfoldable pub execute : ℕ → Instr → Machine Mem → Outcome Mem (Unit {0})
    unfolding execute_method finish
    execute inst i s = finish inst (execute_method port i s)
