-- ===== src/Semantics/Execute/Valid.antt =====
-- An instruction keeps the state well formed, whether it ends or raises a Python exception.
use lizard.Prelude.{ℕ, arith, ◌==◌, Bool, true, false, if◌then◌else◌, not}
use lizard.Prelude.{Option, none, some, to_bit}
use lizard.BitLaws.Masks.{bit_and-lt}
use lizard.Pymtl.{Pymtl}
use lizard.Semantics.Alu.{rr_value}
use lizard.Semantics.Machine.{
  Machine, MemPort, set_reg, get_reg, get_csr, set_csr, csr_contains, mepc, mcause, mtval,
}
use lizard.Semantics.Machine.Valid.{
  Fits, IsValid, GetIsValid, set_reg-IsValid, set_csr-IsValid, get_csr-IsValid,
}
use lizard.Semantics.Execute
use lizard.Semantics.Execute.{
  Outcome, Result, done, raised, redirect, fall_through, exception, Instr,
}

-- The state that an outcome leaves.
abbrev pub state_of : {Mem A : Type 0} → Outcome Mem A → Machine Mem
state_of (done s a) = s
state_of (raised s) = s

-- A method leaves a well-formed state, and redirects to an address of `XLEN` bits.
abbrev ResultFits : Result → Type 0
ResultFits fall_through = Unit
ResultFits (redirect target) = Fits target
ResultFits (exception cause) = Unit

abbrev MethodIsValid : {Mem : Type 0} → Outcome Mem Result → Type 0
MethodIsValid (done s r) = IsValid s × ResultFits r
MethodIsValid (raised s) = IsValid s

if-MethodIsValid :
    {Mem : Type 0} (b : Bool) (o o' : Outcome Mem Result)
    → MethodIsValid o
    → MethodIsValid o'
    → MethodIsValid (if b then o else o')
if-MethodIsValid true o o' h h' = h
if-MethodIsValid false o o' h h' = h'

-- What is done with a CSR value that was read.
after_get :
    {Mem : Type 0} (o : Option (ℕ × Machine Mem)) (s : Machine Mem)
    (f : ℕ → Machine Mem → Outcome Mem Result)
    → IsValid s
    → GetIsValid o
    → ((v : ℕ) (t : Machine Mem) → IsValid t → MethodIsValid (f v t))
    → MethodIsValid (elim o as (λ x. Outcome Mem Result) [ none ↦ raised s | some (v, t) ↦ f v t ])
after_get none s f h ho hf = h
after_get (some (v, t)) s f h (hv, ht) hf = hf v t ht

module _ ⦃p : Pymtl⦄ where
  add-Fits : (a b : ℕ) → Fits (p.add 64 a b)
  add-Fits a b = omega (arith, p.add_law 64 a b)

  jump_target-Fits : (a : ℕ) → Fits a → Fits (p.band a 0xFFFFFFFE)
  jump_target-Fits a h =
      omega (arith, p.band_law a 0xFFFFFFFE, bit_and-lt 64 a 0xFFFFFFFE h (omega arith))

module _ ⦃p : Pymtl⦄ {Mem : Type 0} where
  abbrev KeepsIsValid : (ℕ → Bool → ℕ → Machine Mem → Outcome Mem Result) → Type 0
  KeepsIsValid op =
      (num : ℕ) (b : Bool) (v : ℕ) (s : Machine Mem) → IsValid s → MethodIsValid (op num b v s)

  csrrw_op-IsValid : KeepsIsValid Execute.csrrw_op
  unfolding Execute.csrrw_op
  csrrw_op-IsValid num b v s h = (set_csr-IsValid s num v h, tt)

  csrrs_op-IsValid : KeepsIsValid Execute.csrrs_op
  unfolding Execute.csrrs_op
  csrrs_op-IsValid num true v s h = (h, tt)
  csrrs_op-IsValid num false v s h =
      after_get (get_csr s num) s (λ old t. done (set_csr t num (p.bor old v)) fall_through) h
        (get_csr-IsValid s num h) (λ old t ht. (set_csr-IsValid t num (p.bor old v) ht, tt))

  csrrc_op-IsValid : KeepsIsValid Execute.csrrc_op
  unfolding Execute.csrrc_op
  csrrc_op-IsValid num true v s h = (h, tt)
  csrrc_op-IsValid num false v s h =
      after_get (get_csr s num) s
        (λ old t. done (set_csr t num (p.band old (to_bit (v == 0)))) fall_through) h
        (get_csr-IsValid s num h)
        (λ old t ht. (set_csr-IsValid t num (p.band old (to_bit (v == 0))) ht, tt))

  csr_func-IsValid :
      (op : ℕ → Bool → ℕ → Machine Mem → Outcome Mem Result) (rd num : ℕ) (b : Bool) (v : ℕ)
      (s : Machine Mem)
      → KeepsIsValid op
      → IsValid s
      → MethodIsValid (Execute.csr_func rd num b v op s)
  unfolding Execute.csr_func
  csr_func-IsValid op rd num b v s hop h =
      if-MethodIsValid (not (csr_contains num)) _ _ (h, tt)
        (after_get (get_csr s num) s (λ old t. op num b v (set_reg t rd old)) h
          (get_csr-IsValid s num h)
          (λ old t ht. hop num b v (set_reg t rd old) (set_reg-IsValid t rd old ht)))

  execute_csr-IsValid :
      (op : Execute.CsrOp) (rd num rs1 : ℕ) (s : Machine Mem)
      → IsValid s
      → MethodIsValid (Execute.execute_csr op rd num rs1 s)
  unfolding Execute.execute_csr
  execute_csr-IsValid Execute.csrrw rd num rs1 s h =
      csr_func-IsValid _ rd num _ _ s csrrw_op-IsValid h
  execute_csr-IsValid Execute.csrrs rd num rs1 s h =
      csr_func-IsValid _ rd num _ _ s csrrs_op-IsValid h
  execute_csr-IsValid Execute.csrrc rd num rs1 s h =
      csr_func-IsValid _ rd num _ _ s csrrc_op-IsValid h
  execute_csr-IsValid Execute.csrrwi rd num rs1 s h =
      csr_func-IsValid _ rd num _ _ s csrrw_op-IsValid h
  execute_csr-IsValid Execute.csrrsi rd num rs1 s h =
      csr_func-IsValid _ rd num _ _ s csrrw_op-IsValid h
  execute_csr-IsValid Execute.csrrci rd num rs1 s h =
      csr_func-IsValid _ rd num _ _ s csrrc_op-IsValid h

  write-IsValid :
      (o : Option ℕ) (s : Machine Mem) (rd : ℕ) (f : ℕ → ℕ)
      → IsValid s
      → MethodIsValid (elim o as (λ x. Outcome Mem Result) [
        | none ↦ raised s
        | some value ↦ Execute.write_rd s rd (f value)
      ])
  write-IsValid none s rd f h = h
  write-IsValid (some v) s rd f h = (set_reg-IsValid s rd (f v) h, tt)

  -- Another memory or program counter.
  with_mem : (s : Machine Mem) (m : Mem) → IsValid s → IsValid (record s { mem = m })
  with_mem s m h = record {
    pc-Fits = h.pc-Fits;
    length-regs = h.length-regs;
    regs-Fits = h.regs-Fits;
    x0 = h.x0;
    csr-Fits = h.csr-Fits;
    mngr2proc-Fits = h.mngr2proc-Fits;
    proc2mngr-Fits = h.proc2mngr-Fits;
  }

  with_pc : (s : Machine Mem) (pc : ℕ) → Fits pc → IsValid s → IsValid (record s { pc = pc })
  with_pc s pc hpc h = record {
    pc-Fits = hpc;
    length-regs = h.length-regs;
    regs-Fits = h.regs-Fits;
    x0 = h.x0;
    csr-Fits = h.csr-Fits;
    mngr2proc-Fits = h.mngr2proc-Fits;
    proc2mngr-Fits = h.proc2mngr-Fits;
  }

  store-IsValid :
      (o : Option Mem) (s : Machine Mem)
      → IsValid s
      → MethodIsValid (elim o as (λ x. Outcome Mem Result) [
        | none ↦ raised s
        | some mem ↦ done (record s { mem = mem }) fall_through
      ])
  store-IsValid none s h = h
  store-IsValid (some m) s h = (with_mem s m h, tt)

  module _ (port : MemPort Mem) where
    method-IsValid :
        (i : Instr) (s : Machine Mem) → IsValid s → MethodIsValid (Execute.execute_method port i s)
    unfolding Execute.execute_method
    method-IsValid (Execute.rr op rd rs1 rs2) s h =
        write-IsValid (rr_value op (get_reg s rs1) (get_reg s rs2)) s rd (λ v. v) h
    method-IsValid (Execute.imm op rd rs1 i_imm) s h = (set_reg-IsValid s rd _ h, tt)
    method-IsValid (Execute.shift op rd rs1 shamt) s h = (set_reg-IsValid s rd _ h, tt)
    method-IsValid (Execute.lui rd u_imm) s h = (set_reg-IsValid s rd _ h, tt)
    method-IsValid (Execute.auipc rd u_imm) s h = (set_reg-IsValid s rd _ h, tt)
    method-IsValid (Execute.load op rd rs1 i_imm) s h = write-IsValid _ s rd _ h
    method-IsValid (Execute.store op rs1 rs2 s_imm) s h = store-IsValid _ s h
    method-IsValid Execute.fence s h = (h, tt)
    method-IsValid Execute.fence_i s h = (h, tt)
    method-IsValid (Execute.jal rd j_imm) s h = (set_reg-IsValid s rd _ h, add-Fits _ _)
    method-IsValid (Execute.jalr rd rs1 i_imm) s h =
        (set_reg-IsValid s rd _ h, jump_target-Fits _ (add-Fits _ _))
    method-IsValid (Execute.branch op rs1 rs2 b_imm) s h =
        if-MethodIsValid (Execute.branch_taken op (get_reg s rs1) (get_reg s rs2)) _ _
          (h, add-Fits _ _) (h, tt)
    method-IsValid (Execute.csr op rd csrnum rs1) s h = execute_csr-IsValid op rd csrnum rs1 s h
    method-IsValid Execute.invld s h = (h, tt)
    method-IsValid Execute.ecall s h = (h, tt)
    method-IsValid Execute.ebreak s h = (h, tt)

    finish-IsValid :
        (inst : ℕ) (o : Outcome Mem Result)
        → MethodIsValid o
        → IsValid (state_of (Execute.finish port inst o))
    unfolding Execute.finish
    finish-IsValid inst (raised s) h = h
    finish-IsValid inst (done s fall_through) (h, hr) = with_pc s _ (add-Fits _ _) h
    finish-IsValid inst (done s (redirect target)) (h, hr) = with_pc s target hr h
    finish-IsValid inst (done s (exception cause)) (h, hr) =
        set_csr-IsValid (set_csr (set_csr s mtval inst) mcause cause) mepc s.pc
          (set_csr-IsValid (set_csr s mtval inst) mcause cause (set_csr-IsValid s mtval inst h))

    -- `execute` keeps the state well formed, for every instruction, memory and operand, and also when it
    -- raises: 32 registers with the first 0, and every register, CSR, queued value and the program
    -- counter below 2^64.
    pub execute-IsValid :
        (inst : ℕ) (i : Instr) (s : Machine Mem)
        → IsValid s
        → IsValid (state_of (Execute.execute port inst i s))
    unfolding Execute.execute
    execute-IsValid inst i s h =
        finish-IsValid inst (Execute.execute_method port i s) (method-IsValid i s h)
