-- ===== src/Semantics/Execute/Outcomes.antt =====
-- What an instruction does to the program counter, the CSRs and the queues, and when it raises.
use lizard.Prelude.{suc-eqb_zero}
use lizard.Prelude.{
  ℕ, zero, suc, ◌+◌, ◌*◌, ◌%◌, ◌^◌, ◌<◌, ◌≡◌, refl, ◌∙◌, ap, arith, Bool, true, false,
}
use lizard.Prelude.{if◌then◌else◌, Option, none, some, mod_below, inl, inr, ◌⊎◌}
use lizard.Prelude.Int.{pos}
use lizard.Pymtl.{Pymtl}
use mathlib.Core.Path.{subst}
use lizard.Prelude.{All, length, sym}
use lizard.Semantics.Execute.Kinds.{IsOrdinary, is_jump, Causes, reg_fields}
use lizard.Semantics.Alu.{rr_value, sext_xlen}
use lizard.Semantics.Alu.Range.{rr_value-Returns}
use lizard.Semantics.Machine.{
  Machine, MemPort, set_reg, get_reg, set_csr, csr_contains, mepc, mcause, mtval,
}
use lizard.Semantics.Machine.Valid.{Fits, IsValid, get_reg-Fits}
use lizard.Semantics.Execute
use lizard.Semantics.Execute.{
  Outcome, Result, done, raised, redirect, fall_through, exception, Instr,
}

module _ {Mem : Type 0} where
  -- The CSRs and queues of a state are those of another.
  abbrev pub SameCsrs : Machine Mem → Machine Mem → Type 0
  SameCsrs s t = (t.csr ≡ s.csr) × (t.mngr2proc ≡ s.mngr2proc) × (t.proc2mngr ≡ s.proc2mngr)

  -- An instruction of a method: it ends without an exception, has the program counter for the next one
  -- if it does not jump, and leaves the CSRs.
  abbrev Ends : Machine Mem → Bool → Outcome Mem Result → Type 0
  Ends s jumps (raised t) = ⊥
  Ends s jumps (done t fall_through) = SameCsrs s t × (t.pc ≡ s.pc)
  Ends s jumps (done t (redirect target)) = SameCsrs s t × (jumps ≡ true)
  Ends s jumps (done t (exception cause)) = ⊥

  same : (s : Machine Mem) → SameCsrs s s × (s.pc ≡ s.pc)
  same s = ((refl, refl, refl), refl)

  -- The outcome of `execute` on such an instruction.
  abbrev pub Completes : Bool → Machine Mem → Outcome Mem (Unit {0}) → Type 0
  Completes jumps s o =
      (t : Machine Mem) × (o ≡ done t tt)
      × SameCsrs s t
      × ((t.pc ≡ (s.pc + 4) % 2 ^ 64) ⊎ (jumps ≡ true))

  -- The outcome of an exception: raised, with the three CSRs written.
  abbrev pub Reports : ℕ → ℕ → Machine Mem → Outcome Mem (Unit {0}) → Type 0
  Reports inst c s o =
      (t : Machine Mem) × (o ≡ raised t)
      × (t.csr mtval ≡ inst)
      × (t.csr mcause ≡ c)
      × (t.csr mepc ≡ s.pc)
      × (t.pc ≡ s.pc)
      × (t.regs ≡ s.regs)

  module _ ⦃p : Pymtl⦄ where
    pub set_reg-SameCsrs :
        (s : Machine Mem) (rd v : ℕ) → SameCsrs s (set_reg s rd v) × ((set_reg s rd v).pc ≡ s.pc)
    unfolding set_reg
    set_reg-SameCsrs s zero v = same s
    set_reg-SameCsrs s (suc rd) v = rw (suc-eqb_zero rd) ((refl, refl, refl), refl)

    write-Ends :
        (o : Option ℕ) (s : Machine Mem) (rd : ℕ) (f : ℕ → ℕ)
        → (v : ℕ) × (o ≡ some v)
        → Ends s false (elim o as (λ x. Outcome Mem Result) [
          | none ↦ raised s
          | some value ↦ Execute.write_rd s rd (f value)
        ])
    write-Ends none s rd f (v, e) = absurd cc
    write-Ends (some v) s rd f h = set_reg-SameCsrs s rd (f v)

    store-Ends :
        (o : Option Mem) (s : Machine Mem)
        → (m : Mem) × (o ≡ some m)
        → Ends s false (elim o as (λ x. Outcome Mem Result) [
          | none ↦ raised s
          | some mem ↦ done (record s { mem = mem }) fall_through
        ])
    store-Ends none s (m, e) = absurd cc
    store-Ends (some m) s h = ((refl, refl, refl), refl)

    branch-Ends :
        (b : Bool) (s : Machine Mem) (target : ℕ)
        → Ends s true (if b then done s (redirect target) else done s fall_through)
    branch-Ends true s target = ((refl, refl, refl), refl)
    branch-Ends false s target = same s

    module _ (port : MemPort Mem) where
      -- The memory answers the access that the instruction makes, if it makes one.
      abbrev pub IsServed : Instr → Machine Mem → Type 0
      IsServed (Execute.load op rd rs1 i_imm) s =
          let addr = p.add 64 (get_reg s rs1) (sext_xlen 12 i_imm) in
          (v : ℕ) × (port.load s.mem addr (Execute.load_bytes op) ≡ some v)
      IsServed (Execute.store op rs1 rs2 s_imm) s =
          let addr = p.add 64 (get_reg s rs1) (sext_xlen 12 s_imm) in
          let value = p.slice (get_reg s rs2) 0 (Execute.store_bytes op * 8) in
          (m : Mem) × (port.store s.mem addr (Execute.store_bytes op) value ≡ some m)
      IsServed _ s = Unit

      method-Ends :
          (i : Instr) (s : Machine Mem)
          → IsOrdinary i
          → IsServed i s
          → IsValid s
          → Ends s (is_jump i) (Execute.execute_method port i s)
      unfolding Execute.execute_method
      method-Ends (Execute.rr op rd rs1 rs2) s hi served h =
          let (v, e, _) = rr_value-Returns op _ _ (get_reg-Fits s rs1 h) (get_reg-Fits s rs2 h) in
          write-Ends (rr_value op (get_reg s rs1) (get_reg s rs2)) s rd (λ x. x) (v, e)
      method-Ends (Execute.imm op rd rs1 i_imm) s hi served h = set_reg-SameCsrs s rd _
      method-Ends (Execute.shift op rd rs1 shamt) s hi served h = set_reg-SameCsrs s rd _
      method-Ends (Execute.lui rd u_imm) s hi served h = set_reg-SameCsrs s rd _
      method-Ends (Execute.auipc rd u_imm) s hi served h = set_reg-SameCsrs s rd _
      method-Ends (Execute.load op rd rs1 i_imm) s hi served h = write-Ends _ s rd _ served
      method-Ends (Execute.store op rs1 rs2 s_imm) s hi served h = store-Ends _ s served
      method-Ends Execute.fence s hi served h = same s
      method-Ends Execute.fence_i s hi served h = same s
      method-Ends (Execute.jal rd j_imm) s hi served h =
          let (e, _) = set_reg-SameCsrs s rd _ in (e, refl)
      method-Ends (Execute.jalr rd rs1 i_imm) s hi served h =
          let (e, _) = set_reg-SameCsrs s rd _ in (e, refl)
      method-Ends (Execute.branch op rs1 rs2 b_imm) s hi served h =
          branch-Ends (Execute.branch_taken op (get_reg s rs1) (get_reg s rs2)) s _
      method-Ends (Execute.csr _ _ _ _) s hi served h = elim hi [ ]
      method-Ends Execute.invld s hi served h = elim hi [ ]
      method-Ends Execute.ecall s hi served h = elim hi [ ]
      method-Ends Execute.ebreak s hi served h = elim hi [ ]

      finish-Completes :
          (inst : ℕ) (jumps : Bool) (s : Machine Mem) (o : Outcome Mem Result)
          → Ends s jumps o
          → Completes jumps s (Execute.finish port inst o)
      unfolding Execute.finish
      finish-Completes inst jumps s (done t fall_through) (same_csrs, epc) = (
        record t { pc = p.add 64 t.pc 4 },
        refl,
        same_csrs,
        inl (p.add_law 64 t.pc 4 ∙ ap (λ x. (x + 4) % 2 ^ 64) epc),
      )
      finish-Completes inst jumps s (done t (redirect target)) (same_csrs, ej) =
          (record t { pc = target }, refl, same_csrs, inr ej)
      finish-Completes inst jumps s (done t (exception _)) e = elim e [ ]
      finish-Completes inst jumps s (raised t) e = elim e [ ]

      -- From a well-formed state, with register fields of five bits, and where the memory answers the
      -- access of a load or a store, every instruction except the CSR ones, `ecall`, `ebreak` and the
      -- invalid one completes without a Python exception: the list of registers has every register that
      -- it names, no division is by zero, and no `Bits` is too small for its value. It changes no CSR
      -- and no queue, and unless it is `jal`, `jalr` or a branch, the program counter goes on by 4
      -- modulo 2^64.
      pub execute-Completes :
          (inst : ℕ) (i : Instr) (s : Machine Mem)
          → IsOrdinary i
          → All (λ r. r < 2 ^ 5) (reg_fields i)
          → IsServed i s
          → IsValid s
          → All (λ r. r < length s.regs) (reg_fields i)
            × Completes (is_jump i) s (Execute.execute port inst i s)
      unfolding Execute.execute
      execute-Completes inst i s hi fields served h = (
        subst (λ n. All (λ r. r < n) (reg_fields i)) (sym h.length-regs) fields,
        finish-Completes inst (is_jump i) s (Execute.execute_method port i s)
            (method-Ends i s hi served h),
      )

      below : (n : ℕ) → n < 2 ^ 64 → p.trunc 64 (pos n) ≡ n
      below n h = p.trunc_law 64 (pos n) ∙ mod_below n (2 ^ 64) h

      handled :
          (inst c : ℕ) (s : Machine Mem)
          → inst < 2 ^ 32
          → c < 2 ^ 32
          → Fits s.pc
          → Reports inst c s (Execute.handle_exception inst c s)
      unfolding Execute.handle_exception set_csr
      handled inst c s hi hc hpc = (
        set_csr (set_csr (set_csr s mtval inst) mcause c) mepc s.pc,
        refl,
        below inst (omega arith),
        below c (omega arith),
        below s.pc hpc,
        refl,
        refl,
      )

      unknown_csr :
          (op : Execute.CsrOp) (rd num rs1 : ℕ) (s : Machine Mem)
          → csr_contains num ≡ false
          → Execute.execute_csr op rd num rs1 s ≡ done s (exception Execute.illegal_instruction)
      unfolding Execute.execute_csr Execute.csr_func
      unknown_csr Execute.csrrw rd num rs1 s e = rw (e) refl
      unknown_csr Execute.csrrs rd num rs1 s e = rw (e) refl
      unknown_csr Execute.csrrc rd num rs1 s e = rw (e) refl
      unknown_csr Execute.csrrwi rd num rs1 s e = rw (e) refl
      unknown_csr Execute.csrrsi rd num rs1 s e = rw (e) refl
      unknown_csr Execute.csrrci rd num rs1 s e = rw (e) refl

      -- From a well-formed state, an instruction word below 2^32 that reports an exception raises
      -- in Python: `invld`, `ecall`, `ebreak`, and a CSR instruction on a number that
      -- `CsrRegisters` does not have. By then mtval holds the instruction, mcause the cause and
      -- mepc the program counter, which is not redirected to the handler; no register is written.
      pub execute-raises :
          (inst : ℕ) (i : Instr) (c : ℕ) (s : Machine Mem)
          → Causes i c
          → inst < 2 ^ 32
          → IsValid s
          → Reports inst c s (Execute.execute port inst i s)
      unfolding Execute.execute Execute.execute_method Execute.finish
      execute-raises inst Execute.invld c s hi hinst h =
          rw (hi) (handled inst 2 s hinst (omega arith) h.pc-Fits)
      execute-raises inst Execute.ebreak c s hi hinst h =
          rw (hi) (handled inst 3 s hinst (omega arith) h.pc-Fits)
      execute-raises inst Execute.ecall c s hi hinst h =
          rw (hi) (handled inst 8 s hinst (omega arith) h.pc-Fits)
      execute-raises inst (Execute.csr op rd num rs1) c s (e, ec) hinst h =
          rw (unknown_csr op rd num rs1 s e, ec) (handled inst 2 s hinst (omega arith) h.pc-Fits)
      execute-raises inst (Execute.rr _ _ _ _) c s hi hinst h = elim hi [ ]
      execute-raises inst (Execute.imm _ _ _ _) c s hi hinst h = elim hi [ ]
      execute-raises inst (Execute.shift _ _ _ _) c s hi hinst h = elim hi [ ]
      execute-raises inst (Execute.lui _ _) c s hi hinst h = elim hi [ ]
      execute-raises inst (Execute.auipc _ _) c s hi hinst h = elim hi [ ]
      execute-raises inst (Execute.load _ _ _ _) c s hi hinst h = elim hi [ ]
      execute-raises inst (Execute.store _ _ _ _) c s hi hinst h = elim hi [ ]
      execute-raises inst Execute.fence c s hi hinst h = elim hi [ ]
      execute-raises inst Execute.fence_i c s hi hinst h = elim hi [ ]
      execute-raises inst (Execute.jal _ _) c s hi hinst h = elim hi [ ]
      execute-raises inst (Execute.jalr _ _ _) c s hi hinst h = elim hi [ ]
      execute-raises inst (Execute.branch _ _ _ _) c s hi hinst h = elim hi [ ]
