-- ===== src/Semantics/Execute/Csrs.antt =====
-- What the CSR instructions write, against the instruction set's definition of them.
use lizard.Prelude.{suc-eqb_zero}
use lizard.Prelude.{
  ℕ, zero, suc, ◌+◌, ◌%◌, ◌^◌, ◌<◌, ◌≡◌, ◌≢◌, refl, sym, ◌∙◌, ap, arith, ◌==◌, Bool, true, false,
}
use lizard.Prelude.{if◌then◌else◌, none, some, bit_or, mod_below, ==_ne}
use lizard.Prelude.Int.{pos}
use mathlib.Core.Path.{subst}
use lizard.BitLaws.Masks.{bit_or-lt, bit_or-zero, bit_and-zero}
use lizard.Pymtl.{Pymtl}
use lizard.Semantics.Machine.{Machine, MemPort, set_reg, get_reg, set_csr, get_csr}
use lizard.Semantics.Machine.Valid.{Fits, IsValid, get_reg-Fits}
use lizard.Semantics.Execute
use lizard.Semantics.Execute.{Outcome, Result, done, fall_through}
use lizard.Semantics.Execute.Outcomes.{set_reg-SameCsrs}
use lizard.Semantics.Execute.CsrRules.{
  isa_value, isa_write, isa_write-some, is_read_only, attempts_write, lossy_value, IsStored,
  Conforms, operand, Updates,
}

eqb_self : (n : ℕ) → (n == n) ≡ true
eqb_self n = ground arith

module _ ⦃p : Pymtl⦄ {Mem : Type 0} where
  stored_get : (s : Machine Mem) (num : ℕ) → num ≢ 0xFC0 → get_csr s num ≡ some (s.csr num, s)
  unfolding get_csr
  stored_get s num h = rw (==_ne num 0xFC0 h) refl

  stored_set :
      (s : Machine Mem) (num v : ℕ)
      → num ≢ 0x7C0
      → set_csr s num v ≡ record s { csr = λ k. if k == num then p.trunc 64 (pos v) else s.csr k }
  unfolding set_csr
  stored_set s num v h = rw (==_ne num 0x7C0 h) refl

  csr_func-stored :
      (op : ℕ → Bool → ℕ → Machine Mem → Outcome Mem Result) (rd num : ℕ) (b : Bool) (v : ℕ)
      (s : Machine Mem)
      → IsStored num
      → Execute.csr_func rd num b v op s ≡ op num b v (set_reg s rd (s.csr num))
  unfolding Execute.csr_func
  csr_func-stored op rd num b v s h = rw (h.known, stored_get s num h.not_mngr2proc) refl

  -- The write of `w` after that of `rd`.
  written :
      (port : MemPort Mem) (inst : ℕ) (s u : Machine Mem) (rd num w : ℕ)
      → num ≢ 0x7C0
      → Fits w
      → u ≡ set_reg s rd (s.csr num)
      → Updates s rd num w (Execute.finish port inst (done (set_csr u num w) fall_through))
  unfolding Execute.finish
  written port inst s u rd num w h hw eu = rw (stored_set u num w h) (
    record u { csr = λ k. if k == num then p.trunc 64 (pos w) else u.csr k; pc = p.add 64 u.pc 4 },
    refl,
    rw (eqb_self num) (p.trunc_law 64 (pos w) ∙ mod_below w (2 ^ 64) hw),
    λ k hk. rw (==_ne k num hk, csrs) refl,
    ap (λ x. x.regs) eu,
    p.add_law 64 u.pc 4 ∙ ap (λ x. (x + 4) % 2 ^ 64) pcs,
  )
    where
      csrs : u.csr ≡ s.csr
      csrs = let ((e, _, _), _) = set_reg-SameCsrs s rd (s.csr num) in ap (λ x. x.csr) eu ∙ e

      pcs : u.pc ≡ s.pc
      pcs = let (_, e) = set_reg-SameCsrs s rd (s.csr num) in ap (λ x. x.pc) eu ∙ e

  -- No write after that of `rd`.
  kept :
      (port : MemPort Mem) (inst : ℕ) (s u : Machine Mem) (rd num w : ℕ)
      → s.csr num ≡ w
      → u ≡ set_reg s rd (s.csr num)
      → Updates s rd num w (Execute.finish port inst (done u fall_through))
  unfolding Execute.finish
  kept port inst s u rd num w ew eu = (
    record u { pc = p.add 64 u.pc 4 },
    refl,
    ap (λ f. f num) csrs ∙ ew,
    λ k hk. ap (λ f. f k) csrs,
    ap (λ x. x.regs) eu,
    p.add_law 64 u.pc 4 ∙ ap (λ x. (x + 4) % 2 ^ 64) pcs,
  )
    where
      csrs : u.csr ≡ s.csr
      csrs = let ((e, _, _), _) = set_reg-SameCsrs s rd (s.csr num) in ap (λ x. x.csr) eu ∙ e

      pcs : u.pc ≡ s.pc
      pcs = let (_, e) = set_reg-SameCsrs s rd (s.csr num) in ap (λ x. x.pc) eu ∙ e

  -- The value that is read again, after the write of `rd`.
  reread :
      (s u : Machine Mem) (rd num : ℕ)
      → num ≢ 0xFC0
      → u ≡ set_reg s rd (s.csr num)
      → get_csr u num ≡ some (s.csr num, u)
  reread s u rd num h eu =
      let ((e, _, _), _) = set_reg-SameCsrs s rd (s.csr num) in
      stored_get u num h ∙ ap (λ v. some (v, u)) (ap (λ x. x.csr num) eu ∙ ap (λ f. f num) e)

  csrrs-Updates :
      (port : MemPort Mem) (inst : ℕ) (s : Machine Mem) (rd num rs1 v : ℕ)
      → IsStored num
      → IsValid s
      → Fits v
      → (rs1 ≡ 0 → v ≡ 0)
      → Updates s rd num
          (bit_or (s.csr num) v)
          (Execute.finish port inst (Execute.csrrs_op num (rs1 == 0) v (set_reg s rd (s.csr num))))
  unfolding Execute.csrrs_op
  csrrs-Updates port inst s rd num zero v h hs hv hz =
      kept port inst s (set_reg s rd (s.csr num)) rd num _ same refl
    where
      same : s.csr num ≡ bit_or (s.csr num) v
      same = rw (hz refl) (sym (bit_or-zero 64 (s.csr num) (hs.csr-Fits num)))
  csrrs-Updates port inst s rd num (suc rs1) v h hs hv hz =
      rw (suc-eqb_zero rs1, reread s _ rd num h.not_mngr2proc refl, p.bor_law (s.csr num) v)
        (written port inst s _ rd num _ h.not_proc2mngr
          (bit_or-lt 64 (s.csr num) v (hs.csr-Fits num) hv) refl)

  csrrc-Updates :
      (port : MemPort Mem) (inst : ℕ) (s : Machine Mem) (rd num v : ℕ)
      → IsStored num
      → IsValid s
      → v ≢ 0
      → Updates s rd num 0
          (Execute.finish port inst (Execute.csrrc_op num false v (set_reg s rd (s.csr num))))
  unfolding Execute.csrrc_op
  csrrc-Updates port inst s rd num v h hs hv =
      rw
        (
          reread s _ rd num h.not_mngr2proc refl,
          ==_ne v 0 hv,
          p.band_law (s.csr num) 0,
          bit_and-zero 64 (s.csr num) (hs.csr-Fits num),
        )
        (written port inst s _ rd num _ h.not_proc2mngr (omega arith) refl)

  x0_reads_zero : (s : Machine Mem) (rs1 : ℕ) → rs1 ≡ 0 → get_reg s rs1 ≡ 0
  unfolding get_reg
  x0_reads_zero s rs1 e = rw (e) refl

  conforming-Updates :
      (port : MemPort Mem) (inst : ℕ) (op : Execute.CsrOp) (rd num rs1 : ℕ) (s : Machine Mem)
      → Conforms op
      → IsStored num
      → IsValid s
      → rs1 < 2 ^ 5
      → Updates s rd num
          (isa_value op (s.csr num) (operand op rs1 s))
          (Execute.execute port inst (Execute.csr op rd num rs1) s)
  unfolding Execute.execute Execute.execute_method Execute.execute_csr Execute.csrrw_op
  conforming-Updates port inst Execute.csrrw rd num rs1 s ho h hs hf =
      rw (csr_func-stored Execute.csrrw_op rd num (rs1 == 0) (get_reg s rs1) s h)
        (written port inst s _ rd num _ h.not_proc2mngr (get_reg-Fits s rs1 hs) refl)
  conforming-Updates port inst Execute.csrrs rd num rs1 s ho h hs hf =
      rw (csr_func-stored Execute.csrrs_op rd num (rs1 == 0) (get_reg s rs1) s h) (
        csrrs-Updates port inst s rd num rs1 (get_reg s rs1) h hs (get_reg-Fits s rs1 hs)
          (λ e. x0_reads_zero s rs1 e))
  conforming-Updates port inst Execute.csrrwi rd num rs1 s ho h hs hf =
      rw (csr_func-stored Execute.csrrw_op rd num false rs1 s h)
        (written port inst s _ rd num _ h.not_proc2mngr (omega arith) refl)
  conforming-Updates port inst Execute.csrrc rd num rs1 s ho h hs hf = elim ho [ ]
  conforming-Updates port inst Execute.csrrsi rd num rs1 s ho h hs hf = elim ho [ ]
  conforming-Updates port inst Execute.csrrci rd num rs1 s ho h hs hf = elim ho [ ]

  -- In a well-formed state, `csrrw`, `csrrs` and `csrrwi` on a CSR of `CsrRegisters` that is neither
  -- queue, and that is not read-only or that the instruction does not attempt to write: the CSR gets
  -- the operand, or for `csrrs` the old value with the bits of the operand set; `rd` gets the old
  -- value, no other CSR changes, and the program counter goes on by 4 modulo 2^64.
  pub execute_csr-Updates :
      (port : MemPort Mem) (inst : ℕ) (op : Execute.CsrOp) (rd num rs1 w : ℕ) (s : Machine Mem)
      → Conforms op
      → IsStored num
      → IsValid s
      → rs1 < 2 ^ 5
      → isa_write op num rs1 (s.csr num) (operand op rs1 s) ≡ some w
      → Updates s rd num w (Execute.execute port inst (Execute.csr op rd num rs1) s)
  execute_csr-Updates port inst op rd num rs1 w s ho h hs hf e =
      subst (λ v. Updates s rd num v (Execute.execute port inst (Execute.csr op rd num rs1) s))
        (isa_write-some op num rs1 _ _ w e)
        (conforming-Updates port inst op rd num rs1 s ho h hs hf)

  -- In a well-formed state, and where a `csrrw`, `csrrs` or `csrrwi` attempts to write a read-only
  -- CSR of `CsrRegisters` that is not a queue: the instruction set makes that an illegal
  -- instruction, and the code completes instead and writes the CSR and `rd` as if it were writable.
  pub execute_csr-writes_read_only :
      (port : MemPort Mem) (inst : ℕ) (op : Execute.CsrOp) (rd num rs1 : ℕ) (s : Machine Mem)
      → Conforms op
      → IsStored num
      → IsValid s
      → rs1 < 2 ^ 5
      → is_read_only num ≡ true
      → attempts_write op rs1 ≡ true
      → (isa_write op num rs1 (s.csr num) (operand op rs1 s) ≡ none)
        × Updates s rd num
            (isa_value op (s.csr num) (operand op rs1 s))
            (Execute.execute port inst (Execute.csr op rd num rs1) s)
  unfolding isa_write
  execute_csr-writes_read_only port inst op rd num rs1 s ho h hs hf read_only writes =
      (rw (read_only, writes) refl, conforming-Updates port inst op rd num rs1 s ho h hs hf)

  -- In a well-formed state and on such a CSR, the other three, with an operand that is not 0, do
  -- not: `csrrsi` writes the operand and drops the bits that were set, and `csrrc` and `csrrci`
  -- clear the whole CSR. Else they do as those do.
  pub execute_csr-loses :
      (port : MemPort Mem) (inst : ℕ) (op : Execute.CsrOp) (rd num rs1 : ℕ) (s : Machine Mem)
      → (Conforms op → ⊥)
      → IsStored num
      → IsValid s
      → operand op rs1 s ≢ 0
      → rs1 < 2 ^ 5
      → Updates s rd num
          (lossy_value op rs1)
          (Execute.execute port inst (Execute.csr op rd num rs1) s)
  unfolding Execute.execute Execute.execute_method Execute.execute_csr Execute.csrrw_op
  execute_csr-loses port inst Execute.csrrw rd num rs1 s ho h hs hv hf = absurd (ho tt)
  execute_csr-loses port inst Execute.csrrs rd num rs1 s ho h hs hv hf = absurd (ho tt)
  execute_csr-loses port inst Execute.csrrwi rd num rs1 s ho h hs hv hf = absurd (ho tt)
  execute_csr-loses port inst Execute.csrrsi rd num rs1 s ho h hs hv hf =
      rw (csr_func-stored Execute.csrrw_op rd num false rs1 s h)
        (written port inst s _ rd num _ h.not_proc2mngr (omega arith) refl)
  execute_csr-loses port inst Execute.csrrc rd num rs1 s ho h hs hv hf =
      rw
        (
          csr_func-stored Execute.csrrc_op rd num (rs1 == 0) (get_reg s rs1) s h,
          ==_ne rs1 0 (λ e. hv (x0_reads_zero s rs1 e)),
        )
        (csrrc-Updates port inst s rd num (get_reg s rs1) h hs hv)
  execute_csr-loses port inst Execute.csrrci rd num rs1 s ho h hs hv hf =
      rw (csr_func-stored Execute.csrrc_op rd num false rs1 s h)
        (csrrc-Updates port inst s rd num rs1 h hs hv)
