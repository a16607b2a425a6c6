-- ===== src/CoreBranch/Refine.antt =====
-- The core redirects to the program counter that `RV64GSemantics` goes on with.
use lizard.Prelude.{ℕ, ◌^◌, ◌<◌, ◌≡◌, refl, sym, ap, ◌∙◌, arith, Bool, true, false, ◌||◌}
use lizard.Prelude.{if◌then◌else◌, some}
use lizard.Pymtl.{Pymtl}
use lizard.Semantics.Machine.{Machine, MemPort, get_reg, set_reg}
use lizard.Semantics.Machine.Valid.{IsValid, get_reg-Fits}
use lizard.Semantics.Execute
use lizard.Semantics.Execute.{
  BranchOp, branch_taken, execute, done, Outcome, Result, redirect, fall_through,
}
use lizard.Semantics.Execute.Jumps.{jump_sum, mask-eq}
use lizard.CoreBranch.{
  BranchInput, BranchMsg, op_class_branch, op_class_jump, branch_decoder, branch_target, link,
  take_branch, compare_exec, cmp_lut,
}
use lizard.CoreBranch.Compare.{funct3_of, compare_exec-branch_taken}

or-false : (x : Bool) → (x || false) ≡ x
or-false true = refl
or-false false = refl

or-true : (x : Bool) → (x || true) ≡ true
or-true true = refl
or-true false = refl

module _ ⦃p : Pymtl⦄ where
  -- The message of a branch; the decoder has widened the offset to 21 bits.
  abbrev pub branch_input : BranchMsg → ℕ → ℕ → ℕ → ℕ → BranchInput
  branch_input m a b b_imm pc = record {
    op_class = op_class_branch;
    msg = m;
    rs1_val = true;
    rs1 = a;
    rs2 = b;
    imm = p.sext 13 21 b_imm;
    hdr_pc = pc;
  }

  -- The messages of `jal` and `jalr`, where what is compared is left open.
  abbrev pub jal_input : BranchMsg → ℕ → ℕ → ℕ → ℕ → BranchInput
  jal_input m a b j_imm pc = record {
    op_class = op_class_jump;
    msg = m;
    rs1_val = false;
    rs1 = a;
    rs2 = b;
    imm = j_imm;
    hdr_pc = pc;
  }

  abbrev pub jalr_input : BranchMsg → ℕ → ℕ → ℕ → ℕ → BranchInput
  jalr_input m a b i_imm pc = record {
    op_class = op_class_jump;
    msg = m;
    rs1_val = true;
    rs1 = a;
    rs2 = b;
    imm = p.sext 12 21 i_imm;
    hdr_pc = pc;
  }

  widen_13 : (x : ℕ) → x < 2 ^ 13 → p.sext 21 64 (p.sext 13 21 x) ≡ p.sext 13 64 x
  widen_13 x h =
      ground (arith, p.sext_law 13 21 x, p.sext_law 13 64 x, p.sext_law 21 64 (p.sext 13 21 x))

  widen_12 : (x : ℕ) → x < 2 ^ 12 → p.sext 21 64 (p.sext 12 21 x) ≡ p.sext 12 64 x
  widen_12 x h =
      ground (arith, p.sext_law 12 21 x, p.sext_law 12 64 x, p.sext_law 21 64 (p.sext 12 21 x))

  branch_target_lem :
      (m : BranchMsg) (a b b_imm pc : ℕ) (t : Bool)
      → b_imm < 2 ^ 13
      → compare_exec 64 (cmp_lut m.type_) a b m.unsigned ≡ t
      → branch_target (branch_input m a b b_imm pc)
        ≡ (if t then p.add 64 pc (p.sext 13 64 b_imm) else p.add 64 pc 4)
  unfolding branch_target take_branch
  branch_target_lem m a b b_imm pc t h e =
      rw (or-false (compare_exec 64 (cmp_lut m.type_) a b m.unsigned), e, widen_13 b_imm h) refl

module _ ⦃p : Pymtl⦄ {Mem : Type 0} (port : MemPort Mem) (inst : ℕ) (s : Machine Mem) where
  executed :
      (t : Bool) (target : ℕ)
      → Execute.finish port inst (if t then done s (redirect target) else done s fall_through)
        ≡ done (record s { pc = if t then target else p.add 64 s.pc 4 }) tt
  unfolding Execute.finish
  executed true target = refl
  executed false target = refl

  -- In a well-formed state, for each of the six branches with a 13-bit offset: the decoder finds the
  -- branch's message, and the address that the stage redirects to from the values of the two registers is
  -- the program counter after `execute`, which changes nothing else.
  pub branch_refines :
      (op : BranchOp) (rs1 rs2 b_imm : ℕ)
      → IsValid s
      → b_imm < 2 ^ 13
      → (m : BranchMsg) × (branch_decoder (funct3_of op) ≡ some m)
        × (execute port inst (Execute.branch op rs1 rs2 b_imm) s
            ≡ done
                (record s {
                  pc = branch_target (branch_input m (get_reg s rs1) (get_reg s rs2) b_imm s.pc);
                })
                tt)
  unfolding execute Execute.execute_method
  branch_refines op rs1 rs2 b_imm hs h =
      let a = get_reg s rs1 in
      let b = get_reg s rs2 in
      let (m, e, taken) =
        compare_exec-branch_taken a b (get_reg-Fits s rs1 hs) (get_reg-Fits s rs2 hs) op in
      (
        m,
        e,
        executed (branch_taken op a b) (p.add 64 s.pc (p.sext 13 64 b_imm))
            ∙ ap (λ x. done (record s { pc = x }) tt)
                (sym (branch_target_lem m a b b_imm s.pc _ h taken)),
      )

  jal_target :
      (m : BranchMsg) (a b j_imm : ℕ)
      → branch_target (jal_input m a b j_imm s.pc) ≡ p.add 64 s.pc (p.sext 21 64 j_imm)
  unfolding branch_target take_branch
  jal_target m a b j_imm = rw (or-true (compare_exec 64 (cmp_lut m.type_) a b m.unsigned)) refl

  jalr_target :
      (m : BranchMsg) (a b i_imm : ℕ)
      → i_imm < 2 ^ 12
      → branch_target (jalr_input m a b i_imm s.pc) ≡ p.put (p.add 64 a (p.sext 12 64 i_imm)) 0 1 0
  unfolding branch_target take_branch
  jalr_target m a b i_imm h =
      rw (or-true (compare_exec 64 (cmp_lut m.type_) a b m.unsigned), widen_12 i_imm h) refl

  -- For `jal`, and for `jalr` with a 12-bit offset when the sum of its operands is below 2^32, where the
  -- semantics keeps all of it: whatever is compared, `rd` gets the stage's result and the program counter
  -- its target.
  pub jump_refines :
      (m : BranchMsg) (b rd rs1 j_imm i_imm : ℕ)
      → i_imm < 2 ^ 12
      → jump_sum s rs1 i_imm < 2 ^ 32
      → (execute port inst (Execute.jal rd j_imm) s
          ≡ done
              (record (set_reg s rd (link (jal_input m b b j_imm s.pc))) {
                pc = branch_target (jal_input m b b j_imm s.pc);
              })
              tt)
        × (execute port inst (Execute.jalr rd rs1 i_imm) s
            ≡ done
                (record (set_reg s rd (link (jalr_input m (get_reg s rs1) b i_imm s.pc))) {
                  pc = branch_target (jalr_input m (get_reg s rs1) b i_imm s.pc);
                })
                tt)
  unfolding execute Execute.execute_method Execute.finish link
  jump_refines m b rd rs1 j_imm i_imm h small =
      let a = get_reg s rs1 in
      let t = set_reg s rd (p.add 64 s.pc 4) in
      let total = p.add 64 a (p.sext 12 64 i_imm) in
      let sum : total ≡ jump_sum s rs1 i_imm = p.add_law 64 a (p.sext 12 64 i_imm) in
      let even : p.band total 0xFFFFFFFE ≡ p.put total 0 1 0 =
        omega (arith, p.band_law total 0xFFFFFFFE, mask-eq total, p.put_law total 0 1 0, sum) in
      (
        ap (λ x. done (record t { pc = x }) tt) (sym (jal_target m b b j_imm)),
        ap (λ x. done (record t { pc = x }) tt) (even ∙ sym (jalr_target m a b i_imm h)),
      )
