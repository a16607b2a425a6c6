-- ===== src/Semantics/Execute/Jumps.antt =====
-- The target of `jalr`, against the instruction set's definition.
use lizard.Prelude.{ℕ, ◌+◌, ◌*◌, ◌/◌, ◌%◌, ◌^◌, ◌<◌, ◌≡◌, refl, ap, ◌∙◌, arith}
use lizard.Prelude.{bit_and, mod_below}
use lizard.BitLaws.Step.{bit_and_step}
use lizard.BitLaws.Masks.{bit_and-low}
use lizard.Pymtl.{Pymtl}
use lizard.Semantics.Alu.{sext_xlen}
use lizard.Semantics.Machine.{Machine, MemPort, get_reg, set_reg}
use lizard.Semantics.Execute
use lizard.Semantics.Execute.{Outcome, done}

-- The mask keeps bits 1 to 31.
pub mask-eq : (a : ℕ) → bit_and a 0xFFFFFFFE ≡ a % 2 ^ 32 / 2 * 2
mask-eq a = omega (arith, bit_and_step a 0xFFFFFFFE, bit_and-low 31 (a / 2))

module _ ⦃p : Pymtl⦄ {Mem : Type 0} where
  -- The sum that `jalr` jumps to.
  abbrev pub jump_sum : Machine Mem → ℕ → ℕ → ℕ
  jump_sum s rs1 i_imm = (get_reg s rs1 + sext_xlen 12 i_imm) % 2 ^ 64

  -- `jalr` completes, moves the next address to `rd`, and goes to the low 32 bits of the sum of its
  -- operands with bit 0 cleared, whatever the sum; so the target is below 2^32, and it is the one of
  -- the instruction set, the whole sum with bit 0 cleared, when the sum is below 2^32.
  pub execute-jalr :
      (port : MemPort Mem) (inst rd rs1 i_imm : ℕ) (s : Machine Mem)
      → (t : Machine Mem) × (Execute.execute port inst (Execute.jalr rd rs1 i_imm) s ≡ done t tt)
        × (t.pc ≡ jump_sum s rs1 i_imm % 2 ^ 32 / 2 * 2)
        × (t.pc < 2 ^ 32)
        × (jump_sum s rs1 i_imm < 2 ^ 32 → t.pc ≡ jump_sum s rs1 i_imm / 2 * 2)
        × (t.regs ≡ (set_reg s rd ((s.pc + 4) % 2 ^ 64)).regs)
  unfolding Execute.execute Execute.execute_method Execute.finish
  execute-jalr port inst rd rs1 i_imm s =
      let sum : p.add 64 (get_reg s rs1) (sext_xlen 12 i_imm) ≡ jump_sum s rs1 i_imm =
        p.add_law 64 (get_reg s rs1) (sext_xlen 12 i_imm) in
      let target : p.band (p.add 64 (get_reg s rs1) (sext_xlen 12 i_imm)) 0xFFFFFFFE
          ≡ jump_sum s rs1 i_imm % 2 ^ 32 / 2 * 2 =
        p.band_law _ _ ∙ mask-eq _ ∙ ap (λ x. x % 2 ^ 32 / 2 * 2) sum in
      (
        _,
        refl,
        target,
        omega (arith, target),
        λ h. target ∙ ap (λ x. x / 2 * 2) (mod_below (jump_sum s rs1 i_imm) (2 ^ 32) h),
        ap (λ x. (set_reg s rd x).regs) (p.add_law 64 s.pc 4),
      )
