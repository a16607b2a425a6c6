-- ===== src/CoreBranch/Compare.antt =====
-- The comparator decides what the branch instructions of the semantics do.
use lizard.Prelude.{ℕ, ◌^◌, ◌<◌, ◌≡◌, refl, ap, arith, true, false, not, ◌==◌, ◌||◌, some}
use lizard.Prelude.Int.{ltb_ℤ}
use lizard.Pymtl.{Pymtl}
use lizard.CoreAlu.{biased}
use lizard.CoreAlu.Compare.{biased_signed, biased_unsigned, ltb-biased_signed, ltb-biased_unsigned}
use lizard.CoreBranch.{BranchMsg, branch_decoder, compare_exec, cmp_lut}
use lizard.Semantics.Execute.{BranchOp, beq, bne, blt, bge, bltu, bgeu, branch_taken}

-- `funct3` of the branches in the instruction set
abbrev pub funct3_of : BranchOp → ℕ
funct3_of beq = 0b000
funct3_of bne = 0b001
funct3_of blt = 0b100
funct3_of bge = 0b101
funct3_of bltu = 0b110
funct3_of bgeu = 0b111

module _ ⦃p : Pymtl⦄ (a b : ℕ) (ha : a < 2 ^ 64) (hb : b < 2 ^ 64) where
  eqb-biased : (biased 64 false a == biased 64 false b) ≡ (a == b)
  eqb-biased = rw (biased_signed a ha, biased_signed b hb) (ground arith)

  eqb-biased_unsigned : (biased 64 true a == biased 64 true b) ≡ (a == b)
  eqb-biased_unsigned = rw (biased_unsigned a ha, biased_unsigned b hb) refl

  not_less :
      (not (ltb_ℤ (p.to_int 64 a) (p.to_int 64 b)) || (a == b))
      ≡ not (ltb_ℤ (p.to_int 64 a) (p.to_int 64 b))
  not_less = rw (p.to_int_law 64 a, p.to_int_law 64 b) (ground arith)

  pub compare_exec-branch_taken :
      (op : BranchOp)
      → (m : BranchMsg) × (branch_decoder (funct3_of op) ≡ some m)
        × (compare_exec 64 (cmp_lut m.type_) a b m.unsigned ≡ branch_taken op a b)
  unfolding branch_decoder compare_exec cmp_lut branch_taken
  compare_exec-branch_taken beq = (_, refl, eqb-biased)
  compare_exec-branch_taken bne = (_, refl, ap not eqb-biased)
  compare_exec-branch_taken blt = (_, refl, ltb-biased_signed a b ha hb)
  compare_exec-branch_taken bge = (_, refl, rw (ltb-biased_signed a b ha hb, eqb-biased) not_less)
  compare_exec-branch_taken bltu = (_, refl, ltb-biased_unsigned a b ha hb)
  compare_exec-branch_taken bgeu =
      (_, refl, rw (ltb-biased_unsigned a b ha hb, eqb-biased_unsigned) (ground arith))
