-- ===== src/CoreAlu/Tests.antt =====
-- The ALU at a concrete instruction, with the standard functions for the package pymtl.
use lizard.Prelude.{◌≡◌, refl, arith}
use lizard.Pymtl.Standard.{standard}
use lizard.Semantics.Alu
use lizard.CoreAlu.{process, sra}
use lizard.CoreAlu.Decoder.{alu_msg}
use lizard.CoreAlu.Refine.{Implements, alu_refines}
use lizard.Prelude.{true, false}

-- sraw x3, x1, x2, of -8 by 33: only the low five bits count.
process_run :
    process record {
      alu_msg = alu_msg sra false true;
      rs1 = 0xFFFFFFF8;
      rs2 = 33;
      rs2_val = true;
      imm = 0;
      hdr_pc = 0;
    }
    ≡ 0xFFFFFFFFFFFFFFFC
unfolding process
process_run = refl

alu_refines_example : Implements Alu.sraw 0x4020D1BB 0xFFFFFFF8 33 0 0x200
alu_refines_example =
    alu_refines 0x4020D1BB 0xFFFFFFF8 33 0 0x200 (omega arith) (omega arith) Alu.sraw
      (refl, refl, refl)
