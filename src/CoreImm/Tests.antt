-- ===== src/CoreImm/Tests.antt =====
-- The immediate of a concrete branch, with the standard functions for the package pymtl.
use lizard.Prelude.{◌≡◌, refl, arith}
use lizard.Pymtl.Standard.{standard}
use lizard.Isa.{disassemble, fields}
use lizard.CoreImm.{imm_decode, imm_type_b}
use lizard.CoreImm.Refine.{widened_field, field_for, imm_decode_refines}

-- blt x1, x2, -8
imm_decode_run : imm_decode 21 imm_type_b 0xFE20CCE3 ≡ 0x1FFFF8
unfolding imm_decode
imm_decode_run = refl

imm_decode_refines_example :
    imm_decode 21 imm_type_b 0xFE20CCE3
    ≡ widened_field imm_type_b (disassemble (fields (field_for imm_type_b)) 0xFE20CCE3)
imm_decode_refines_example = imm_decode_refines imm_type_b 0xFE20CCE3 (omega arith)
