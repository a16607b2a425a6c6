-- ===== src/CoreImm.antt =====
-- The immediates of the core's decoders: lizard/core/rtl/frontend/imm_decoder.py, on the fields of
-- `RVInstMask` in lizard/msg/codes.py.
pub mod Refine
mod Tests
use lizard.Prelude.{ℕ}
use lizard.Pymtl.{Pymtl}

-- `ImmType`
pub data ImmType : Type 0 where
  imm_type_i imm_type_s imm_type_b imm_type_u imm_type_j imm_type_c : ImmType
  imm_type_shamt32 imm_type_shamt64 : ImmType

module _ ⦃p : Pymtl⦄ where
  -- The wires of `handle_imm`: the parts of a concatenation are in the order of the code.
  unfoldable pub imm_s : ℕ → ℕ
  imm_s inst = p.concat 5 (p.slice inst 25 32) (p.slice inst 7 12)

  unfoldable pub imm_b : ℕ → ℕ
  imm_b inst = p.concat 12 (p.slice inst 31 32) (
      p.concat 11 (p.slice inst 7 8)
        (p.concat 5 (p.slice inst 25 31) (p.concat 1 (p.slice inst 8 12) 0)))

  unfoldable pub imm_j : ℕ → ℕ
  imm_j inst = p.concat 20 (p.slice inst 31 32) (
      p.concat 12 (p.slice inst 12 20)
        (p.concat 11 (p.slice inst 20 21) (p.concat 1 (p.slice inst 21 31) 0)))

  -- `ImmDecoder` with immediates of `imm_len` bits
  unfoldable pub imm_decode : ℕ → ImmType → ℕ → ℕ
  unfolding imm_s imm_b imm_j
  imm_decode imm_len imm_type_i inst = p.sext 12 imm_len (p.slice inst 20 32)
  imm_decode imm_len imm_type_s inst = p.sext 12 imm_len (imm_s inst)
  imm_decode imm_len imm_type_b inst = p.sext 13 imm_len (imm_b inst)
  imm_decode imm_len imm_type_u inst = p.sext 20 imm_len (p.slice inst 12 32)
  imm_decode imm_len imm_type_j inst = p.sext 21 imm_len (imm_j inst)
  imm_decode imm_len imm_type_c inst = p.slice inst 15 20
  imm_decode imm_len imm_type_shamt32 inst = p.slice inst 20 25
  imm_decode imm_len imm_type_shamt64 inst = p.slice inst 20 26
