-- ===== src/CoreImm/Refine.antt =====
-- The core decodes the immediates that the tables of the instruction set describe.
use lizard.Prelude.{ℕ, ◌/◌, ◌%◌, ◌^◌, ◌<◌, ◌≡◌, sym, ap, ◌∙◌, arith}
use lizard.Pymtl.{Pymtl}
use lizard.Pymtl.Standard.{standard}
use lizard.Isa.{Field, fields, disassemble}
use lizard.Isa
use lizard.Isa.Fields.{disassemble-standard}
use lizard.Isa.Offsets.{branch_parts, jump_parts}
use lizard.CoreImm.{
  ImmType, imm_decode, imm_type_i, imm_type_s, imm_type_b, imm_type_u, imm_type_j, imm_type_c,
  imm_type_shamt32, imm_type_shamt64,
}

-- The field of the tables that a type stands for
abbrev pub field_for : ImmType → Field
field_for imm_type_i = Isa.i_imm
field_for imm_type_s = Isa.s_imm
field_for imm_type_b = Isa.b_imm
field_for imm_type_u = Isa.u_imm
field_for imm_type_j = Isa.j_imm
field_for imm_type_c = Isa.c_imm
field_for imm_type_shamt32 = Isa.shamt32
field_for imm_type_shamt64 = Isa.shamt64

module _ ⦃p : Pymtl⦄ where
  -- The value of a field in 21 bits: signed, but for the CSR immediates and the shift amounts.
  abbrev pub widened_field : ImmType → ℕ → ℕ
  widened_field imm_type_c v = v
  widened_field imm_type_shamt32 v = v
  widened_field imm_type_shamt64 v = v
  widened_field type_ v = p.sext (fields (field_for type_)).width 21 v

  standard_decode :
      (type_ : ImmType) (inst : ℕ)
      → inst < 2 ^ 32
      → imm_decode ⦃p = p⦄ 21 type_ inst
        ≡ widened_field type_ (disassemble ⦃p = standard⦄ (fields (field_for type_)) inst)
  unfolding imm_decode disassemble fields
  standard_decode imm_type_i inst h = ap (p.sext 12 21) (omega (arith, p.slice_law inst 20 32))
  standard_decode imm_type_s inst h =
      ap (p.sext 12 21)
        (rw (p.concat_law 5, p.slice_law inst 25 32, p.slice_law inst 7 12) (omega arith))
  standard_decode imm_type_b inst h = ap (p.sext 13 21) (
      rw
        (
          p.concat_law 12,
          p.concat_law 11,
          p.concat_law 5,
          p.concat_law 1,
          p.slice_law inst 31 32,
          p.slice_law inst 7 8,
          p.slice_law inst 25 31,
          p.slice_law inst 8 12,
        )
        (omega arith
          ∙ sym (
              branch_parts (inst / 2 ^ 31 % 2) (inst / 2 ^ 7 % 2) (inst / 2 ^ 25 % 64)
                (inst / 2 ^ 8 % 16) (omega arith) (omega arith) (omega arith) (omega arith))))
  standard_decode imm_type_u inst h = ap (p.sext 20 21) (omega (arith, p.slice_law inst 12 32))
  standard_decode imm_type_j inst h = ap (p.sext 21 21) (
      rw
        (
          p.concat_law 20,
          p.concat_law 12,
          p.concat_law 11,
          p.concat_law 1,
          p.slice_law inst 31 32,
          p.slice_law inst 12 20,
          p.slice_law inst 20 21,
          p.slice_law inst 21 31,
        )
        (omega arith
          ∙ sym (
              jump_parts (inst / 2 ^ 31 % 2) (inst / 2 ^ 12 % 256) (inst / 2 ^ 20 % 2)
                (inst / 2 ^ 21 % 1024) (omega arith) (omega arith) (omega arith) (omega arith))))
  standard_decode imm_type_c inst h = omega (arith, p.slice_law inst 15 20)
  standard_decode imm_type_shamt32 inst h = omega (arith, p.slice_law inst 20 25)
  standard_decode imm_type_shamt64 inst h = omega (arith, p.slice_law inst 20 26)

  -- For every 32-bit word and immediate type, the decoder of the core gives the field that the tables of
  -- the instruction set read from the word, widened_field to the 21 bits of a decoded immediate: the split
  -- offsets of stores, branches and jumps included.
  pub imm_decode_refines :
      (type_ : ImmType) (inst : ℕ)
      → inst < 2 ^ 32
      → imm_decode ⦃p = p⦄ 21 type_ inst
        ≡ widened_field type_ (disassemble ⦃p = p⦄ (fields (field_for type_)) inst)
  imm_decode_refines type_ inst h =
      standard_decode type_ inst h
      ∙ ap (widened_field type_)
          (sym (disassemble-standard ⦃p = p⦄ (fields (field_for type_)) inst))
