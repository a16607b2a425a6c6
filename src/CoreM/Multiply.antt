-- ===== src/CoreM/Multiply.antt =====
-- The multiplication stage against the instructions.
use lizard.Prelude.{
  ℕ, ◌*◌, ◌%◌, ◌^◌, ◌≤◌, ◌<◌, Bool, true, false, arith, some, ◌≡◌, refl, sym, ap, ◌∙◌,
}
use lizard.Prelude.Int.{ℤ, pos, ◌*ℤ◌}
use mathlib.Core.Option
use lizard.Pymtl.{Pymtl, InRange, signed, wrap}
use lizard.Semantics.Alu
use lizard.Semantics.Alu.Range.{product-InRange, mixed-InRange, unsigned-InRange}
use lizard.Semantics.Divide.Range.{IsSigned, signed-IsSigned}
use lizard.Multiplier.Product.{product}
use lizard.CoreM.{
  MMsg, m_func_mul, MVariant, m_variant_n, m_variant_h, m_variant_hsu, m_variant_hu, mult_inputs,
  mult_out,
}
use lizard.CoreM.Words.{wrap-low64, wrap-low32, wrap-signed, signed-sext}

abbrev pub mul_msg : MVariant → Bool → MMsg
mul_msg variant op32 = record { func = m_func_mul; variant = variant; op32 = op32 }

pub stage_bits : 16 ≤ 64
stage_bits = omega arith

module _ ⦃p : Pymtl⦄ where
  -- The result of the stage, with the product that the multiplier of four stages gives.
  abbrev pub mul_stage : MVariant → Bool → ℕ → ℕ → ℕ
  mul_stage variant op32 a b =
      let msg = mul_msg variant op32 in
      mult_out msg (product 63 16 128 stage_bits (mult_inputs msg a b))

  low64 : (z : ℤ) → p.slice (wrap 128 z) 0 64 ≡ wrap 64 z
  low64 z = p.slice_law (wrap 128 z) 0 64 ∙ (omega (arith, wrap-low64 z))

  low32 : (z : ℤ) → p.slice (wrap 128 z) 0 32 ≡ wrap 32 z
  low32 z = p.slice_law (wrap 128 z) 0 32 ∙ (omega (arith, wrap-low32 z))

  upper :
      (z : ℤ)
      → InRange 128 z
      → Option.map (λ wide. p.slice wide 64 128) (p.construct 128 z)
        ≡ some (p.slice (wrap 128 z) 64 128)
  upper z h = ap (Option.map (λ wide. p.slice wide 64 128)) (p.construct_law 128 z h)

  low_product : (a b : ℕ) → p.trunc 64 (pos (p.mul 64 a b)) ≡ a * b % 2 ^ 64
  low_product a b = p.trunc_law 64 (pos (p.mul 64 a b)) ∙ omega (arith, p.mul_law 64 a b)

  word-lt : (a : ℕ) → p.slice a 0 32 < 2 ^ 32
  word-lt a = omega (arith, p.slice_law a 0 32)

  -- The results of the five instructions.
  abbrev pub MulAgrees : ℕ → ℕ → Type 0
  MulAgrees a b =
      (Alu.rr_value Alu.mul a b ≡ some (mul_stage m_variant_n false a b))
      × (Alu.rr_value Alu.mulh a b ≡ some (mul_stage m_variant_h false a b))
      × (Alu.rr_value Alu.mulhsu a b ≡ some (mul_stage m_variant_hsu false a b))
      × (Alu.rr_value Alu.mulhu a b ≡ some (mul_stage m_variant_hu false a b))
      × (Alu.rr_value Alu.mulw a b ≡ some (mul_stage m_variant_n true a b))

  -- For 64-bit operands and each of the five multiplications: the part that the stage takes of the
  -- product that it asks the multiplier for, of operands that are signed or extended as it says, is the
  -- result that the architectural semantics of the instruction has.
  pub mul_stage_refines : (a b : ℕ) → a < 2 ^ 64 → b < 2 ^ 64 → MulAgrees a b
  unfolding Alu.rr_value mult_inputs mult_out lizard.CoreM.src1_signed lizard.CoreM.src2_signed
  mul_stage_refines a b ha hb =
      let sa : IsSigned 63 (signed 64 a) = signed-IsSigned 63 a ha in
      let sb : IsSigned 63 (signed 64 b) = signed-IsSigned 63 b hb in
      let x = p.slice a 0 32 in
      let y = p.slice b 0 32 in
      (
        ap some (
            low_product a b
            ∙ sym (wrap-signed a b ha hb)
            ∙ sym (low64 (signed 64 a *ℤ signed 64 b))),
        rw (p.to_int_law 64 a, p.to_int_law 64 b)
            (upper (signed 64 a *ℤ signed 64 b) (product-InRange _ _ sa sb)),
        rw (p.to_int_law 64 a) (upper (signed 64 a *ℤ pos b) (mixed-InRange _ b sa hb)),
        upper (pos (a * b)) (unsigned-InRange a b ha hb),
        ap (λ (w : ℕ). some (p.sext 32 64 w))
            (rw (p.to_int_law 32 x, p.to_int_law 32 y, p.trunc_law)
              (sym (
                low32 (signed 64 (p.sext 32 64 x) *ℤ signed 64 (p.sext 32 64 y))
                ∙ rw (signed-sext x (word-lt a), signed-sext y (word-lt b)) refl))),
      )
