-- ===== src/Semantics/Alu/Product.antt =====
-- The two halves of a product.
use mathlib.Core.Option
use lizard.Prelude.{ℕ, ◌+◌, ◌*◌, ◌/◌, ◌%◌, ◌^◌, ◌<◌, ◌≡◌, ap, ◌∙◌, arith, some}
use lizard.Prelude.Int.{pos}
use lizard.Pymtl.{Pymtl}
use lizard.Semantics.Alu
use lizard.Semantics.Alu.Range.{unsigned-InRange}

module _ ⦃p : Pymtl⦄ where
  -- On 64-bit operands, `mul` and `mulhu` give the low and the high 64 bits of the unsigned
  -- product.
  mul-mulhu :
      (a b : ℕ)
      → a < 2 ^ 64
      → b < 2 ^ 64
      → (lo : ℕ) × (hi : ℕ) × (Alu.rr_value Alu.mul a b ≡ some lo)
        × (Alu.rr_value Alu.mulhu a b ≡ some hi)
        × (lo < 2 ^ 64)
        × (hi * 2 ^ 64 + lo ≡ a * b)
  unfolding Alu.rr_value
  mul-mulhu a b ha hb =
      let small : a * b < 2 ^ 128 = unsigned-InRange a b ha hb in
      let wide : p.construct 128 (pos (a * b)) ≡ some (a * b % 2 ^ 128) =
        p.construct_law 128 (pos (a * b)) small in
      let low : p.trunc 64 (pos (p.mul 64 a b)) ≡ a * b % 2 ^ 128 % 2 ^ 64 =
        p.trunc_law 64 (pos (p.mul 64 a b)) ∙ ap (λ x. x % 2 ^ 64) (p.mul_law 64 a b) in
      (
        a * b % 2 ^ 64,
        a * b / 2 ^ 64,
        ap some (omega (arith, low)),
        ap (Option.map (λ wide. p.slice wide 64 128)) wide
            ∙ ap some (omega (arith, p.slice_law (a * b % 2 ^ 128) 64 128, small)),
        omega arith,
        omega arith,
      )
