-- ===== src/CoreAlu/Compare.antt =====
-- The comparison of the ALU is that of the integers, unsigned or in two's complement.
use lizard.Prelude.{ℕ, ◌+◌, ◌%◌, ◌^◌, ◌<◌, ◌≡◌, refl, arith, true, false, ltb}
use lizard.Prelude.Int.{ltb_ℤ}
use lizard.BitLaws.Masks.{bit-div}
use lizard.Pymtl.{Pymtl}
use lizard.CoreAlu.{biased}

module _ ⦃p : Pymtl⦄ where
  pub biased_unsigned : (a : ℕ) → a < 2 ^ 64 → biased 64 true a ≡ a
  unfolding biased
  biased_unsigned a h =
      rw (biased, p.index_law a 63, bit-div a 63, p.concat_law 63, p.slice_law a 0 63)
        (ground arith)

  pub biased_signed : (a : ℕ) → a < 2 ^ 64 → biased 64 false a ≡ (a + 2 ^ 63) % 2 ^ 64
  unfolding biased
  biased_signed a h =
      rw (biased, p.index_law a 63, bit-div a 63, p.concat_law 63, p.slice_law a 0 63)
        (ground arith)

  pub ltb-biased_unsigned :
      (a b : ℕ) → a < 2 ^ 64 → b < 2 ^ 64 → ltb (biased 64 true a) (biased 64 true b) ≡ ltb a b
  ltb-biased_unsigned a b ha hb = rw (biased_unsigned a ha, biased_unsigned b hb) refl

  pub ltb-biased_signed :
      (a b : ℕ)
      → a < 2 ^ 64
      → b < 2 ^ 64
      → ltb (biased 64 false a) (biased 64 false b) ≡ ltb_ℤ (p.to_int 64 a) (p.to_int 64 b)
  ltb-biased_signed a b ha hb =
      rw (biased_signed a ha, biased_signed b hb, p.to_int_law 64 a, p.to_int_law 64 b)
        (ground arith)
