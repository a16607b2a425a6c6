-- ===== src/Arbiters/Mask.antt =====
-- `ThermometerMask`.
use lizard.Prelude.{ℕ, ◌+◌, ◌-◌, ◌^◌, ◌<◌, ◌≡◌, arith}
use native.Mathlib.Decide.{ℕ_discrete}
use lizard.Prelude.{==_ne}
use lizard.BitLaws.Masks.{two_pow_pos, bit_or-zero, zero-bit_xor, pred_mod, minus_one}
use lizard.Pymtl.{Pymtl}
use lizard.Arbiters.{mask, fl_grant}
use lizard.Arbiters.Lowest.{thermometer}

module _ ⦃p : Pymtl⦄ where
  -- A non-zero input of `width` bits gives the ones from its lowest set bit up: the mask and the
  -- bit that `fl_grant` finds add up to `2 ^ width`.
  pub mask_lem :
      (width in_ : ℕ) → 0 < in_ → in_ < 2 ^ width → mask width in_ + fl_grant width in_ ≡ 2 ^ width
  unfolding mask fl_grant
  mask_lem width in_ pos h = elim (ℕ_discrete in_ 0) [
    | yes e ↦ absurd (omega arith)
    | no ne ↦
        rw
          (
            ==_ne in_ 0 ne,
            mask,
            p.bor_law,
            p.inv_law,
            p.bxor_law,
            p.sub_law,
            pred_mod width in_ pos h,
          )
          (thermometer width in_ pos h)
  ]

  -- Zero gives all ones.
  pub mask-zero : (width : ℕ) → mask width 0 ≡ 2 ^ width - 1
  unfolding mask
  mask-zero width =
      rw
        (
          p.bor_law,
          p.bxor_law,
          p.sub_law,
          minus_one width,
          zero-bit_xor width (2 ^ width - 1) below,
        )
        (bit_or-zero width (2 ^ width - 1) below)
    where
      below : 2 ^ width - 1 < 2 ^ width
      below = omega (arith, two_pow_pos width)
