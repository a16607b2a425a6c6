-- ===== src/CoreM.antt =====
-- The multiplication and division stages of lizard/core/rtl/backend/multiply.py and
-- lizard/core/rtl/backend/divide.py: what they hand to the multiplier and the divider, and the result
-- that they make of what these give.
pub mod Words
pub mod Multiply
pub mod Divide
mod Tests
use lizard.Prelude.{ℕ, ◌*◌, Bool, true, false, not, ◌&&◌, ◌||◌, if◌then◌else◌}
use lizard.Pymtl.{Pymtl}
use lizard.Semantics.Alu.{xlen}
use lizard.Multiplier.{MulArgs}
use lizard.Divider.{DivArgs, DivState, result_quotient, result_rem}

-- `MFunc` and `MVariant` of messages.py, and `MMsg`
pub data MFunc : Type 0 where
  m_func_mul m_func_div m_func_rem : MFunc

pub data MVariant : Type 0 where
  m_variant_n m_variant_h m_variant_hsu m_variant_hu m_variant_u : MVariant

pub record MMsg : Type 0 where
  pub func : MFunc
  pub variant : MVariant
  pub op32 : Bool

-- The tests of a variant in `set_inputs` and `compute_out`.
unfoldable pub src1_signed : MVariant → Bool
src1_signed m_variant_u = false
src1_signed m_variant_hu = false
src1_signed variant = true

unfoldable pub src2_signed : MVariant → Bool
src2_signed m_variant_n = true
src2_signed m_variant_h = true
src2_signed variant = false

unfoldable pub is_low : MVariant → Bool
is_low m_variant_n = true
is_low m_variant_u = true
is_low variant = false

-- `variant == M_VARIANT_N`
unfoldable pub is_n : MVariant → Bool
is_n m_variant_n = true
is_n variant = false

unfoldable pub is_rem : MFunc → Bool
is_rem m_func_rem = true
is_rem func = false

module _ ⦃p : Pymtl⦄ where
  -- `set_inputs` of `MultInternal`, with `a` and `b` the values of `rs1` and `rs2`
  unfoldable pub mult_inputs : MMsg → ℕ → ℕ → MulArgs
  unfolding src1_signed src2_signed
  mult_inputs msg a b = record {
    src1 = if msg.op32 then p.sext 32 xlen (p.slice a 0 32) else a;
    src2 = if msg.op32 then p.sext 32 xlen (p.slice b 0 32) else b;
    src1_signed = src1_signed msg.variant;
    src2_signed = src2_signed msg.variant;
  }

  -- `compute_out` of `MultOutputPipelineAdapter`, for the product `internal_out`
  unfoldable pub mult_out : MMsg → ℕ → ℕ
  unfolding is_low
  mult_out msg internal_out =
      if msg.op32
      then p.sext 32 xlen (p.slice internal_out 0 32)
      else if is_low msg.variant
      then p.slice internal_out 0 xlen
      else p.slice internal_out xlen (2 * xlen)

  -- `handle_add` of `Div`
  unfoldable pub div_inputs : MMsg → ℕ → ℕ → DivArgs
  unfolding is_n
  div_inputs msg rs1 rs2 =
      let rs1_32 = p.slice rs1 0 32 in
      let rs2_32 = p.slice rs2 0 32 in
      let is_signed = is_n msg.variant in
      record {
        dividend = if msg.op32 then (if is_signed then p.sext 32 xlen rs1_32 else rs1_32) else rs1;
        divisor = if msg.op32 then (if is_signed then p.sext 32 xlen rs2_32 else rs2_32) else rs2;
        is_signed = is_signed;
      }

  -- `handle_output_msg`, from the results that the divider shows
  unfoldable pub div_out : MMsg → DivState → ℕ
  unfolding is_rem
  div_out msg s =
      let result = if is_rem msg.func then result_rem xlen s else result_quotient xlen s in
      if msg.op32 then p.sext 32 xlen (p.slice result 0 32) else result
