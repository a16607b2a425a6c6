-- ===== src/CoreM/Tests.antt =====
-- A negative factor, and the quotient that overflows.
use lizard.Prelude.{◌-◌, ◌^◌, ◌≡◌, refl, arith, true, false}
use lizard.Pymtl.Standard.{standard}
use lizard.Divider.{DivState}
use lizard.CoreM.{m_func_div, m_variant_n, m_variant_h, div_out, mult_inputs, mult_out}
use lizard.CoreM.Multiply.{MulAgrees, mul_stage, mul_stage_refines}
use lizard.CoreM.Divide.{DivAgrees, div_stage_refines}

-- -3 times 5: the upper word is all ones.
mul_test : mul_stage m_variant_h false (2 ^ 64 - 3) 5 ≡ 2 ^ 64 - 1
unfolding mult_inputs mult_out lizard.CoreM.src1_signed lizard.CoreM.src2_signed
mul_test = refl

mul_stage_refines_example : MulAgrees (2 ^ 64 - 3) 5
mul_stage_refines_example = mul_stage_refines (2 ^ 64 - 3) 5 (omega arith) (omega arith)

abbrev any_state : DivState
any_state = record {
  acc = 7;
  divisor = 3;
  dividend = 9;
  negate = true;
  negate_rem = false;
  counter = 4;
  busy = true;
}

div_stage_refines_example : DivAgrees (2 ^ 63) (2 ^ 64 - 1) any_state 40
div_stage_refines_example =
    div_stage_refines (2 ^ 63) (2 ^ 64 - 1) any_state 40 (omega arith) (omega arith) (omega arith)
