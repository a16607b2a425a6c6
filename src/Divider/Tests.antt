-- ===== src/Divider/Tests.antt =====
-- A divider of eight bits, in four cycles of two iterations; -100 / 7, signed.
use mathlib.Core.Option
use lizard.Prelude.{some}
use lizard.Prelude.{◌+◌, ◌<◌, ◌≤◌, ◌≡◌, refl, arith, true, false, some}
use lizard.Bitutil.{clog2}
use lizard.Pymtl.{wrap}
use lizard.Pymtl.Standard.{standard}
use lizard.Semantics.Divide.{sane_divide, sane_rem}
use lizard.Divider.{DivArgs, DivState, step, result_rdy, result_quotient, result_rem}
use lizard.Divider.Clock.{idle_cycles}
use lizard.Divider.Signs.{operand}
use lizard.Divider.Refine.{start, divide_lem}

abbrev args : DivArgs
args = record { dividend = 156; divisor = 7; is_signed = true }

-- Registers of a division that is given up.
abbrev before : DivState
before = record {
  acc = 77;
  divisor = 3;
  dividend = 200;
  negate = true;
  negate_rem = false;
  counter = 2;
  busy = true;
}

ended : DivState
unfolding idle_cycles step
ended = idle_cycles 3 4 2 7 4 (step 8 3 4 2 before (start args false true))

-- -14 and -2
quotient_test : result_quotient 8 ended ≡ 242
unfolding ended result_quotient
quotient_test = refl

rem_test : result_rem 8 ended ≡ 254
unfolding ended result_rem
rem_test = refl

counter_width : clog2 (4 + 1) ≡ some 3
unfolding clog2
counter_width = refl

divide_lem_example :
    let t = idle_cycles 3 4 2 7 4 (step 8 3 4 2 before (start args false true)) in
    (4 < 4 → result_rdy t ≡ false)
    × (4 ≤ 4
        → (result_rdy t ≡ true)
          × (Option.map (wrap 8) (sane_divide (operand 8 true 156) (operand 8 true 7) 8)
              ≡ some (result_quotient 8 t))
          × (Option.map (wrap 8) (sane_rem (operand 8 true 156) (operand 8 true 7) 8)
              ≡ some (result_rem 8 t)))
divide_lem_example =
    divide_lem 7 4 2 3 args before false true 4 (omega arith) (omega arith) refl counter_width
