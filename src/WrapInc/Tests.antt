-- ===== src/WrapInc/Tests.antt =====
-- Three slots counted in two bits, round the end.
use lizard.Prelude.{◌+◌, ◌*◌, ◌%◌, ◌≡◌, refl, arith, true, false, some, none}
use lizard.Pymtl.Standard.{standard}
use lizard.WrapInc.{inc, inc_var}
use lizard.WrapInc.Laws.{inc_var_lem}

wraps : inc_var 2 3 true 3 2 2 ≡ some 1
unfolding inc_var inc
wraps = refl

past_the_units : inc_var 2 3 true 2 1 3 ≡ none
unfolding inc_var inc
past_the_units = refl

inc_var_lem_example : inc_var 2 3 false 3 1 2 ≡ some ((1 + 2 * 2) % 3)
inc_var_lem_example = inc_var_lem 2 3 (omega arith) false 3 2 1 (omega arith) (omega arith)
