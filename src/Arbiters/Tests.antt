-- ===== src/Arbiters/Tests.antt =====
-- The arbiters on concrete requests, and the theorems at inputs that meet their hypotheses.
use lizard.Prelude.{ℕ, ◌≡◌, refl, arith, none, List, [], ◌∷◌}
use lizard.Pymtl.Standard.{standard}
use lizard.Arbiters.{round_robin_run, round_robin_fl_run, round_robin_grant, round_robin_mask}
use lizard.Arbiters.RoundRobin.{round_robin_run_refines}

abbrev requests : List ℕ
requests = 0b1011 ∷ 0b1011 ∷ 0b1011 ∷ 0b0001 ∷ 0 ∷ 0b1000 ∷ []

round_robin_run_test : round_robin_run 4 0 requests ≡ 1 ∷ 2 ∷ 8 ∷ 1 ∷ 0 ∷ 8 ∷ []
unfolding round_robin_run round_robin_grant round_robin_mask
round_robin_run_test = refl

round_robin_run_refines_example : round_robin_run 4 0 requests ≡ round_robin_fl_run 4 none requests
round_robin_run_refines_example = round_robin_run_refines 4 requests (omega arith)
