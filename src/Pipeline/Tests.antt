-- ===== src/Pipeline/Tests.antt =====
-- Stages that stall, kills, and a drop that waits for a message.
use lizard.Prelude.{ℕ, suc, ◌+◌, ◌<◌, Bool, true, false, not, ◌&&◌, ◌≡◌, ◌↔◌, refl, arith}
use lizard.Prelude.{none, some, List, [], ◌∷◌, ◌++◌, map}
use lizard.BitLaws.Digits.{bit}
use lizard.Pymtl.Standard.{standard}
use lizard.Pipeline.{Check, VvmState, vvm_step, KillMsg, kill_check, DropCalls, handle_drop}
use lizard.Pipeline.Register.{content, Refines, vvm_step-place_step}
use lizard.Pipeline.Kill.{IsKilled, kill_check_lem}
use lizard.Pipeline.Fifo.{
  StageCycle, to_list, next, all_delivered, all_accepted, final, IsAllowed, IsEager,
}
use lizard.Pipeline.Chain.{
  ChainCycle, second, first_of, chain_delivered, chain_accepted, chain_held, chain_fifo,
}
use lizard.Pipeline.Drop.{readiness, asked, dropped, passed, kept, run, Answers, run-Answers}

abbrev empty : VvmState ℕ
empty = record { val = false; out = 0 }

abbrev twice : ℕ → Bool × ℕ
twice n = (true, n + n)

-- Takes 3; holds it while the output blocks; delivers it and takes 4.
abbrev cycles : List (StageCycle ℕ ℕ)
cycles =
    record { process = twice; input = some 3; take_call = false }
    ∷ record { process = twice; input = some 4; take_call = false }
    ∷ record { process = twice; input = some 4; take_call = true }
    ∷ []

delivered_test : all_delivered empty cycles ≡ 6 ∷ []
unfolding all_delivered lizard.Pipeline.Fifo.delivered next lizard.Pipeline.null_check
delivered_test = refl

cycles-IsAllowed : IsAllowed empty cycles
unfolding next lizard.Pipeline.null_check
cycles-IsAllowed = (λ e. absurd cc, (λ e. absurd cc, (λ e. refl, tt)))

abbrev eager_cycles : List (StageCycle ℕ ℕ)
eager_cycles =
    record { process = twice; input = some 3; take_call = false }
    ∷ record { process = twice; input = some 4; take_call = true }
    ∷ []

eager : IsEager empty eager_cycles
unfolding next lizard.Pipeline.null_check
eager = ((3, refl, refl), refl, ((4, refl, refl), refl, tt))

-- The second stage refuses in the second cycle, so the first holds its message.
abbrev chain_cycles : List (ChainCycle ℕ ℕ)
chain_cycles =
    record { first = twice; input = some 3; second_accepts = true; take_call = false }
    ∷ record { first = twice; input = some 4; second_accepts = false; take_call = false }
    ∷ record { first = twice; input = some 4; second_accepts = true; take_call = false }
    ∷ record { first = twice; input = none; second_accepts = true; take_call = true }
    ∷ []

chain_test : chain_delivered suc empty empty chain_cycles ≡ 7 ∷ []
unfolding chain_delivered lizard.Pipeline.Fifo.delivered second next first_of
    lizard.Pipeline.null_check
chain_test = refl

chain-IsAllowed : lizard.Pipeline.Chain.IsAllowed suc empty empty chain_cycles
unfolding next second first_of lizard.Pipeline.null_check
chain-IsAllowed = (λ e. absurd cc, (λ e. absurd cc, (λ e. absurd cc, (λ e. refl, tt))))

chain_fifo_example :
    chain_delivered suc empty empty chain_cycles ++ chain_held suc empty empty chain_cycles
    ≡ (to_list (content empty) ++ map suc (to_list (content empty)))
      ++ map suc (chain_accepted suc empty empty chain_cycles)
chain_fifo_example = chain_fifo suc empty empty chain_cycles chain-IsAllowed

abbrev branch_killed : KillMsg
branch_killed = record { force = false; kill_mask = 0b0010; clear_mask = 0b0100 }

kill_check_test : kill_check 4 branch_killed 0b1100 ≡ record { keep = true; out = 0b1000 }
unfolding kill_check
kill_check_test = refl

kill_check_lem_example :
    let c = kill_check 4 branch_killed 0b1100 in
    ((c.keep ≡ true) ↔ ((false ≡ false) × ¬ IsKilled 4 0b1100 branch_killed))
    × ((i : ℕ) → i < 4 → bit c.out i ≡ (bit 0b1100 i && not (bit 0b0100 i)))
kill_check_lem_example =
    kill_check_lem 4 branch_killed 0b1100 (omega arith) (omega arith) (omega arith)

abbrev holding : VvmState ℕ
holding = record { val = true; out = 0b1100 }

vvm_step-place_step_example : Refines (kill_check 4 branch_killed) holding true (some 0b0001)
vvm_step-place_step_example =
    vvm_step-place_step (kill_check 4 branch_killed) holding true (some 0b0001)

-- The drop is asked for when no message is there; the next message is dropped, the one after waits
-- for the output and passes.
abbrev drop_cycles : List (DropCalls ℕ)
drop_cycles =
    record { input = none; drop_call = true; output_call = false }
    ∷ record { input = some 7; drop_call = false; output_call = false }
    ∷ record { input = some 8; drop_call = false; output_call = false }
    ∷ record { input = some 8; drop_call = false; output_call = true }
    ∷ []

run_test :
    run false drop_cycles
    ≡ readiness true
      ∷ asked
      ∷ readiness false
      ∷ dropped 7
      ∷ readiness true
      ∷ kept 8
      ∷ readiness true
      ∷ passed 8
      ∷ []
unfolding run
run_test = refl

drop_cycles-IsAllowed : lizard.Pipeline.Drop.IsAllowed false drop_cycles
unfolding handle_drop
drop_cycles-IsAllowed = (
  λ e. refl,
  λ e. absurd cc,
  (
    λ e. absurd cc,
    λ e. absurd cc,
    (λ e. absurd cc, λ e. absurd cc, (λ e. absurd cc, λ e. refl, tt)),
  ),
)

run-Answers_example : Answers false (run false drop_cycles)
run-Answers_example = run-Answers false drop_cycles drop_cycles-IsAllowed
