-- ===== src/SequenceAllocator/Tests.antt =====
-- Four slots; the theorems at a full buffer that a branch empties but for its oldest two slots.
use lizard.Prelude.{◌^◌, ◌<◌, ◌≡◌, ◌≢◌, ◌↔◌, refl, arith, true, false, none, some, [], ◌∷◌, All}
use lizard.Prelude.{length}
use lizard.Pymtl.Standard.{standard}
use lizard.SequenceAllocator.{State, Calls, reset, allocate_rdy, free_rdy, step}
use lizard.SequenceAllocator.Queue.{queue_step}
use lizard.SequenceAllocator.Refine.{IsValid, IsAllowed, live, step-IsValid, step_refines}
use lizard.SequenceAllocator.Reach.{start, cycle, allocate_lem}

abbrev busy : State
busy = record { tail = 2; head = 3; num = 3 }

abbrev branch : Calls
branch = record { allocate = true; free = true; rollback = some 0 }

rolled : step 2 busy branch ≡ record { tail = 1; head = 0; num = 1 }
unfolding step
rolled = refl

busy-IsValid : IsValid 2 busy
busy-IsValid = omega arith

branch-IsAllowed : IsAllowed 2 busy branch
unfolding allocate_rdy free_rdy
branch-IsAllowed = record {
  allocates = λ _. refl;
  frees = λ _. refl;
  rolls_back = λ idx e. (1, omega arith, ground arith);
}

step-IsValid_example : IsValid 2 (step 2 busy branch)
step-IsValid_example = step-IsValid 2 (omega arith) busy branch busy-IsValid branch-IsAllowed

step_refines_example : live 2 (step 2 busy branch) ≡ queue_step 2 (3 ∷ 0 ∷ 1 ∷ []) branch
step_refines_example = step_refines 2 (omega arith) busy branch busy-IsValid branch-IsAllowed

abbrev issue : Calls
issue = record { allocate = true; free = false; rollback = none }

issue-IsAllowed : IsAllowed 2 reset issue
unfolding allocate_rdy free_rdy reset
issue-IsAllowed = record { allocates = λ _. refl; frees = λ e. cc; rolls_back = λ idx e. cc }

issued : State
issued = step 2 reset issue

allocate_lem_example :
    ((allocate_rdy 2 issued ≡ true) ↔ (length (live 2 issued) < 2 ^ 2))
    × (allocate_rdy 2 issued ≡ true → All (λ x. x ≢ issued.tail) (live 2 issued))
unfolding issued
allocate_lem_example = allocate_lem 2 (omega arith) (cycle start issue issue-IsAllowed)
