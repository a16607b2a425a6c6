-- ===== src/FreeList/Tests.antt =====
-- Five slots; frees that bypass and a release that does not.
use lizard.Prelude.{ℕ, ◌<◌, ◌≡◌, refl, arith, true, false, not, ◌&&◌, ◌||◌, none, some, [], ◌∷◌}
use lizard.BitLaws.Digits.{bit}
use lizard.Pymtl.Standard.{standard}
use lizard.FreeList.Refine.{fl_cycle-step}
use lizard.FreeList.Grants.{slots, contains, AreFreshFrom}
use lizard.FreeList.Slots.{is_returned, step-slots}
use lizard.FreeList.{
  FreeCalls, alloc_inc_0, grants, reset_vector, step, fl_cycle, fl_grants, fl_before,
}

abbrev calls : FreeCalls
calls = record {
  frees = some 1 ∷ none ∷ [];
  release = some 0b10100;
  allocs = true ∷ false ∷ true ∷ [];
  set_state = none;
}

-- Slot 1 is handed out as soon as it is freed, then slot 3.
granted_test : slots (grants 5 (alloc_inc_0 5 true false 0b01000 calls) calls.allocs) ≡ 1 ∷ 3 ∷ []
unfolding grants alloc_inc_0
granted_test = refl

step_test : step 5 true false 0b01000 calls ≡ 0b10100
unfolding step
step_test = refl

reset_vector_test : reset_vector 2 5 ≡ 0b11100
unfolding reset_vector
reset_vector_test = refl

step-slots_example :
    let start = alloc_inc_0 5 true false 0b01000 calls in
    let handed_out = slots (grants 5 start calls.allocs) in
    AreFreshFrom 5 start 0 handed_out
    × ((i : ℕ) → i < 5 → bit start i ≡ (bit 0b01000 i || is_returned true false calls i))
    × ((i : ℕ)
        → i < 5
        → bit (step 5 true false 0b01000 calls) i ≡ (
            ((bit 0b01000 i || is_returned true false calls i) && not (contains i handed_out))
            || is_returned false true calls i))
step-slots_example = step-slots 5 true false 0b01000 calls (omega arith) (omega arith) refl

fl_cycle-step_example :
    (step 5 true false 0b01000 calls ≡ fl_cycle 5 true true false 0b01000 calls)
    × (grants 5 (alloc_inc_0 5 true false 0b01000 calls) calls.allocs
        ≡ fl_grants 5 (fl_before 5 true true false 0b01000 calls) calls.allocs)
fl_cycle-step_example =
    fl_cycle-step 5 true true false 0b01000 calls (omega arith) (omega arith, tt) (omega arith)
