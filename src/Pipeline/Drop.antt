-- ===== src/Pipeline/Drop.antt =====
-- The drop unit over time: for each call of `drop`, one message is dropped, and it is the next one.
use lizard.Prelude.{Bool, true, false, not, ◌&&◌, ◌||◌, ◌≡◌, refl}
use lizard.Prelude.{if◌then◌else◌, Option, none, some, List, [], ◌∷◌}
use lizard.Pipeline.{DropCalls, DropWires, handle_drop}

-- What a cycle shows to the outside, in order: whether `drop` is ready, whether it is called, and what
-- becomes of the message that the input shows, if it shows one. `wrong` is anything else: a message
-- that is neither dropped nor offered to the output, is taken without being delivered or delivered
-- without being taken, or a call of the input that shows none.
pub data Event (A : Type 0) : Type 0 where
  readiness : Bool → Event A
  asked : Event A
  dropped : A → Event A
  passed : A → Event A
  kept : A → Event A
  wrong : Event A

-- What becomes of the message that the input shows.
abbrev fate : {A : Type 0} → A → DropWires → Bool → Event A
fate m w output_call =
    if w.occurred
    then if w.input_call && not w.output_rdy then dropped m else wrong
    else if output_call
    then if w.input_call && w.output_rdy then passed m else wrong
    else if w.output_rdy && not w.input_call
    then kept m
    else wrong

-- The events of a cycle, before those of the later ones.
unfoldable pub events : {A : Type 0} → Bool → DropCalls A → List (Event A) → List (Event A)
unfolding handle_drop
events {A} pending c later =
    let w = handle_drop pending c in
    let used : List (Event A) = elim c.input [
      | some m ↦ fate m w c.output_call ∷ later
      | none ↦ if w.occurred || w.input_call || w.output_rdy then wrong ∷ later else later
    ] in
    readiness w.drop_rdy ∷ (if c.drop_call then asked ∷ used else used)

-- The events of a run of cycles.
unfoldable pub run : {A : Type 0} → Bool → List (DropCalls A) → List (Event A)
unfolding events handle_drop
run pending [] = []
run pending (c ∷ cs) = events pending c (run (handle_drop pending c).pending_next cs)

-- The calls keep to the interface: a method is called only when it is ready.
abbrev pub IsAllowed : {A : Type 0} → Bool → List (DropCalls A) → Type 0
IsAllowed pending [] = Unit
IsAllowed pending (c ∷ cs) =
    let w = handle_drop pending c in
    (c.drop_call ≡ true → w.drop_rdy ≡ true)
    × (c.output_call ≡ true → w.output_rdy ≡ true)
    × IsAllowed w.pending_next cs

-- The specification, by whether a call of `drop` waits: `drop` is ready exactly when none does; while
-- one waits, the next message that is shown is dropped; else a message that is shown passes or stays.
-- A last call may still wait if no message is shown after it.
pub data Answers {A : Type 0} : Bool → List (Event A) → Type 0 where
  end : (waits : Bool) → Answers waits []
  ready :
      (waits : Bool) {es : List (Event A)}
      → Answers waits es
      → Answers waits (readiness (not waits) ∷ es)
  ask : {es : List (Event A)} → Answers true es → Answers false (asked ∷ es)
  drop : (m : A) {es : List (Event A)} → Answers false es → Answers true (dropped m ∷ es)
  pass : (m : A) {es : List (Event A)} → Answers false es → Answers false (passed m ∷ es)
  keep : (m : A) {es : List (Event A)} → Answers false es → Answers false (kept m ∷ es)

module _ {A : Type 0} where
  -- One cycle, before the events of the others.
  drop_cycle :
      (pending drop_call output_call : Bool) (input : Option A) (later : List (Event A))
      → let c : DropCalls A = record {
        input = input;
        drop_call = drop_call;
        output_call = output_call;
      } in
        (drop_call ≡ true → (handle_drop pending c).drop_rdy ≡ true)
        → (output_call ≡ true → (handle_drop pending c).output_rdy ≡ true)
        → Answers (handle_drop pending c).pending_next later
        → Answers pending (events pending c later)
  unfolding handle_drop events
  drop_cycle true true output_call none later h ho a = absurd (cc (h refl))
  drop_cycle true true output_call (some m) later h ho a = absurd (cc (h refl))
  drop_cycle true false true none later h ho a = ready true a
  drop_cycle true false false none later h ho a = ready true a
  drop_cycle true false output_call (some m) later h ho a = ready true (drop m a)
  drop_cycle false true output_call none later h ho a = ready false (ask a)
  drop_cycle false true output_call (some m) later h ho a = ready false (ask (drop m a))
  drop_cycle false false true none later h ho a = absurd (cc (ho refl))
  drop_cycle false false false none later h ho a = ready false a
  drop_cycle false false true (some m) later h ho a = ready false (pass m a)
  drop_cycle false false false (some m) later h ho a = ready false (keep m a)

  -- Whatever the input and the output do, and as long as `drop` and `output` are called only when
  -- they are ready: `drop` is ready exactly when no earlier call waits; each call drops the very next
  -- message that the input shows, in that cycle or a later one, and takes it from the input without
  -- showing it to the output; and when no call waits, a message that is shown is offered to the
  -- output, which takes it exactly when it is called. No cycle loses, doubles or withholds a message.
  pub run-Answers :
      (pending : Bool) (cs : List (DropCalls A))
      → IsAllowed pending cs
      → Answers pending (run pending cs)
  unfolding run
  run-Answers pending [] h = end pending
  run-Answers pending (c ∷ cs) (h, ho, hs) =
      drop_cycle pending c.drop_call c.output_call c.input _ h ho
        (run-Answers (handle_drop pending c).pending_next cs hs)
