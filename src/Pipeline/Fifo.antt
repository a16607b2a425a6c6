-- ===== src/Pipeline/Fifo.antt =====
-- Stages over time, with the drop controller that drops nothing: no message is lost, doubled or
-- overtaken.
use lizard.Prelude.{suc, Bool, true, false, not, ◌&&◌, ◌||◌, ◌≡◌, ◌⊎◌, refl, sym, ap, ◌∙◌}
use lizard.Prelude.{if◌then◌else◌, Option, none, some, List, [], ◌∷◌, ◌++◌, length, inl, inr}
use mathlib.Core.List.{append_assoc, append-nil}
use lizard.Pipeline.{VvmState, null_check, output_rdy, output_clear, vvm_step, taking, stage_step}
use lizard.Pipeline.Register.{content}

-- A cycle of a stage: what `process` does in it, what the input shows, and whether the output is taken.
pub record StageCycle (In A : Type 0) : Type 0 where
  pub process : In → Bool × A
  pub input : Option In
  pub take_call : Bool

abbrev pub to_list : {A : Type 0} → Option A → List A
to_list none = []
to_list (some m) = m ∷ []

-- One cycle of the register: what leaves and what stays is what was there and what comes in.
cycle_cases :
    {A : Type 0} (val take_call : Bool) (out : A) (added : Option A)
    → (take_call ≡ true → val ≡ true)
    → ((added ≡ none) ⊎ ((not val || take_call) ≡ true))
    → let s : VvmState A = record { val = val; out = out } in
      to_list (if take_call then content s else none)
        ++ to_list (content (vvm_step null_check s take_call added))
      ≡ to_list (content s) ++ to_list added
unfolding content vvm_step output_clear output_rdy null_check
cycle_cases true true out none h k = refl
cycle_cases true true out (some m) h k = refl
cycle_cases true false out none h k = refl
cycle_cases true false out (some m) h (inl e) = absurd cc
cycle_cases true false out (some m) h (inr e) = absurd cc
cycle_cases false true out added h k = absurd (cc (h refl))
cycle_cases false false out none h k = refl
cycle_cases false false out (some m) h k = refl

-- What is not accepted, or a place that is clear.
refused :
    {A : Type 0} (val take_call ok : Bool) (out : A)
    → (◌≡◌ {A = Option A}
        (if (not (if val then true else false) || take_call) && ok then some out else none)
        none)
      ⊎ ((not val || take_call) ≡ true)
refused true true ok out = inr refl
refused true false ok out = inl refl
refused false take_call ok out = inr refl

module _ {In A : Type 0} where
  -- The message that leaves, and the one that comes in.
  unfoldable pub delivered : VvmState A → StageCycle In A → Option A
  unfolding content
  delivered s c = if c.take_call then content s else none

  unfoldable pub accepted : VvmState A → StageCycle In A → Option A
  unfolding taking
  accepted s c = taking null_check c.process s c.input c.take_call

  unfoldable pub next : VvmState A → StageCycle In A → VvmState A
  unfolding stage_step
  next s c = stage_step null_check c.process s c.input c.take_call

  clear_of :
      (s : VvmState A) (c : StageCycle In A)
      → (accepted s c ≡ none) ⊎ ((not s.val || c.take_call) ≡ true)
  unfolding accepted taking output_clear output_rdy null_check
  clear_of s c = clear_cases c.input
    where
      clear_cases :
          (input : Option In)
          → (taking null_check c.process s input c.take_call ≡ none)
            ⊎ ((not s.val || c.take_call) ≡ true)
      clear_cases none = inl refl
      clear_cases (some m) = refused s.val c.take_call (c.process m).0 (c.process m).1

  -- The calls keep to the interface: the output is taken only when it is ready.
  abbrev pub IsAllowed : VvmState A → List (StageCycle In A) → Type 0
  IsAllowed s [] = Unit
  IsAllowed s (c ∷ cs) = (c.take_call ≡ true → s.val ≡ true) × IsAllowed (next s c) cs

  pub stage_cycle :
      (s : VvmState A) (c : StageCycle In A)
      → (c.take_call ≡ true → s.val ≡ true)
      → to_list (delivered s c) ++ to_list (content (next s c))
        ≡ to_list (content s) ++ to_list (accepted s c)
  unfolding delivered next stage_step accepted
  stage_cycle s c h = cycle_cases s.val c.take_call s.out (accepted s c) h (clear_of s c)

  -- All messages that leave in a run, all that come in, and the state at the end.
  unfoldable pub all_delivered : VvmState A → List (StageCycle In A) → List A
  all_delivered s [] = []
  all_delivered s (c ∷ cs) = to_list (delivered s c) ++ all_delivered (next s c) cs

  unfoldable pub all_accepted : VvmState A → List (StageCycle In A) → List A
  all_accepted s [] = []
  all_accepted s (c ∷ cs) = to_list (accepted s c) ++ all_accepted (next s c) cs

  unfoldable pub final : VvmState A → List (StageCycle In A) → VvmState A
  final s [] = s
  final s (c ∷ cs) = final (next s c) cs

  -- A stage without a drop controller, over any run in which its output is taken only when it is
  -- ready: the messages that left, and then the one that is held at the end, are the one that was held at
  -- the start and then what `process` made of the messages that were taken from the input, in order,
  -- whenever the input stalls, `process` refuses or the output blocks.
  stage_fifo :
      (s : VvmState A) (cs : List (StageCycle In A))
      → IsAllowed s cs
      → all_delivered s cs ++ to_list (content (final s cs))
        ≡ to_list (content s) ++ all_accepted s cs
  unfolding all_delivered all_accepted final
  stage_fifo s [] h = sym (append-nil (to_list (content s)))
  stage_fifo s (c ∷ cs) (h, hs) =
      append_assoc (to_list (delivered s c)) _ _
      ∙ ap (λ (t : List A). to_list (delivered s c) ++ t) (stage_fifo (next s c) cs hs)
      ∙ sym (append_assoc (to_list (delivered s c)) _ _)
      ∙ ap (λ (t : List A). t ++ all_accepted (next s c) cs) (stage_cycle s c h)
      ∙ append_assoc (to_list (content s)) _ _

  eager_accepts :
      (s : VvmState A) (c : StageCycle In A) (m : In)
      → c.input ≡ some m
      → (c.process m).0 ≡ true
      → c.take_call ≡ s.val
      → accepted s c ≡ some (c.process m).1
  unfolding accepted taking output_clear output_rdy null_check
  eager_accepts s c m offered ok taken = rw (offered, taking, ok, taken) (clear s.val)
    where
      clear :
          (val : Bool)
          → ◌≡◌ {A = Option A}
              (if (not (if val then true else false) || val) && true
                then some (c.process m).1
                else none)
              (some (c.process m).1)
      clear true = refl
      clear false = refl

  -- The input offers a message that `process` accepts, and the output is taken whenever it is ready.
  abbrev pub IsEager : VvmState A → List (StageCycle In A) → Type 0
  IsEager s [] = Unit
  IsEager s (c ∷ cs) =
      ((m : In) × (c.input ≡ some m) × ((c.process m).0 ≡ true))
      × (c.take_call ≡ s.val)
      × IsEager (next s c) cs

  -- A stage does not slow the pipeline down: if the input offers a message that `process` accepts in
  -- every cycle, and the output is taken in every cycle in which it is ready, then the stage takes a
  -- message in every cycle.
  stage_throughput :
      (s : VvmState A) (cs : List (StageCycle In A))
      → IsEager s cs
      → length (all_accepted s cs) ≡ length cs
  unfolding all_accepted
  stage_throughput s [] h = refl
  stage_throughput s (c ∷ cs) ((m, offered, ok), taken, hs) =
      rw (eager_accepts s c m offered ok taken) (ap suc (stage_throughput (next s c) cs hs))
