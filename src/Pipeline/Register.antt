-- ===== src/Pipeline/Register.antt =====
-- The register of a stage as a place for one message.
use lizard.Prelude.{
  Bool, true, false, not, ◌&&◌, ◌||◌, if◌then◌else◌, Option, none, some, ◌≡◌, refl, ap,
}
use lizard.Pipeline.{Check, VvmState, output_rdy, output_clear, dropping_out, peek_msg, vvm_step}

-- The message that is held, if any.
unfoldable pub content : {A : Type 0} → VvmState A → Option A
content s = if s.val then some s.out else none

-- What becomes of a held message when it is checked.
unfoldable pub survivor : {A : Type 0} → (A → Check A) → Option A → Option A
survivor check none = none
survivor check (some m) = if (check m).keep then some (check m).out else none

-- A cycle of the place: the message is checked, then taken, then another put in.
unfoldable pub place_step : {A : Type 0} → (A → Check A) → Option A → Bool → Option A → Option A
unfolding survivor
place_step check held take_call none = if take_call then none else survivor check held
place_step check held take_call (some msg) = some msg

abbrev pub is_there : {A : Type 0} → Option A → Bool
is_there none = false
is_there (some m) = true

held :
    {A : Type 0} (keep take_call : Bool) (m : A)
    → content (record { val = not (not keep || take_call); out = m })
      ≡ (if take_call then none else if keep then some m else none)
unfolding content
held true true m = refl
held true false m = refl
held false true m = refl
held false false m = refl

there : {A : Type 0} (keep : Bool) (m : A) → keep ≡ is_there (if keep then some m else none)
there true m = refl
there false m = refl

kept : {A : Type 0} (keep : Bool) (m : A) → keep ≡ true → (if keep then some m else none) ≡ some m
kept keep m e = rw e refl

module _ {A : Type 0} (check : A → Check A) where
  -- What the register does, by the place for a message.
  abbrev pub Refines : VvmState A → Bool → Option A → Type 0
  Refines s take_call added =
      (content (vvm_step check s take_call added) ≡ place_step check (content s) take_call added)
      × (output_rdy check s ≡ is_there (survivor check (content s)))
      × (dropping_out check s
          ≡ (is_there (content s) && not (is_there (survivor check (content s)))))
      × (output_rdy check s ≡ true → survivor check (content s) ≡ some (peek_msg check s))
      × (output_clear check s take_call
          ≡ (not (is_there (survivor check (content s))) || take_call))

  vvm_cases :
      (val take_call : Bool) (out : A) (added : Option A)
      → Refines (record { val = val; out = out }) take_call added
  unfolding content vvm_step place_step output_rdy dropping_out peek_msg output_clear survivor
  vvm_cases true take_call out none =
      let c = check out in
      (
        held c.keep take_call c.out,
        there c.keep c.out,
        ap not (there c.keep c.out),
        kept c.keep c.out,
        ap (λ (b : Bool). not b || take_call) (there c.keep c.out),
      )
  vvm_cases true take_call out (some m) =
      let c = check out in
      (
        refl,
        there c.keep c.out,
        ap not (there c.keep c.out),
        kept c.keep c.out,
        ap (λ (b : Bool). not b || take_call) (there c.keep c.out),
      )
  vvm_cases false true out none = (refl, refl, refl, λ e. absurd cc, refl)
  vvm_cases false false out none = (refl, refl, refl, λ e. absurd cc, refl)
  vvm_cases false take_call out (some m) = (refl, refl, refl, λ e. absurd cc, refl)

  -- The register of a stage is a place for one message. In a cycle the message is checked, so that it
  -- goes on as the check says or is dropped, then it leaves if it is taken, then one that is added
  -- comes in. What is shown is ready exactly when a message is left after the check, and is that
  -- message; dropping is signalled exactly when the check drops one; and the place is clear for
  -- another exactly when none is left or it is taken.
  pub vvm_step-place_step :
      (s : VvmState A) (take_call : Bool) (added : Option A) → Refines s take_call added
  vvm_step-place_step s take_call added = vvm_cases s.val take_call s.out added
