-- ===== src/Pipeline/Chain.antt =====
-- Two stages in a row: the second takes from the first what the first shows.
use lizard.Prelude.{Bool, true, false, ◌&&◌, ◌≡◌, refl, sym, ap, ◌∙◌}
use lizard.Prelude.{if◌then◌else◌, Option, none, some, List, [], ◌∷◌, ◌++◌, map}
use mathlib.Core.List.{append_assoc, append-nil, map-append}
use lizard.Pipeline.{VvmState, taking, null_check, output_clear}
use lizard.Pipeline.Register.{content}
use lizard.Pipeline.Fifo.{StageCycle, to_list, delivered, accepted, next, stage_cycle}

-- A cycle of the pair: what the first stage's `process` does, what its input shows, whether the second
-- stage's `process` accepts, and whether the output of the second is taken.
pub record ChainCycle (In A : Type 0) : Type 0 where
  pub first : In → Bool × A
  pub input : Option In
  pub second_accepts : Bool
  pub take_call : Bool

module _ {In A B : Type 0} (process : A → B) where
  -- The second stage sees the message that the first one holds.
  unfoldable pub second : VvmState A → ChainCycle In A → StageCycle A B
  unfolding content
  second s c = record {
    process = λ m. (c.second_accepts, process m);
    input = content s;
    take_call = c.take_call;
  }

  -- The first stage is taken from when the second takes.
  unfoldable pub first_of : VvmState A → VvmState B → ChainCycle In A → StageCycle In A
  unfolding second accepted
  first_of s t c = record {
    process = c.first;
    input = c.input;
    take_call = elim (accepted t (second s c)) [ some m ↦ true | none ↦ false ];
  }

  -- What the second stage takes is what leaves the first, processed.
  handed_over :
      (s : VvmState A) (t : VvmState B) (c : ChainCycle In A)
      → (to_list (accepted t (second s c)) ≡ map process (to_list (delivered s (first_of s t c))))
        × ((first_of s t c).take_call ≡ true → s.val ≡ true)
  unfolding first_of second delivered accepted taking content
  handed_over s t c = shown_cases s.val
    where
      took : Bool → Option B
      took ok = if ok then some (process s.out) else none

      is_taken : Option B → Bool
      is_taken o = elim o [ some m ↦ true | none ↦ false ]

      ok_cases :
          (ok : Bool)
          → (to_list (took ok)
              ≡ map process (to_list (if is_taken (took ok) then some s.out else none)))
            × (is_taken (took ok) ≡ true → true ≡ true)
      ok_cases true = (refl, λ e. refl)
      ok_cases false = (refl, λ e. refl)

      shown_cases :
          (val : Bool)
          → let o =
              taking null_check
                (λ m. (c.second_accepts, process m))
                t
                (if val then some s.out else none)
                c.take_call in
            (to_list o
              ≡ map process
                  (to_list (if is_taken o then if val then some s.out else none else none)))
            × (is_taken o ≡ true → val ≡ true)
      shown_cases true = ok_cases (output_clear null_check t c.take_call && c.second_accepts)
      shown_cases false = (refl, λ e. absurd cc)

  -- All messages that leave the pair in a run, and all that come in.
  unfoldable pub chain_delivered : VvmState A → VvmState B → List (ChainCycle In A) → List B
  chain_delivered s t [] = []
  chain_delivered s t (c ∷ cs) =
      to_list (delivered t (second s c))
      ++ chain_delivered (next s (first_of s t c)) (next t (second s c)) cs

  unfoldable pub chain_accepted : VvmState A → VvmState B → List (ChainCycle In A) → List A
  chain_accepted s t [] = []
  chain_accepted s t (c ∷ cs) =
      to_list (accepted s (first_of s t c))
      ++ chain_accepted (next s (first_of s t c)) (next t (second s c)) cs

  -- The messages that are held at the end, the one nearer to the output first.
  unfoldable pub chain_held : VvmState A → VvmState B → List (ChainCycle In A) → List B
  chain_held s t [] = to_list (content t) ++ map process (to_list (content s))
  chain_held s t (c ∷ cs) = chain_held (next s (first_of s t c)) (next t (second s c)) cs

  -- The output is taken only when it is ready.
  abbrev pub IsAllowed : VvmState A → VvmState B → List (ChainCycle In A) → Type 0
  IsAllowed s t [] = Unit
  IsAllowed s t (c ∷ cs) =
      (c.take_call ≡ true → t.val ≡ true)
      × IsAllowed (next s (first_of s t c)) (next t (second s c)) cs

  chain_cycle :
      (s : VvmState A) (t : VvmState B) (c : ChainCycle In A)
      → (c.take_call ≡ true → t.val ≡ true)
      → to_list (delivered t (second s c))
          ++ (to_list (content (next t (second s c)))
              ++ map process (to_list (content (next s (first_of s t c)))))
        ≡ (to_list (content t) ++ map process (to_list (content s)))
          ++ map process (to_list (accepted s (first_of s t c)))
  unfolding second
  chain_cycle s t c h =
      let (moved, allowed) = handed_over s t c in
      let outer = stage_cycle t (second s c) h in
      let inner = stage_cycle s (first_of s t c) allowed in
      let held = map process (to_list (content (next s (first_of s t c)))) in
      sym (append_assoc (to_list (delivered t (second s c))) _ _)
      ∙ ap (λ (l : List B). l ++ held) (outer ∙ ap (λ (l : List B). to_list (content t) ++ l) moved)
      ∙ append_assoc (to_list (content t)) _ _
      ∙ ap (λ (l : List B). to_list (content t) ++ l)
          (sym (map-append process (to_list (delivered s (first_of s t c))) _)
            ∙ ap (map process) inner
            ∙ map-append process (to_list (content s)) _)
      ∙ sym (append_assoc (to_list (content t)) _ _)

  -- Two stages in a row, over any run in which the output of the second is taken only when it is ready:
  -- the messages that left, and then those that are held at the end, are those that were held at the
  -- start and then those that the first stage took in, each processed once by the second stage and in
  -- order; so the handshake between the stages loses and doubles none, whichever stage stalls.
  pub chain_fifo :
      (s : VvmState A) (t : VvmState B) (cs : List (ChainCycle In A))
      → IsAllowed s t cs
      → chain_delivered s t cs ++ chain_held s t cs
        ≡ (to_list (content t) ++ map process (to_list (content s)))
          ++ map process (chain_accepted s t cs)
  unfolding chain_delivered chain_accepted chain_held
  chain_fifo s t [] h = sym (append-nil _)
  chain_fifo s t (c ∷ cs) (h, hs) =
      let s' = next s (first_of s t c) in
      let t' = next t (second s c) in
      let later = map process (chain_accepted s' t' cs) in
      append_assoc (to_list (delivered t (second s c))) _ _
      ∙ ap (λ (l : List B). to_list (delivered t (second s c)) ++ l) (chain_fifo s' t' cs hs)
      ∙ sym (append_assoc (to_list (delivered t (second s c))) _ _)
      ∙ ap (λ (l : List B). l ++ later) (chain_cycle s t c h)
      ∙ append_assoc (to_list (content t) ++ map process (to_list (content s))) _ _
      ∙ ap (λ (l : List B). (to_list (content t) ++ map process (to_list (content s))) ++ l)
          (sym (map-append process (to_list (accepted s (first_of s t c))) _))
