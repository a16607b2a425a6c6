-- ===== src/Multiplier/Fifo.antt =====
-- The stages over time: products leave in the order of the calls.
use lizard.Prelude.{ℕ, suc, ◌≤◌, Bool, true, false, not, ◌&&◌, ◌||◌}
use lizard.Prelude.{
  if◌then◌else◌, Option, none, some, List, [], ◌∷◌, ◌++◌, length, ◌≡◌, refl, sym, ap, ◌∙◌,
}
use mathlib.Core.List.{append_assoc, append-nil}
use lizard.Pymtl.{Pymtl}
use lizard.Multiplier.{Work, Stage, Source, before, stage_write, move}
use lizard.Multiplier.Stages.{
  source_value, IsFit, IsFit-stage_write, source_value-stage_write, last_write-source_value,
}

abbrev pub when : {A : Type 0} → Bool → A → List A
when b x = if b then x ∷ [] else []

module _ ⦃p : Pymtl⦄ (m k n : ℕ) (k≤m : k ≤ m) where
  -- What the registers from stage `i` on stand for, the one nearer to the output first.
  unfoldable pub held : ℕ → List Stage → Bool → ℕ → List ℕ
  held i [] valid val = when valid val
  held i (s ∷ rest) valid val =
      held (suc i) rest valid val ++ when s.valid (source_value m k n k≤m (suc i) (before s.work))

  -- What is handed to stage `i`.
  abbrev pub offered : ℕ → Option Source → List ℕ
  offered i none = []
  offered i (some source) = source_value m k n k≤m i source ∷ []

  abbrev pub AreFit : ℕ → List Stage → Type 0
  AreFit i [] = Unit
  AreFit i (s ∷ rest) =
      (s.valid ≡ true → IsFit m k n k≤m (suc i) (suc (length rest)) (before s.work))
      × AreFit (suc i) rest

  abbrev pub OfferFits : ℕ → ℕ → Option Source → Type 0
  OfferFits i r none = Unit
  OfferFits i r (some source) = IsFit m k n k≤m i r source

  last_cases :
      (i : ℕ) (input : Option Source) (valid : Bool) (val : ℕ) (take_call : Bool)
      → OfferFits i 1 input
      → (take_call ≡ true → valid ≡ true)
      → let r = move m k n i input [] valid val take_call in
        when take_call val ++ held i [] r.next.last_valid r.next.last_val
        ≡ held i [] valid val ++ (if r.rdy then offered i input else [])
  unfolding move held
  last_cases i none true val true fits h = refl
  last_cases i none true val false fits h = refl
  last_cases i none false val true fits h = absurd (cc (h refl))
  last_cases i none false val false fits h = refl
  last_cases i (some source) true val true fits h =
      ap (λ (v : ℕ). val ∷ v ∷ []) (last_write-source_value m k n k≤m i source fits)
  last_cases i (some source) true val false fits h = refl
  last_cases i (some source) false val true fits h = absurd (cc (h refl))
  last_cases i (some source) false val false fits h =
      ap (λ (v : ℕ). v ∷ []) (last_write-source_value m k n k≤m i source fits)

  -- The registers of stage `i` after a cycle, by whether the stage after it is ready.
  abbrev written : ℕ → Option Source → Stage → Bool → Stage
  written i input s ready =
      let exec : Option Source = if not s.valid || ready then input else none in
      record {
        valid = elim exec [ some source ↦ true | none ↦ not ready && s.valid ];
        work = elim exec [ some source ↦ stage_write m k n i source | none ↦ s.work ];
      }

  stays :
      (v : ℕ) (out rest : List ℕ) → out ≡ rest ++ [] → out ++ (v ∷ []) ≡ (rest ++ (v ∷ [])) ++ []
  stays v out rest e = ap (λ (l : List ℕ). l ++ (v ∷ [])) (e ∙ append-nil rest) ∙ sym (append-nil _)

  enters :
      (i r : ℕ) (source : Source) (out rest : List ℕ)
      → IsFit m k n k≤m i (suc (suc r)) source
      → out ≡ rest
      → out ++ (source_value m k n k≤m (suc i) (before (stage_write m k n i source)) ∷ [])
        ≡ rest ++ (source_value m k n k≤m i source ∷ [])
  enters i r source out rest fits e =
      ap
        (λ (l : List ℕ).
          l ++ (source_value m k n k≤m (suc i) (before (stage_write m k n i source)) ∷ []))
        e
      ∙ ap (λ (v : ℕ). rest ++ (v ∷ [])) (source_value-stage_write m k n k≤m i (suc r) source fits)

  stage_cases :
      (i r : ℕ) (input : Option Source) (valid : Bool) (work : Work) (ready : Bool)
      (out rest : List ℕ)
      → OfferFits i (suc (suc r)) input
      → let s : Stage = record { valid = valid; work = work } in
        let new = written i input s ready in
        out
          ≡ rest
            ++ (if ready then offered (suc i) (if valid then some (before work) else none) else [])
        → out ++ when new.valid (source_value m k n k≤m (suc i) (before new.work))
          ≡ (rest ++ when valid (source_value m k n k≤m (suc i) (before work)))
            ++ (if not valid || ready then offered i input else [])
  stage_cases i r none false work true out rest fits e = ap (λ (l : List ℕ). l ++ []) e
  stage_cases i r none false work false out rest fits e = ap (λ (l : List ℕ). l ++ []) e
  stage_cases i r none true work true out rest fits e = ap (λ (l : List ℕ). l ++ []) e
  stage_cases i r none true work false out rest fits e = stays _ out rest e
  stage_cases i r (some source) false work true out rest fits e = enters i r source out _ fits e
  stage_cases i r (some source) false work false out rest fits e = enters i r source out _ fits e
  stage_cases i r (some source) true work true out rest fits e = enters i r source out _ fits e
  stage_cases i r (some source) true work false out rest fits e = stays _ out rest e

  IsFit-cases :
      (i r : ℕ) (input : Option Source) (valid : Bool) (work : Work) (ready : Bool)
      → OfferFits i (suc (suc r)) input
      → let s : Stage = record { valid = valid; work = work } in
        let new = written i input s ready in
        (valid ≡ true → IsFit m k n k≤m (suc i) (suc r) (before work))
        → new.valid ≡ true
        → IsFit m k n k≤m (suc i) (suc r) (before new.work)
  IsFit-cases i r none false work true fits old e = absurd cc
  IsFit-cases i r none false work false fits old e = absurd cc
  IsFit-cases i r none true work true fits old e = absurd cc
  IsFit-cases i r none true work false fits old e = old refl
  IsFit-cases i r (some source) false work ready fits old e =
      IsFit-stage_write m k n k≤m i (suc r) source fits
  IsFit-cases i r (some source) true work true fits old e =
      IsFit-stage_write m k n k≤m i (suc r) source fits
  IsFit-cases i r (some source) true work false fits old e = old refl

  offer_fits :
      (i r : ℕ) (valid : Bool) (work : Work)
      → (valid ≡ true → IsFit m k n k≤m i r (before work))
      → OfferFits i r (if valid then some (before work) else none)
  offer_fits i r true work h = h refl
  offer_fits i r false work h = tt

  -- A cycle of the stages from `i` on.
  abbrev pub Cycle : ℕ → Option Source → List Stage → Bool → ℕ → Bool → Type 0
  Cycle i input stages valid val take_call =
      let r = move m k n i input stages valid val take_call in
      (when take_call val ++ held i r.next.stages r.next.last_valid r.next.last_val
        ≡ held i stages valid val ++ (if r.rdy then offered i input else []))
      × AreFit i r.next.stages
      × (length r.next.stages ≡ length stages)

  pub move-Cycle :
      (i : ℕ) (input : Option Source) (stages : List Stage) (valid : Bool) (val : ℕ)
      (take_call : Bool)
      → OfferFits i (suc (length stages)) input
      → AreFit i stages
      → (take_call ≡ true → valid ≡ true)
      → Cycle i input stages valid val take_call
  unfolding move held
  move-Cycle i input [] valid val take_call fits all h =
      (last_cases i input valid val take_call fits h, tt, refl)
  move-Cycle i input (s ∷ rest) valid val take_call fits (fit, all) h =
      let inner : Option Source = if s.valid then some (before s.work) else none in
      let later = move m k n (suc i) inner rest valid val take_call in
      let (sum, fits', size) =
        move-Cycle (suc i) inner rest valid val take_call
          (offer_fits (suc i) (suc (length rest)) s.valid s.work fit) all h in
      let out = when take_call val in
      let new = held (suc i) later.next.stages later.next.last_valid later.next.last_val in
      (
        sym (append_assoc out new _)
            ∙ stage_cases i (length rest) input s.valid s.work later.rdy (out ++ new)
                (held (suc i) rest valid val) fits sum,
        (rw size (IsFit-cases i (length rest) input s.valid s.work later.rdy fits fit), fits'),
        ap suc size,
      )
