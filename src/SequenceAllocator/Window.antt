-- ===== src/SequenceAllocator/Window.antt =====
-- The numbers from `head` on, counted modulo the size of the buffer.
use lizard.Prelude.{ℕ, zero, suc, ◌+◌, ◌-◌, ◌%◌, ◌≤◌, ◌<◌, ◌≡◌, ◌≢◌, refl, arith, ap, ◌∙◌, sym}
use lizard.Prelude.{List, [], ◌∷◌, ◌++◌, mod_below, mod_once, mod_step, ==_ne}
use native.Mathlib.Nat.{mod-lt, add-zero}
use lizard.SequenceAllocator.Queue.{keep_through, remove_oldest}

module _ (m : ℕ) where
  abbrev pub window : ℕ → ℕ → List ℕ
  window h zero = []
  window h (suc n) = h ∷ window ((h + 1) % m) n

  -- The place `k` after `h`.
  abbrev pub place : ℕ → ℕ → ℕ
  place h k = (h + k) % m

  pub place-zero : (h : ℕ) → h < m → place h 0 ≡ h
  place-zero h lt = ap (λ t. t % m) (add-zero h) ∙ mod_below h m lt

  pub place-suc : (h k : ℕ) → place (place h 1) k ≡ place h (suc k)
  place-suc h k = mod_step (h + 1) k m ∙ ap (λ t. t % m) (omega arith)

  pub place_next : (h k : ℕ) → place (place h k) 1 ≡ place h (suc k)
  place_next h k = mod_step (h + k) 1 m ∙ ap (λ t. t % m) (omega arith)

  -- Fewer than `m` steps do not come back to the start.
  pub place-ne : (h k : ℕ) → h < m → suc k < m → h ≢ place h (suc k)
  place-ne h k lt ltk e = ground (arith, mod_below (h + suc k) m, mod_once (h + suc k) m)

  pub window-suc : (n h : ℕ) → h < m → window h (suc n) ≡ window h n ++ place h n ∷ []
  window-suc zero h lt = ap (λ t. t ∷ []) (sym (place-zero h lt))
  window-suc (suc n) h lt =
      ap (λ t. h ∷ t)
        (window-suc n (place h 1) (mod-lt (h + 1) (omega arith))
          ∙ ap (λ t. window (place h 1) n ++ t ∷ []) (place-suc h n))

  pub keep_through-window :
      (j n h : ℕ) → h < m → j < n → n ≤ m → keep_through (place h j) (window h n) ≡ window h (suc j)
  keep_through-window j zero h lt ltj le = absurd (omega arith)
  keep_through-window zero (suc n) h lt ltj le = rw (place-zero h lt) (ground arith)
  keep_through-window (suc j) (suc n) h lt ltj le =
      rw (==_ne h (place h (suc j)) (place-ne h j lt (omega arith))) (
        ap (λ t. h ∷ t)
          (ap (λ t. keep_through t (window (place h 1) n)) (sym (place-suc h j))
            ∙ keep_through-window j n (place h 1) (mod-lt (h + 1) (omega arith)) (omega arith)
                (omega arith)))

  pub remove_oldest-window : (n h : ℕ) → remove_oldest (window h n) ≡ window (place h 1) (n - 1)
  remove_oldest-window zero h = refl
  remove_oldest-window (suc n) h = ap (window (place h 1)) (omega arith)
