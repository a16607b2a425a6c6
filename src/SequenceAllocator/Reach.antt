-- ===== src/SequenceAllocator/Reach.antt =====
-- What holds after any sequence of allowed cycles from reset.
use lizard.Prelude.{ℕ, zero, suc, ◌+◌, ◌%◌, ◌^◌, ◌≤◌, ◌<◌, ◌≡◌, ◌≢◌, ◌↔◌, refl, arith, ap}
use lizard.Prelude.{true, length, All}
use mathlib.Core.Path.{subst}
use native.Mathlib.Nat.{mod-lt}
use lizard.Pymtl.{Pymtl}
use lizard.SequenceAllocator.{State, Calls, reset, allocate_rdy, step}
use lizard.SequenceAllocator.Window.{window, place, place-suc, place-ne}
use lizard.SequenceAllocator.Refine.{IsValid, IsAllowed, live, reset-IsValid, step-IsValid}

module _ ⦃p : Pymtl⦄ (nbits : ℕ) where
  pub data Reach : State → Type 0 where
    start : Reach reset
    cycle : {s : State} → Reach s → (c : Calls) → IsAllowed nbits s c → Reach (step nbits s c)

  -- Every reachable state is valid.
  pub Reach-IsValid : {s : State} → 0 < nbits → Reach s → IsValid nbits s
  Reach-IsValid pos start = reset-IsValid nbits
  Reach-IsValid pos (cycle r c ok) = step-IsValid nbits pos _ c (Reach-IsValid pos r) ok

window-ne : (m n h k : ℕ) → h < m → n ≤ k → k < m → All (λ x. x ≢ place m h k) (window m h n)
window-ne m zero h k lt le below = tt
window-ne m (suc n) h zero lt le below = absurd (omega arith)
window-ne m (suc n) h (suc k) lt le below = (
  place-ne m h k lt below,
  subst (λ t. All (λ x. x ≢ t) (window m (place m h 1) n)) (place-suc m h k)
      (window-ne m n (place m h 1) k (mod-lt (h + 1) (omega arith)) (omega arith) (omega arith)),
)

length-window : (m n h : ℕ) → length (window m h n) ≡ n
length-window m zero h = refl
length-window m (suc n) h = ap suc (length-window m n ((h + 1) % m))

module _ ⦃p : Pymtl⦄ (nbits : ℕ) (pos : 0 < nbits) {s : State} (r : Reach nbits s) where
  -- With at least one index bit, in every state that allowed cycles reach from reset, an allocation
  -- is ready exactly when fewer numbers are live than there are slots, and then the number that it
  -- hands out is not live.
  pub allocate_lem :
      ((allocate_rdy nbits s ≡ true) ↔ (length (live nbits s) < 2 ^ nbits))
      × (allocate_rdy nbits s ≡ true → All (λ x. x ≢ s.tail) (live nbits s))
  unfolding allocate_rdy
  allocate_lem =
      let v = Reach-IsValid nbits pos r in
      (
        ground (arith, v.num_in, length-window (2 ^ nbits) s.num s.head),
        λ ready. rw v.tail_at (
            window-ne (2 ^ nbits) s.num s.head s.num v.head_in (omega arith)
              (ground (arith, v.num_in))),
      )
