-- ===== src/FreeList/Slots.antt =====
-- The free list slot by slot: what is handed out, and what is free afterwards.
use lizard.Prelude.{ℕ, ◌^◌, ◌<◌, ◌==◌, ap, arith, ◌∙◌}
use lizard.Prelude.{Bool, true, false, not, ◌&&◌, ◌||◌, ◌≡◌, refl, if◌then◌else◌}
use lizard.Prelude.{Option, none, some, List, [], ◌∷◌}
use lizard.BitLaws.Digits.{bit, bit-zero, bit-bit_or, bit-two_pow}
use lizard.Pymtl.{Pymtl}
use lizard.FreeList.Coders.{encode_onehot_lem}
use lizard.FreeList.Refine.{released-lt, masks-lt, bor-lt}
use lizard.FreeList.Grants.{slots, contains, AreFreshFrom, fl_grants_lem}
use lizard.FreeList.{
  FreeCalls, alloc_inc_0, encode_onehot, free_masks, free_next, released, step, grants, fl_allocs,
  fl_grants,
}
use lizard.FreeList.Alloc.{MaskInRange, allocs_agree}

-- Slot `i` is one that `free` is called for, or one in the mask of `release`.
abbrev pub is_freed : ℕ → List (Option ℕ) → Bool
is_freed i [] = false
is_freed i (none ∷ ports) = is_freed i ports
is_freed i (some j ∷ ports) = (j == i) || is_freed i ports

abbrev pub is_released : ℕ → Option ℕ → Bool
is_released i none = false
is_released i (some mask) = bit mask i

-- Slot `i` is returned by the calls that are counted.
abbrev pub is_returned : Bool → Bool → FreeCalls → ℕ → Bool
is_returned with_free with_release c i =
    (with_release && is_released i c.release) || (with_free && is_freed i c.frees)

or_assoc : (x y z : Bool) → ((x || y) || z) ≡ (x || (y || z))
or_assoc true y z = refl
or_assoc false y z = refl

or_false : (x : Bool) → x ≡ (x || false)
or_false true = refl
or_false false = refl

module _ ⦃p : Pymtl⦄ (n : ℕ) where
  bit-onehot : (j i : ℕ) → i < n → bit (encode_onehot n j) i ≡ (j == i)
  bit-onehot j i h = rw (encode_onehot_lem n j) (ground (arith, bit-two_pow j i, bit-zero i))

  bit-free_masks :
      (mask i : ℕ) (ports : List (Option ℕ))
      → i < n
      → bit (free_masks n mask ports) i ≡ (bit mask i || is_freed i ports)
  unfolding free_masks
  bit-free_masks mask i [] h = or_false (bit mask i)
  bit-free_masks mask i (none ∷ ports) h = bit-free_masks mask i ports h
  bit-free_masks mask i (some j ∷ ports) h =
      bit-free_masks (p.bor mask (encode_onehot n j)) i ports h
      ∙ ap (λ (b : Bool). b || is_freed i ports)
          (rw (p.bor_law) (bit-bit_or mask (encode_onehot n j) i)
            ∙ ap (λ (b : Bool). bit mask i || b) (bit-onehot j i h))
      ∙ or_assoc (bit mask i) (j == i) (is_freed i ports)

  bit-released :
      (mask : Option ℕ) (v i : ℕ) → bit (released n mask v) i ≡ (bit v i || is_released i mask)
  unfolding released
  bit-released none v i = or_false (bit v i)
  bit-released (some mask) v i = rw (p.bor_law) (bit-bit_or v mask i)

  returned : Bool → Bool → FreeCalls → ℕ → ℕ
  returned with_free with_release c v =
      let base = if with_release then released n c.release v else v in
      if with_free then p.bor base (free_masks n 0 c.frees) else base

  bit-masks : (c : FreeCalls) (i : ℕ) → i < n → bit (free_masks n 0 c.frees) i ≡ is_freed i c.frees
  bit-masks c i h = bit-free_masks 0 i c.frees h ∙ rw (bit-zero i) refl

  bit-returned :
      (with_free with_release : Bool) (c : FreeCalls) (v i : ℕ)
      → i < n
      → bit (returned with_free with_release c v) i
        ≡ (bit v i || is_returned with_free with_release c i)
  unfolding returned
  bit-returned true true c v i h =
      rw
        (
          p.bor_law,
          bit-bit_or (released n c.release v) (free_masks n 0 c.frees) i,
          bit-released c.release v i,
          bit-masks c i h,
        )
        (or_assoc (bit v i) (is_released i c.release) (is_freed i c.frees))
  bit-returned true false c v i h =
      rw (p.bor_law, bit-bit_or v (free_masks n 0 c.frees) i, bit-masks c i h) refl
  bit-returned false true c v i h =
      bit-released c.release v i
      ∙ ap (λ (b : Bool). bit v i || b) (or_false (is_released i c.release))
  bit-returned false false c v i h = or_false (bit v i)

  returned-lt :
      (with_free with_release : Bool) (c : FreeCalls) (v : ℕ)
      → v < 2 ^ n
      → MaskInRange n c.release
      → returned with_free with_release c v < 2 ^ n
  unfolding returned
  returned-lt true true c v h m = bor-lt n _ _ (released-lt n c.release v h m) (masks-lt n c)
  returned-lt true false c v h m = bor-lt n _ _ h (masks-lt n c)
  returned-lt false true c v h m = released-lt n c.release v h m
  returned-lt false false c v h m = h

  alloc_inc_0-returned :
      (fb rb : Bool) (v : ℕ) (c : FreeCalls) → alloc_inc_0 n fb rb v c ≡ returned fb rb c v
  unfolding alloc_inc_0 returned
  alloc_inc_0-returned fb rb v c = refl

  free_next-returned :
      (fb rb : Bool) (v : ℕ) (c : FreeCalls)
      → free_next n fb rb v c ≡ returned (not fb) (not rb) c v
  unfolding free_next returned
  free_next-returned true true v c = refl
  free_next-returned true false v c = refl
  free_next-returned false true v c = refl
  free_next-returned false false v c = refl

  -- What a cycle without `set` does to each slot, for either setting of each bypass. The slots that the
  -- alloc ports hand out are all different and in ascending order, and each is free at the start, or
  -- returned in the cycle by a call that bypasses. Afterwards exactly the slots are free that were
  -- free or returned by a call that bypasses, and are not handed out, and those that are returned by a
  -- call that does not bypass.
  pub step-slots :
      (free_bypass release_bypass : Bool) (v : ℕ) (c : FreeCalls)
      → v < 2 ^ n
      → MaskInRange n c.release
      → c.set_state ≡ none
      → let start = alloc_inc_0 n free_bypass release_bypass v c in
        let handed_out = slots (grants n start c.allocs) in
        AreFreshFrom n start 0 handed_out
        × ((i : ℕ) → i < n → bit start i ≡ (bit v i || is_returned free_bypass release_bypass c i))
        × ((i : ℕ)
            → i < n
            → bit (step n free_bypass release_bypass v c) i ≡ (
                ((bit v i || is_returned free_bypass release_bypass c i)
                  && not (contains i handed_out))
                || is_returned (not free_bypass) (not release_bypass) c i))
  unfolding step
  step-slots fb rb v c h m no_set =
      let start = alloc_inc_0 n fb rb v c in
      let e = alloc_inc_0-returned fb rb v c in
      let low : start < 2 ^ n = rw e (returned-lt fb rb c v h m) in
      let (states, results, ends) = allocs_agree n start c.allocs low in
      let (fresh, bits) = fl_grants_lem n start 0 c.allocs low (λ i lt. elim lt [ ]) in
      let at_start : (i : ℕ) → i < n → bit start i ≡ (bit v i || is_returned fb rb c i) =
        (λ i lt. rw e (bit-returned fb rb c v i lt)) in
      (
        rw results fresh,
        at_start,
        λ i lt.
            rw (no_set, results, states, free_next-returned fb rb (fl_allocs n start c.allocs) c)
              (bit-returned (not fb) (not rb) c (fl_allocs n start c.allocs) i lt
                ∙ ap (λ (b : Bool). b || is_returned (not fb) (not rb) c i)
                    (bits i lt
                      ∙ ap
                          (λ (b : Bool). b && not (contains i (slots (fl_grants n start c.allocs))))
                          (at_start i lt))),
      )
