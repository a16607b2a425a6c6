-- ===== src/FreeList/Refine.antt =====
-- The free list of a cycle against the methods of its functional model.
use lizard.Prelude.{ℕ, ◌^◌, ◌<◌, ap, sym, ◌∙◌}
use lizard.Prelude.{bit_or, Bool, true, false, not, ◌≡◌, refl, if◌then◌else◌}
use lizard.Prelude.{Option, none, some}
use lizard.BitLaws.Masks.{bit_or-zero, bit_or-lt, two_pow_pos}
use lizard.Pymtl.{Pymtl}
use lizard.FreeList.Alloc.{
  bit_or_assoc, bit_or_comm, MaskInRange, FreesInRange, fl_frees-free_masks, free_masks-lt,
  allocs_agree,
}
use lizard.FreeList.{
  FreeCalls, fl_releases, fl_returns, free_next, released, step, fl_cycle, fl_frees, free_masks,
  alloc_inc_0, fl_before, grants, fl_grants, fl_allocs, alloc_inc,
}

module _ ⦃p : Pymtl⦄ (n : ℕ) where
  pub released-lt :
      (mask : Option ℕ) (v : ℕ) → v < 2 ^ n → MaskInRange n mask → released n mask v < 2 ^ n
  unfolding released
  released-lt none v h m = h
  released-lt (some mask) v h m = rw (p.bor_law) (bit_or-lt n v mask h m)

  fl_releases-released : (mask : Option ℕ) (v : ℕ) → fl_releases mask v ≡ released n mask v
  unfolding fl_releases released
  fl_releases-released none v = refl
  fl_releases-released (some mask) v = refl

  pub masks-lt : (c : FreeCalls) → free_masks n 0 c.frees < 2 ^ n
  masks-lt c = free_masks-lt n 0 c.frees (two_pow_pos n)

  fl_frees-bor :
      (v : ℕ) (c : FreeCalls)
      → v < 2 ^ n
      → FreesInRange n c.frees
      → fl_frees n v c.frees ≡ p.bor v (free_masks n 0 c.frees)
  fl_frees-bor v c h hf =
      let unchanged : bit_or v 0 ≡ v = bit_or-zero n v h in
      rw (p.bor_law) (
        ap (λ (b : ℕ). fl_frees n b c.frees) (sym unchanged)
        ∙ fl_frees-free_masks n v 0 c.frees h (two_pow_pos n) hf)

  released_comm :
      (mask : Option ℕ) (v f : ℕ)
      → v < 2 ^ n
      → f < 2 ^ n
      → MaskInRange n mask
      → released n mask (p.bor v f) ≡ p.bor (released n mask v) f
  unfolding released
  released_comm none v f hv hf hm = refl
  released_comm (some mask) v f hv hf hm =
      rw (p.bor_law, p.bor_law, p.bor_law, p.bor_law)
        (bit_or_assoc n v f mask hv hf hm
          ∙ ap (bit_or v) (bit_or_comm n f mask hf hm)
          ∙ sym (bit_or_assoc n v mask f hv hm hf))

  pub bor-lt : (a b : ℕ) → a < 2 ^ n → b < 2 ^ n → p.bor a b < 2 ^ n
  bor-lt a b ha hb = rw (p.bor_law) (bit_or-lt n a b ha hb)

  -- The methods `release` and `free`, in either order, are the masks.
  fl_returns_lem :
      (release_first with_free with_release : Bool) (v : ℕ) (c : FreeCalls)
      → v < 2 ^ n
      → FreesInRange n c.frees
      → MaskInRange n c.release
      → (fl_returns n release_first with_free with_release v c ≡ (
          let base = if with_release then released n c.release v else v in
          if with_free then p.bor base (free_masks n 0 c.frees) else base))
        × (fl_returns n release_first with_free with_release v c < 2 ^ n)
  unfolding fl_returns
  fl_returns_lem true false false v c h hf hm = (refl, h)
  fl_returns_lem false false false v c h hf hm = (refl, h)
  fl_returns_lem true false true v c h hf hm =
      let e = fl_releases-released c.release v in (e, rw e (released-lt c.release v h hm))
  fl_returns_lem false false true v c h hf hm =
      let e = fl_releases-released c.release v in (e, rw e (released-lt c.release v h hm))
  fl_returns_lem true true false v c h hf hm =
      let e = fl_frees-bor v c h hf in (e, rw e (bor-lt v (free_masks n 0 c.frees) h (masks-lt c)))
  fl_returns_lem false true false v c h hf hm =
      let e = fl_frees-bor v c h hf in (e, rw e (bor-lt v (free_masks n 0 c.frees) h (masks-lt c)))
  fl_returns_lem true true true v c h hf hm =
      let lt = released-lt c.release v h hm in
      rw (fl_releases-released c.release v, fl_frees-bor (released n c.release v) c lt hf)
        (refl, bor-lt (released n c.release v) (free_masks n 0 c.frees) lt (masks-lt c))
  fl_returns_lem false true true v c h hf hm =
      let lt = released-lt c.release v h hm in
      rw
        (
          fl_frees-bor v c h hf,
          fl_releases-released c.release,
          released_comm c.release v (free_masks n 0 c.frees) h (masks-lt c) hm,
        )
        (refl, bor-lt (released n c.release v) (free_masks n 0 c.frees) lt (masks-lt c))

  -- `set` is last.
  abbrev last_or_set : Option ℕ → ℕ → ℕ
  last_or_set set_state next = elim set_state [ some state ↦ state | none ↦ next ]

  free_next_lem :
      (release_first free_bypass release_bypass : Bool) (v : ℕ) (c : FreeCalls)
      → v < 2 ^ n
      → FreesInRange n c.frees
      → MaskInRange n c.release
      → free_next n free_bypass release_bypass v c
        ≡ fl_returns n release_first (not free_bypass) (not release_bypass) v c
  unfolding free_next
  free_next_lem r true true v c h hf hm = sym (fl_returns_lem r false false v c h hf hm).0
  free_next_lem r true false v c h hf hm = sym (fl_returns_lem r false true v c h hf hm).0
  free_next_lem r false true v c h hf hm = sym (fl_returns_lem r true false v c h hf hm).0
  free_next_lem r false false v c h hf hm = sym (fl_returns_lem r true true v c h hf hm).0

  -- A clock cycle of the free list does what the methods of the functional model do that are called
  -- in it, for either setting of each bypass: what bypasses goes before `alloc`, the rest after it, and
  -- `set` is last; `release` and `free` may go in either order. The alloc ports are ready, and return
  -- the index and the mask, as the methods are and do, one after another.
  pub fl_cycle-step :
      (release_first free_bypass release_bypass : Bool) (v : ℕ) (c : FreeCalls)
      → v < 2 ^ n
      → FreesInRange n c.frees
      → MaskInRange n c.release
      → (step n free_bypass release_bypass v c
          ≡ fl_cycle n release_first free_bypass release_bypass v c)
        × (grants n (alloc_inc_0 n free_bypass release_bypass v c) c.allocs
            ≡ fl_grants n (fl_before n release_first free_bypass release_bypass v c) c.allocs)
  unfolding step fl_cycle alloc_inc_0 free_next fl_before
  fl_cycle-step release_first free_bypass release_bypass v c h hf hm =
      let (before, low) = fl_returns_lem release_first free_bypass release_bypass v c h hf hm in
      let start = fl_returns n release_first free_bypass release_bypass v c in
      let (states, results, ends) = allocs_agree n start c.allocs low in
      let next : free_next n free_bypass release_bypass (fl_allocs n start c.allocs) c
          ≡ fl_returns n release_first (not free_bypass) (not release_bypass)
              (fl_allocs n start c.allocs) c =
        free_next_lem release_first free_bypass release_bypass (fl_allocs n start c.allocs) c ends
          hf hm in
      (
        ap (λ (t : ℕ). last_or_set c.set_state (free_next n free_bypass release_bypass t c))
              (ap (λ (t : ℕ). alloc_inc n t c.allocs) (sym before) ∙ states)
            ∙ ap (last_or_set c.set_state) next,
        rw (← before) results,
      )
