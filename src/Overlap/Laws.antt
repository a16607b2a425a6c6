-- ===== src/Overlap/Laws.antt =====
-- What the checks promise, and where the two differ.
use lizard.Prelude.{ℕ, ◌+◌, ◌^◌, ◌≤◌, ◌<◌, ◌≡◌, ◌≢◌, ◌⊎◌, ◌↔◌, arith, true, false}
use lizard.Prelude.{mod_below, mod_once}
use lizard.Pymtl.{Pymtl}
use lizard.Overlap.{check, fl_check}

-- No address lies in both ranges.
abbrev pub Disjoint : ℕ → ℕ → ℕ → ℕ → Type 0
Disjoint base_a size_a base_b size_b =
    (x : ℕ) → base_a ≤ x → x < base_a + size_a → base_b ≤ x → x < base_b + size_b → ⊥

module _ ⦃p : Pymtl⦄ (w base_a size_a base_b size_b : ℕ) where
  -- For two ranges that hold at least one address each and do not reach the end of the address space,
  -- the check answers 1 exactly when no address lies in both.
  pub check_lem :
      0 < size_a
      → 0 < size_b
      → base_a + size_a < 2 ^ w
      → base_b + size_b < 2 ^ w
      → (check w base_a size_a base_b size_b ≡ true) ↔ Disjoint base_a size_a base_b size_b
  unfolding check
  check_lem pos_a pos_b fit_a fit_b = (
    λ says x a_lo a_hi b_lo b_hi. ground (
      arith,
      p.add_law w base_a size_a,
      p.add_law w base_b size_b,
      mod_below (base_a + size_a) (2 ^ w),
      mod_below (base_b + size_b) (2 ^ w),
    ),
    λ disjoint. ground (
      arith,
      p.add_law w base_a size_a,
      p.add_law w base_b size_b,
      mod_below (base_a + size_a) (2 ^ w),
      mod_below (base_b + size_b) (2 ^ w),
      disjoint base_a,
      disjoint base_b,
    ),
  )

  -- Unless the ranges start at one address and one of them wraps, the functional model answers as the
  -- hardware does, wrapping ends and empty ranges included.
  pub fl_check-eq-check :
      (base_a ≢ base_b) ⊎ ((base_a + size_a < 2 ^ w) × (base_b + size_b < 2 ^ w))
      → fl_check w base_a size_a base_b size_b ≡ check w base_a size_a base_b size_b
  unfolding check fl_check
  fl_check-eq-check safe = ground (
    arith,
    p.add_law w base_a size_a,
    p.add_law w base_b size_b,
    mod_below (base_a + size_a) (2 ^ w),
    mod_below (base_b + size_b) (2 ^ w),
  )

-- For two non-empty ranges that start at one address, of which only the second wraps, the functional
-- model says that they are disjoint and the hardware says that they overlap.
pub fl_check-ne-check :
    ⦃p : Pymtl⦄ (w base size_a size_b : ℕ)
    → 0 < size_a
    → base + size_a < 2 ^ w
    → 2 ^ w ≤ base + size_b
    → size_b < 2 ^ w
    → (fl_check w base size_a base size_b ≡ true) × (check w base size_a base size_b ≡ false)
unfolding check fl_check
fl_check-ne-check ⦃p⦄ w base size_a size_b pos fit wraps small = ground (
  arith,
  p.add_law w base size_a,
  p.add_law w base size_b,
  mod_below (base + size_a) (2 ^ w),
  mod_once (base + size_b) (2 ^ w),
)
