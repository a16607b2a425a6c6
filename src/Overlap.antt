-- ===== src/Overlap.antt =====
-- The overlap check of lizard/util/rtl/overlap_checker.py and its functional model
-- lizard/util/fl/overlap_checker.py.
pub mod Laws
mod Tests
use lizard.Prelude.{ℕ, ◌==◌, Bool, not, ◌&&◌, ◌||◌, ltb, leb, if◌then◌else◌}
use lizard.Pymtl.{Pymtl}

module _ ⦃p : Pymtl⦄ (base_nbits base_a size_a base_b size_b : ℕ) where
  -- `compute_ends`; `zext` leaves the value as it is
  unfoldable pub end_a : ℕ
  end_a = p.add base_nbits base_a size_a

  unfoldable pub end_b : ℕ
  end_b = p.add base_nbits base_b size_b

  -- `compute_disjoint`
  unfoldable pub check : Bool
  unfolding end_a end_b
  check = not ((leb base_b base_a && ltb base_a end_b) || (leb base_a base_b && ltb base_b end_a))

  -- `OverlapCheckerFL.check`
  unfoldable pub fl_check : Bool
  unfolding end_a end_b
  fl_check =
      if size_a == 0 || size_b == 0
      then not ((leb base_b base_a && ltb base_a end_b) || (leb base_a base_b && ltb base_b end_a))
      else (if ltb base_a base_b then leb end_a base_b else leb end_b base_a)
