-- ===== src/WrapInc.antt =====
-- The counters of lizard/util/rtl/wrap_inc.py.
pub mod Laws
mod Tests
use lizard.Prelude.{ℕ, zero, suc, ◌-◌, ◌==◌, Bool, true, false, Option, none, some, List, [], ◌∷◌}
use lizard.Prelude.{if◌then◌else◌, get_elem?}
use lizard.Pymtl.{Pymtl}

module _ ⦃p : Pymtl⦄ (nbits size : ℕ) (up : Bool) where
  -- `WrapInc.compute`, for both values of `up`
  unfoldable pub inc : ℕ → ℕ
  inc in_ =
      if up
      then (if in_ == size - 1 then 0 else p.add nbits in_ 1)
      else (if in_ == 0 then size - 1 else p.sub nbits in_ 1)

  -- `inc_out` of each of the chained `units` of `WrapIncVar`
  unfoldable pub unit_outs : ℕ → ℕ → List ℕ
  unit_outs zero in_ = []
  unit_outs (suc units) in_ = let out = inc in_ in out ∷ unit_outs units out

  -- `WrapIncVar.compute`; `none` is an index past the last unit
  unfoldable pub inc_var : ℕ → ℕ → ℕ → Option ℕ
  unfolding unit_outs
  inc_var max_ops in_ ops =
      if ops == 0 then some in_ else get_elem? (unit_outs max_ops in_) (ops - 1)
