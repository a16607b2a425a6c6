-- ===== src/Arbiters.antt =====
-- The arbiters of lizard/util/rtl/arbiters.py and the thermometer mask they use
-- (lizard/util/rtl/thermometer_mask.py), with the functional models that the tests compare them to
-- (lizard/util/fl/arbiters.py, lizard/util/fl/thermometer_mask.py).
pub mod Lowest
pub mod Mask
pub mod Priority
pub mod RoundRobin
mod Tests
use lizard.Prelude.{
  ℕ, zero, suc, ◌+◌, ◌-◌, ◌*◌, ◌/◌, ◌^◌, ◌==◌, bit_and, Option, none, some, List, [], ◌∷◌,
}
use lizard.Prelude.{if◌then◌else◌}
use lizard.Pymtl.{Pymtl}

-- `end` in `RoundRobinArbiterFL.grant`
abbrev pub end_of : ℕ → Option ℕ → ℕ
end_of nreqs (some last_grant) = last_grant + 1
end_of nreqs none = nreqs

module _ ⦃p : Pymtl⦄ where
  open p use {add, sub, inv, band, bor, bxor, shl, index}

  -- `PriorityArbiter.compute`
  unfoldable pub grant : ℕ → ℕ → ℕ
  grant nreqs reqs = band reqs (sub nreqs 0 reqs)

  -- `ThermometerMask.compute`: the last value that `mask_out` takes in the block
  unfoldable pub mask : ℕ → ℕ → ℕ
  mask width in_ =
      let first = bxor in_ (sub width in_ 1) in
      let second = if in_ == 0 then first else inv width first in bor second in_

  -- `RoundRobinArbiter`: the grant of a cycle, and the next value of the register `mask`
  unfoldable pub round_robin_grant : ℕ → ℕ → ℕ → ℕ
  unfolding grant mask
  round_robin_grant nreqs mask_reg reqs =
      let raw = grant nreqs reqs in
      let masked = grant nreqs (band reqs (mask nreqs mask_reg)) in
      if masked == 0 then raw else masked

  unfoldable pub round_robin_mask : ℕ → ℕ → ℕ
  round_robin_mask nreqs final_grant = shl nreqs final_grant 1

  -- `RoundRobinArbiter`, clock cycle by clock cycle: the grants for a list of request vectors, from
  -- a value of the register `mask`
  unfoldable pub round_robin_run : ℕ → ℕ → List ℕ → List ℕ
  round_robin_run nreqs mask_reg [] = []
  round_robin_run nreqs mask_reg (reqs ∷ rest) =
      let final_grant = round_robin_grant nreqs mask_reg reqs in
      final_grant ∷ round_robin_run nreqs (round_robin_mask nreqs final_grant) rest

  -- A loop `for i in range(i, i + left): if reqs[i]: ...` of `RoundRobinArbiterFL.grant`
  unfoldable pub first_set : ℕ → ℕ → ℕ → Option ℕ
  first_set reqs zero i = none
  first_set reqs (suc left) i =
      let rest = first_set reqs left (i + 1) in if index reqs i then some i else rest

  -- `RoundRobinArbiterFL.grant`: the new `last_grant` and the result
  unfoldable pub round_robin_fl : ℕ → Option ℕ → ℕ → Option ℕ × ℕ
  unfolding first_set
  round_robin_fl nreqs last_grant reqs =
      let end = end_of nreqs last_grant in
      elim (first_set reqs (nreqs - end) end) [
        | some i ↦ (some i, 2 ^ i)
        | none ↦ elim (first_set reqs end 0) [ some i ↦ (some i, 2 ^ i) | none ↦ (none, 0) ]
      ]

  unfoldable pub round_robin_fl_run : ℕ → Option ℕ → List ℕ → List ℕ
  round_robin_fl_run nreqs last_grant [] = []
  round_robin_fl_run nreqs last_grant (reqs ∷ rest) =
      let (last_grant', result) = round_robin_fl nreqs last_grant reqs in
      result ∷ round_robin_fl_run nreqs last_grant' rest

-- The loop of `PriorityArbiterFL.grant`, on Python integers, with `left` rounds to go
unfoldable pub fl_grant_from : ℕ → ℕ → ℕ → ℕ
fl_grant_from zero temp i = 0
fl_grant_from (suc left) temp i =
    let rest = fl_grant_from left (temp / 2) (i + 1) in if bit_and temp 1 == 0 then rest else 2 ^ i

unfoldable pub fl_grant : ℕ → ℕ → ℕ
unfolding fl_grant_from
fl_grant nreqs reqs = fl_grant_from nreqs reqs 0
