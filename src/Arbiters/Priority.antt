-- ===== src/Arbiters/Priority.antt =====
-- `PriorityArbiter` and `PriorityArbiterFL` grant the same request.
use lizard.Prelude.{ℕ, suc, ◌-◌, ◌^◌, ◌<◌, ◌≡◌, arith, ◌∙◌, sym, pow-suc}
use lizard.Prelude.{bit_and, true, false}
use native.Mathlib.Decide.{ℕ_discrete}
use native.Mathlib.Nat.{div-one}
use lizard.BitLaws.Digits.{bit}
use lizard.BitLaws.Masks.{zero-bit_and, two_pow_pos, minus_mod, zero_minus}
use lizard.Pymtl.{Pymtl}
use lizard.Arbiters.{grant, fl_grant, fl_grant_from, first_set}
use lizard.Arbiters.Lowest.{bit_and-minus, grant_of, fl_grant_from-first_set, first_set_lem}

grant_zero : (n : ℕ) → bit_and 0 0 ≡ fl_grant_from n 0 0
grant_zero n =
    sym (zero-bit_and (suc n) (2 ^ n - 0) (omega (arith, pow-suc 2 n, two_pow_pos n)))
    ∙ bit_and-minus n 0 (two_pow_pos n)

module _ ⦃p : Pymtl⦄ where
  -- For every number of requesters and every request vector of that width, the arithmetic of
  -- `PriorityArbiter` and the loop of `PriorityArbiterFL` give the same grant.
  pub grant-eq-fl_grant :
      (nreqs reqs : ℕ) → reqs < 2 ^ nreqs → grant nreqs reqs ≡ fl_grant nreqs reqs
  unfolding grant fl_grant
  grant-eq-fl_grant nreqs reqs h =
      rw (p.band_law, p.sub_law)
        (elim (ℕ_discrete reqs 0) [
          | yes zero_reqs ↦ rw (zero_reqs, zero_minus nreqs) (grant_zero nreqs)
          | no some_req ↦ rw (minus_mod nreqs reqs (omega arith) h) (bit_and-minus nreqs reqs h)
        ])

  pub grant-first_set :
      (nreqs reqs : ℕ) → reqs < 2 ^ nreqs → grant nreqs reqs ≡ grant_of (first_set reqs nreqs 0)
  unfolding fl_grant
  grant-first_set nreqs reqs h =
      ground
        (arith, grant-eq-fl_grant nreqs reqs h, fl_grant_from-first_set nreqs reqs 0, div-one reqs)

  -- When some requester below `nreqs` asks, the grant of `PriorityArbiter` is the one-hot code of
  -- one that asks, and none before that one asks.
  grant_lowest :
      (nreqs reqs j : ℕ)
      → reqs < 2 ^ nreqs
      → j < nreqs
      → bit reqs j ≡ true
      → (i : ℕ) × (grant nreqs reqs ≡ 2 ^ i)
        × (bit reqs i ≡ true)
        × ((m : ℕ) → m < i → bit reqs m ≡ false)
  grant_lowest nreqs reqs j h lt set =
      let (i, found, is_set, before) =
        first_set_lem nreqs reqs 0 j (omega arith) (omega arith) set in
      (i, ground (arith, grant-first_set nreqs reqs h), is_set, λ m lt. before m (omega arith) lt)
