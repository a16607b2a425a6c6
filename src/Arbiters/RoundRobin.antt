-- ===== src/Arbiters/RoundRobin.antt =====
-- `RoundRobinArbiter` gives the grants of `RoundRobinArbiterFL`, cycle by cycle.
use lizard.Prelude.{ℕ, suc, ◌+◌, ◌-◌, ◌*◌, ◌/◌, ◌%◌, ◌^◌, ◌≤◌, ◌<◌, ◌≡◌, refl, arith, ◌∙◌, sym}
use lizard.Prelude.{Option, none, some, List, [], ◌∷◌, inl, inr, pow-suc, ap}
use lizard.Prelude.{Option-cases}
use native.Mathlib.Decide.{ℕ_discrete}
use native.Mathlib.Nat.{mod_self, mod-eq_of_lt, div-mul-le_self, add-zero, zero-add}
use native.Mathlib.Numerals.{add-one}
use lizard.BitLaws.Masks.{two_pow_pos, bit_and_high_mask, two_pow_lt}
use lizard.Pymtl.{Pymtl}
use lizard.Arbiters.{
  grant, mask, fl_grant, fl_grant_from, first_set, end_of, round_robin_grant, round_robin_mask,
  round_robin_run, round_robin_fl, round_robin_fl_run,
}
use lizard.Arbiters.Lowest.{
  fl_grant_from_shift, grant_of, fl_grant_from-first_set, first_set-lt, first_set-add,
}
use lizard.Arbiters.Priority.{grant-eq-fl_grant, grant-first_set}
use lizard.Arbiters.Mask.{mask_lem, mask-zero}

-- Every request of the list has one bit for each requester.
abbrev pub Fits : ℕ → List ℕ → Type 0
Fits nreqs [] = Unit {0}
Fits nreqs (reqs ∷ rest) = (reqs < 2 ^ nreqs) × Fits nreqs rest

-- The last grant, if any, went to a requester.
abbrev pub IsRequester : ℕ → Option ℕ → Type 0
IsRequester nreqs none = Unit {0}
IsRequester nreqs (some i) = i < nreqs

-- The value of the register `mask` that stands for `last_grant`.
abbrev pub mask_for : ℕ → Option ℕ → ℕ
mask_for nreqs last = 2 ^ end_of nreqs last % 2 ^ nreqs

module _ ⦃p : Pymtl⦄ where
  mask_two_pow : (n k : ℕ) → k < n → mask n (2 ^ k) ≡ 2 ^ n - 2 ^ k
  unfolding fl_grant fl_grant_from
  mask_two_pow n k h =
      omega (
        arith,
        mask_lem n (2 ^ k) (two_pow_pos k) (two_pow_lt k n h),
        lowest k (n - k - 1),
        n_split,
      )
    where
      n_split : fl_grant_from n (2 ^ k) 0 ≡ fl_grant_from (k + suc (n - k - 1)) (1 * 2 ^ k) 0
      n_split =
          let e : n ≡ k + suc (n - k - 1) = omega arith in
          let f : 2 ^ k ≡ 1 * 2 ^ k = omega arith in cc

      lowest : (k m : ℕ) → fl_grant_from (k + suc m) (1 * 2 ^ k) 0 ≡ 2 ^ k
      lowest k m = fl_grant_from_shift k (suc m) 1 0 ∙ ground arith

  -- What is left of the requests under the mask for `k` starts at the first one from `k` on.
  masked_grant :
      (n k reqs : ℕ)
      → reqs < 2 ^ n
      → k < n
      → grant n (p.band reqs (mask n (2 ^ k % 2 ^ n))) ≡ grant_of (first_set reqs (n - k) k)
  unfolding fl_grant
  masked_grant n k reqs h lt =
      rw
        (
          mod-eq_of_lt (two_pow_lt k n lt),
          mask_two_pow n k lt,
          p.band_law,
          bit_and_high_mask k n reqs h (omega arith),
          grant-eq-fl_grant n (reqs / 2 ^ k * 2 ^ k) (omega (arith, div-mul-le_self reqs (2 ^ k))),
        )
        (ap (λ m. fl_grant_from m (reqs / 2 ^ k * 2 ^ k) 0) split_n
          ∙ fl_grant_from_shift k (n - k) (reqs / 2 ^ k) 0
          ∙ ap (fl_grant_from (n - k) (reqs / 2 ^ k)) (add-zero k)
          ∙ fl_grant_from-first_set (n - k) reqs k)
    where
      split_n : n ≡ k + (n - k)
      split_n = omega arith

  raw_grant :
      (n k reqs : ℕ)
      → reqs < 2 ^ n
      → k ≤ n
      → grant n reqs
        ≡ grant_of (elim (first_set reqs k 0) [ some j ↦ some j | none ↦ first_set reqs (n - k) k ])
  raw_grant n k reqs h le = ground (
    arith,
    grant-first_set n reqs h,
    first_set-add k (n - k) reqs 0,
    let e : k + (n - k) ≡ n = omega arith in e,
    zero-add k,
  )

  -- With every index below `end`, the mask is all ones.
  unmasked : (n reqs : ℕ) → reqs < 2 ^ n → p.band reqs (mask n (2 ^ n % 2 ^ n)) ≡ reqs
  unmasked n reqs h =
      rw (mod_self (2 ^ n), mask-zero n, p.band_law)
        (bit_and_high_mask 0 n reqs h (omega arith) ∙ omega arith)

  none_above : (n reqs : ℕ) → first_set reqs (n - n) n ≡ none
  unfolding first_set
  none_above n reqs = let e : n - n ≡ 0 = omega arith in rw e

  step_refines :
      (n : ℕ) (last : Option ℕ) (reqs : ℕ)
      → reqs < 2 ^ n
      → end_of n last ≤ n
      → round_robin_grant n (mask_for n last) reqs ≡ (round_robin_fl n last reqs).1
  unfolding round_robin_grant round_robin_fl
  step_refines n last reqs h le = elim (ℕ_discrete (end_of n last) n) [
    | yes e ↦
        rw e
          (ground (arith, unmasked n reqs h, raw_grant n n reqs h (omega arith), none_above n reqs))
    | no ne ↦ elim (Option-cases (first_set reqs (n - end_of n last) (end_of n last))) [
      | inl e ↦ ground (
        arith,
        masked_grant n (end_of n last) reqs h (omega arith),
        raw_grant n (end_of n last) reqs h le,
      )
      | inr (i, e) ↦
          ground (arith, masked_grant n (end_of n last) reqs h (omega arith), two_pow_pos i)
    ]
  ]

  fl_grant_of :
      (n : ℕ) (last : Option ℕ) (reqs : ℕ)
      → (round_robin_fl n last reqs).1 ≡ grant_of (round_robin_fl n last reqs).0
  unfolding round_robin_fl
  fl_grant_of n last reqs = ground arith

  next_refines :
      (n : ℕ) (last : Option ℕ) (reqs : ℕ)
      → round_robin_mask n (round_robin_fl n last reqs).1
        ≡ mask_for n (round_robin_fl n last reqs).0
  unfolding round_robin_mask
  next_refines n last reqs =
      rw (fl_grant_of n last reqs, p.shl_law) (next n (round_robin_fl n last reqs).0)
    where
      next : (n : ℕ) (last : Option ℕ) → grant_of last * 2 ^ 1 % 2 ^ n ≡ 2 ^ end_of n last % 2 ^ n
      next n none = omega (arith, mod_self (2 ^ n))
      next n (some i) = rw (add-one i) (ap (λ t. t % 2 ^ n) (omega (arith, pow-suc 2 i)))

  found_below : (n reqs left i : ℕ) → i + left ≤ n → end_of n (first_set reqs left i) ≤ n
  found_below n reqs left i le = elim (Option-cases (first_set reqs left i)) [
    | inl e ↦ rw e (omega arith)
    | inr (j, e) ↦ rw e (omega (arith, first_set-lt left reqs i j e))
  ]

  next-end :
      (n : ℕ) (last : Option ℕ) (reqs : ℕ)
      → end_of n last ≤ n
      → end_of n (round_robin_fl n last reqs).0 ≤ n
  unfolding round_robin_fl
  next-end n last reqs le = ground (
    arith,
    found_below n reqs (n - end_of n last) (end_of n last),
    found_below n reqs (end_of n last) 0,
  )

  run_refines_from :
      (n : ℕ) (last : Option ℕ) (requests : List ℕ)
      → Fits n requests
      → end_of n last ≤ n
      → round_robin_run n (mask_for n last) requests ≡ round_robin_fl_run n last requests
  unfolding round_robin_run round_robin_fl_run
  run_refines_from n last [] fits le = refl
  run_refines_from n last (reqs ∷ rest) fits le =
      rw (step_refines n last reqs fits.0 le, next_refines n last reqs)
        (ap (λ tail. (round_robin_fl n last reqs).1 ∷ tail)
          (run_refines_from n (round_robin_fl n last reqs).0 rest fits.1 (next-end n last reqs le)))

  -- From reset, over any number of clock cycles with request vectors of the width, the hardware gives
  -- the grants of the functional model.
  pub round_robin_run_refines :
      (nreqs : ℕ) (requests : List ℕ)
      → Fits nreqs requests
      → round_robin_run nreqs 0 requests ≡ round_robin_fl_run nreqs none requests
  round_robin_run_refines nreqs requests fits =
      ap (λ m. round_robin_run nreqs m requests) (sym (mod_self (2 ^ nreqs)))
      ∙ run_refines_from nreqs none requests fits (omega arith)
