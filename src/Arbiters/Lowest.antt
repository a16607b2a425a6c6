-- ===== src/Arbiters/Lowest.antt =====
-- The lowest set bit: what the loops of the functional arbiters compute, in arithmetic.
use lizard.Prelude.{ℕ, zero, suc, ◌+◌, ◌-◌, ◌*◌, ◌/◌, ◌^◌, ◌≤◌, ◌<◌, ◌≡◌, refl, arith}
use lizard.Prelude.{bit_and, bit_or, bit_xor, pow-suc, true, false, Option, none, some, ap}
use lizard.Prelude.{Bool-cases, inl, inr, ◌≢◌}
use native.Mathlib.Nat.{suc-add}
use native.Mathlib.Decide.{ℕ_discrete}
use lizard.BitLaws.Step.{bit_and_step, bit_or_step, bit_xor_step}
use lizard.BitLaws.Digits.{bit}
use lizard.BitLaws.Masks.{
  two_pow_pos, bit_and-complement, bit_xor_self, bit_or_ones, mul_two_pow, bit_and-one, bit_xor-lt,
  bit-div, div_two_pow_add,
}
use lizard.Pymtl.{Pymtl}
use lizard.Arbiters.{first_set, fl_grant_from}

fl_grant_from-suc : (left x i : ℕ) → fl_grant_from left x (suc i) ≡ 2 * fl_grant_from left x i
unfolding fl_grant_from
fl_grant_from-suc zero x i = omega arith
fl_grant_from-suc (suc left) x i =
    ground (arith, fl_grant_from-suc left (x / 2) (i + 1), pow-suc 2 i)

-- `x & -x` is the lowest set bit.
pub bit_and-minus : (n x : ℕ) → x < 2 ^ n → bit_and x (2 ^ n - x) ≡ fl_grant_from n x 0
unfolding fl_grant_from
bit_and-minus zero x h = let e : x ≡ 0 = omega arith in rw e
bit_and-minus (suc n) x h = ground (
  arith,
  pow-suc 2 n,
  bit_and_step x (2 ^ suc n - x),
  bit_and-one x,
  fl_grant_from-suc n (x / 2) 0,
  bit_and-complement n (x / 2) (omega (arith, pow-suc 2 n)),
  bit_and-minus n (x / 2) (omega (arith, pow-suc 2 n)),
)

-- The complement of `x ^ (x - 1)`, or `x`: all bits from the lowest set bit of `x` up.
pub thermometer :
    (n x : ℕ)
    → 0 < x
    → x < 2 ^ n
    → bit_or (2 ^ n - 1 - bit_xor x (x - 1)) x + fl_grant_from n x 0 ≡ 2 ^ n
unfolding fl_grant_from
thermometer zero x pos h = absurd (omega arith)
thermometer (suc n) x pos h = ground (
  arith,
  pow-suc 2 n,
  bit_xor_step x (x - 1),
  bit_or_step (2 ^ suc n - 1 - bit_xor x (x - 1)) x,
  bit_and-one x,
  two_pow_pos n,
  fl_grant_from-suc n (x / 2) 0,
  bit_xor_self n (x / 2) (omega (arith, pow-suc 2 n)),
  bit_xor-lt n (x / 2) (x / 2 - 1) (omega (arith, pow-suc 2 n)) (omega (arith, pow-suc 2 n)),
  bit_or_ones n (x / 2) (omega (arith, pow-suc 2 n)),
  thermometer n (x / 2),
)

-- Low zeros are skipped.
pub fl_grant_from_shift :
    (k left y i : ℕ) → fl_grant_from (k + left) (y * 2 ^ k) i ≡ fl_grant_from left y (k + i)
unfolding fl_grant_from
fl_grant_from_shift zero left y i = ground arith
fl_grant_from_shift (suc k) left y i = rw suc-add (
    ground
      (arith, mul_two_pow y k, bit_and-one (y * 2 ^ suc k), fl_grant_from_shift k left y (i + 1)))

-- The grant for the bit that a loop over the indices finds.
abbrev pub grant_of : Option ℕ → ℕ
grant_of (some i) = 2 ^ i
grant_of none = 0

module _ ⦃p : Pymtl⦄ where
  -- Shifting as the priority arbiter's model does, or indexing as the round robin one does.
  pub fl_grant_from-first_set :
      (left reqs i : ℕ) → fl_grant_from left (reqs / 2 ^ i) i ≡ grant_of (first_set reqs left i)
  unfolding fl_grant_from first_set
  fl_grant_from-first_set zero reqs i = refl
  fl_grant_from-first_set (suc left) reqs i = ground (
    arith,
    bit_and-one (reqs / 2 ^ i),
    p.index_law reqs i,
    bit-div reqs i,
    div_two_pow_add reqs i,
    fl_grant_from-first_set left reqs (i + 1),
  )

  pub first_set-lt : (left reqs i j : ℕ) → first_set reqs left i ≡ some j → (i ≤ j) × (j < i + left)
  unfolding first_set
  first_set-lt zero reqs i j h = cc
  first_set-lt (suc left) reqs i j h = ground (arith, first_set-lt left reqs (i + 1) j)

  -- The loop over `a + b` indices is the loop over the first `a`, then the one over the others.
  pub first_set-add :
      (a b reqs i : ℕ)
      → first_set reqs (a + b) i
        ≡ elim (first_set reqs a i) [ some j ↦ some j | none ↦ first_set reqs b (i + a) ]
  unfolding first_set
  first_set-add zero b reqs i = ground arith
  first_set-add (suc a) b reqs i = rw suc-add (ground (arith, first_set-add a b reqs (i + 1)))

  -- If some bit is set, the loop finds one, and none before that is set.
  pub first_set_lem :
      (left reqs i j : ℕ)
      → i ≤ j
      → j < i + left
      → bit reqs j ≡ true
      → (k : ℕ) × (first_set reqs left i ≡ some k)
        × (bit reqs k ≡ true)
        × ((m : ℕ) → i ≤ m → m < k → bit reqs m ≡ false)
  unfolding first_set
  first_set_lem zero reqs i j le lt h = absurd (omega arith)
  first_set_lem (suc left) reqs i j le lt h = elim (Bool-cases (bit reqs i)) [
    | inl set ↦ (i, ground (arith, p.index_law reqs i), set, λ m low high. absurd (omega arith))
    | inr clear ↦
        let later : i ≢ j = (λ e. ground (arith, ap (bit reqs) e)) in
        let (k, found, set, before) =
          first_set_lem left reqs (i + 1) j (omega arith) (omega arith) h in
        (
          k,
          ground (arith, p.index_law reqs i),
          set,
          λ m low high. elim (ℕ_discrete i m) [
            | yes e ↦ rw (← e) clear
            | no ne ↦ before m (omega arith) high
          ],
        )
  ]
