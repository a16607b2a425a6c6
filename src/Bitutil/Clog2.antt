-- ===== src/Bitutil/Clog2.antt =====
-- `clog2` is the least number of bits that counts `x` values, and `byte_count` the least number of bytes.
use lizard.Prelude.{
  ℕ, zero, suc, ◌+◌, ◌*◌, ◌^◌, ◌≤◌, ◌<◌, ◌≡◌, refl, arith, some, pow-suc, Bool-cases,
}
use lizard.Prelude.{inl, inr, ltb, ap}
use mathlib.Core.Path.{subst}
use native.Mathlib.Decide.{dec_lt, ℕ_discrete}
use native.Mathlib.Nat.{add-zero, zero-add}
use native.Mathlib.Numerals.{add-one}
use lizard.BitLaws.Masks.{lt_two_pow, two_pow_lt}
use lizard.Bitutil.{clog2_loop, clog2, clog2nz, byte_count}

-- What `clog2` promises of its result: it is the least `r` with `x ≤ 2 ^ r`.
pub record IsClog2 (x r : ℕ) : Type 0 where
  pub enough : x ≤ 2 ^ r
  pub least : (k : ℕ) → x ≤ 2 ^ k → r ≤ k

below_two_pow : (x i k : ℕ) → 2 ^ i < x → x ≤ 2 ^ k → i + 1 ≤ k
below_two_pow x i k lt le = elim (dec_lt i k) [
  | yes p ↦ omega arith
  | no q ↦ elim (ℕ_discrete i k) [
    | yes e ↦ absurd (omega (arith, ap (λ t. 2 ^ t) e))
    | no ne ↦ absurd (omega (arith, two_pow_lt k i (omega arith)))
  ]
]

clog2_loop_lem :
    (fuel x i v : ℕ)
    → v ≡ 2 ^ i
    → x ≤ 2 ^ (i + fuel)
    → ((k : ℕ) → x ≤ 2 ^ k → i ≤ k)
    → (r : ℕ) × (clog2_loop (suc fuel) x i v ≡ some r) × IsClog2 x r
unfolding clog2_loop
clog2_loop_lem zero x i v e h least =
    let le : x ≤ 2 ^ i = subst (λ t. x ≤ 2 ^ t) (add-zero i) h in
    (i, ground (arith, e), record { enough = le; least = least })
clog2_loop_lem (suc fuel) x i v e h least = elim (Bool-cases (ltb v x)) [
  | inl more ↦
      let (r, runs, is) =
        clog2_loop_lem fuel x (i + 1) (v * 2) (rw add-one (omega (arith, pow-suc 2 i)))
          (subst (λ t. x ≤ 2 ^ t) (omega arith) h)
          (λ k le. below_two_pow x i k (ground (arith, e)) le) in
      (r, ground arith, is)
  | inr done ↦ (i, ground arith, record { enough = ground (arith, e); least = least })
]

-- `clog2` returns for every number, and its result is the least `r` with `x ≤ 2 ^ r`.
pub clog2_lem : (x : ℕ) → (r : ℕ) × (clog2 x ≡ some r) × IsClog2 x r
unfolding clog2
clog2_lem x = rw add-one (
    clog2_loop_lem x x 0 1 refl
      (omega (arith, zero-add x, lt_two_pow x, ap (λ t. 2 ^ t) (zero-add x))) (λ k le. omega arith))

-- `clog2nz` returns for every number, and its result is the least positive `r` with `x ≤ 2 ^ r`.
clog2nz_lem :
    (x : ℕ)
    → (r : ℕ) × (clog2nz x ≡ some r) × (0 < r) × (x ≤ 2 ^ r) × ((k : ℕ) → 0 < k → x ≤ 2 ^ k → r ≤ k)
unfolding clog2nz
clog2nz_lem x =
    let (r, runs, is) = clog2_lem x in
    elim (ℕ_discrete r 0) [
      | yes e ↦ (1, ground arith, omega arith, ground (arith, is.enough, e), λ k p le. omega arith)
      | no ne ↦ (r, ground arith, omega arith, is.enough, λ k p le. is.least k le)
    ]

-- `byte_count` is the least number of bytes that holds `bits` bits.
byte_count_lem :
    (bits : ℕ) → (bits ≤ byte_count bits * 8) × ((k : ℕ) → bits ≤ k * 8 → byte_count bits ≤ k)
unfolding byte_count
byte_count_lem bits = (ground arith, λ k le. ground arith)
