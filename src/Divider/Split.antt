-- ===== src/Divider/Split.antt =====
-- The arithmetic of an iteration of the divider: the register `dividend` holds what is left of the
-- dividend above the bits of the quotient.
use lizard.Prelude.{ℕ, suc, ◌+◌, ◌-◌, ◌*◌, ◌^◌, ◌≤◌, ◌<◌, leb, arith, ap}
use lizard.Prelude.{pow-suc, Bool, true, false, ◌≡◌, refl, to_bit, if◌then◌else◌, inl, inr, ◌∙◌}
use lizard.Prelude.{Bool-cases, leb→le}
use native.Mathlib.Nat.{add-mul, mul_assoc, mul_comm, mul_left_comm, mul-le-mul_right}
use lizard.BitLaws.Masks.{mul_two_pow}
use lizard.Divider.Iterate.{IsPartial, next_acc, next_dividend}

double_bit_mul : (a m : ℕ) (b : Bool) → (2 * a + to_bit b) * m ≡ 2 * (a * m) + (if b then m else 0)
double_bit_mul a m true = omega (arith, add-mul (2 * a) 1 m, mul_assoc 2 a m)
double_bit_mul a m false = omega (arith, add-mul (2 * a) 0 m, mul_assoc 2 a m)

-- What is left of the dividend without its top bit, which `m` bits are below.
pub rest_of : ℕ → ℕ → ℕ
rest_of m rest = if leb (2 ^ m) rest then rest - 2 ^ m else rest

-- The top bit of what is left is the top bit of the register.
pub rest_split :
    (k m rest scale q : ℕ)
    → rest < 2 ^ suc m
    → scale * 2 ^ suc m ≡ 2 ^ suc k
    → q < scale
    → (leb (2 ^ k) (rest * scale + q) ≡ leb (2 ^ m) rest)
      × (rest * scale + q < 2 ^ suc k)
      × (rest * scale ≡ rest_of m rest * scale + (if leb (2 ^ m) rest then 2 ^ k else 0))
      × (rest_of m rest < 2 ^ m)
unfolding rest_of
rest_split k m rest scale q h e hq =
    let half : scale * 2 ^ m ≡ 2 ^ k = omega (arith, mul_two_pow scale m, pow-suc 2 k) in
    elim (Bool-cases (leb (2 ^ m) rest)) [
      | inl high ↦
          let le : 2 ^ m ≤ rest = leb→le _ _ high in
          let parts : rest * scale ≡ (rest - 2 ^ m) * scale + 2 ^ k =
            ap (λ (t : ℕ). t * scale) (split le)
            ∙ omega (arith, add-mul (rest - 2 ^ m) (2 ^ m) scale, mul_comm (2 ^ m) scale) in
          let below : (rest - 2 ^ m + 1) * scale ≤ 2 ^ k =
            omega (arith, mul-le-mul_right scale (low le), mul_comm (2 ^ m) scale) in
          rw high (
            ground (arith),
            omega (arith, add-mul (rest - 2 ^ m) 1 scale, pow-suc 2 k),
            parts,
            low le,
          )
      | inr clear ↦
          let lt : rest < 2 ^ m = ground arith in
          let below : (rest + 1) * scale ≤ 2 ^ k =
            omega (arith, mul-le-mul_right scale lt, mul_comm (2 ^ m) scale) in
          rw clear (
            ground (arith, add-mul rest 1 scale),
            omega (arith, add-mul rest 1 scale, pow-suc 2 k),
            omega arith,
            lt,
          )
    ]
  where
    split : 2 ^ m ≤ rest → rest ≡ rest - 2 ^ m + 2 ^ m
    split le = omega arith

    low : 2 ^ m ≤ rest → rest - 2 ^ m < 2 ^ m
    low le = omega (arith, pow-suc 2 m)

pub IsPartial-next :
    (k d r2 : ℕ)
    → d < 2 ^ suc k
    → r2 < 2 * d
    → IsPartial k d (if leb d r2 then r2 - d else r2) (next_acc k d r2)
IsPartial-next k d r2 hd h = elim (Bool-cases (leb d r2)) [
  | inl fits ↦ rw fits (ground arith, inl refl)
  | inr over ↦ rw over (ground arith, inr (omega (arith, pow-suc 2 (suc k), pow-suc 2 k)))
]

pub rest_of_lem : (m rest : ℕ) → rest ≡ rest_of m rest + (if leb (2 ^ m) rest then 2 ^ m else 0)
unfolding rest_of
rest_of_lem m rest = ground arith

pub split_next :
    (x a rest rest' m : ℕ) (b : Bool)
    → x ≡ a * 2 ^ suc m + rest
    → rest ≡ rest' + (if b then 2 ^ m else 0)
    → x ≡ (2 * a + to_bit b) * 2 ^ m + rest'
split_next x a rest rest' m b e f = omega (arith, double_bit_mul a (2 ^ m) b, mul_two_pow a m)

pub holds_next :
    (k dividend rest rest' scale q : ℕ) (b f : Bool)
    → dividend ≡ rest * scale + q
    → leb (2 ^ k) dividend ≡ b
    → rest * scale ≡ rest' * scale + (if b then 2 ^ k else 0)
    → next_dividend k dividend f ≡ rest' * (2 * scale) + (2 * q + to_bit f)
holds_next k dividend rest rest' scale q true f e top parts =
    rw top (omega (arith, pow-suc 2 k, mul_left_comm rest' 2 scale))
holds_next k dividend rest rest' scale q false f e top parts =
    rw top (omega (arith, mul_left_comm rest' 2 scale))

pub divides_next :
    (a q r d b : ℕ)
    → a ≡ q * d + r
    → 2 * a + b
      ≡ (2 * q + to_bit (leb d (2 * r + b))) * d
        + (if leb d (2 * r + b) then 2 * r + b - d else 2 * r + b)
divides_next a q r d b e = ground (arith, double_bit_mul q d (leb d (2 * r + b)))
