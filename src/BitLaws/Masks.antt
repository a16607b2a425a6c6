-- ===== src/BitLaws/Masks.antt =====
-- `&` with a mask of low or high ones, as arithmetic, at every width.
use lizard.Prelude.{ℕ, zero, suc, ◌+◌, ◌-◌, ◌*◌, ◌/◌, ◌%◌, ◌^◌, ◌≤◌, ◌<◌, ◌≡◌, ap, ◌∙◌, arith}
use lizard.Prelude.{bit_and, bit_or, bit_xor, pow-suc}
use native.Mathlib.Nat.{
  mod-eq_of_lt, mod-eq-sub-mod, mod_self, one-le-pow, pow-succ', div-div-eq-div-mul, div-add-mod',
  mod-lt, mul-add-mod_self_right,
}
use native.Mathlib.Numerals.{add-one}
use lizard.Prelude.{◌==◌}
use lizard.BitLaws.Digits.{bit}
use lizard.BitLaws.Step.{bit_and_step, bit_or_step, bit_xor_step}

pub two_pow_pos : (n : ℕ) → 1 ≤ 2 ^ n
two_pow_pos n = one-le-pow n 2 (omega arith)

-- Dividing by `2 ^ (k + 1)` is halving first.
pub div_two_pow : (a k : ℕ) → a / 2 ^ suc k ≡ a / 2 / 2 ^ k
div_two_pow a k = rw (pow-succ' 2 k, div-div-eq-div-mul a 2 (2 ^ k))

pub div_two_pow_add : (a k : ℕ) → a / 2 ^ (k + 1) ≡ a / 2 ^ k / 2
div_two_pow_add a k = rw (div-div-eq-div-mul a (2 ^ k) 2, add-one, pow-suc)

pub mul_two_pow : (q k : ℕ) → q * 2 ^ suc k ≡ 2 * (q * 2 ^ k)
mul_two_pow q k = omega (arith, ap (λ (t : ℕ). q * t) (pow-suc 2 k))

pub lt_two_pow : (n : ℕ) → n < 2 ^ n
lt_two_pow zero = omega arith
lt_two_pow (suc n) = omega (arith, lt_two_pow n, pow-suc 2 n)

pub zero-bit_and : (n b : ℕ) → b < 2 ^ n → bit_and 0 b ≡ 0
zero-bit_and zero b h = let e : b ≡ 0 = omega arith in rw e
zero-bit_and (suc n) b h =
    omega
      (arith, bit_and_step 0 b, pow-suc 2 n, zero-bit_and n (b / 2) (omega (arith, pow-suc 2 n)))

pub bit_and-zero : (n a : ℕ) → a < 2 ^ n → bit_and a 0 ≡ 0
bit_and-zero zero a h = let e : a ≡ 0 = omega arith in rw e
bit_and-zero (suc n) a h =
    omega
      (arith, bit_and_step a 0, pow-suc 2 n, bit_and-zero n (a / 2) (omega (arith, pow-suc 2 n)))

pub bit_or-zero : (n a : ℕ) → a < 2 ^ n → bit_or a 0 ≡ a
bit_or-zero zero a h = let e : a ≡ 0 = omega arith in rw e
bit_or-zero (suc n) a h =
    omega (arith, bit_or_step a 0, pow-suc 2 n, bit_or-zero n (a / 2) (omega (arith, pow-suc 2 n)))

pub bit_xor_self : (n a : ℕ) → a < 2 ^ n → bit_xor a a ≡ 0
bit_xor_self zero a h = let e : a ≡ 0 = omega arith in rw e
bit_xor_self (suc n) a h =
    omega
      (arith, bit_xor_step a a, pow-suc 2 n, bit_xor_self n (a / 2) (omega (arith, pow-suc 2 n)))

-- A number and its complement share no bit.
pub bit_and-complement : (n a : ℕ) → a < 2 ^ n → bit_and a (2 ^ n - 1 - a) ≡ 0
bit_and-complement zero a h = let e : a ≡ 0 = omega arith in rw e
bit_and-complement (suc n) a h = ground (
  arith,
  bit_and_step a (2 ^ suc n - 1 - a),
  pow-suc 2 n,
  bit_and-complement n (a / 2) (omega (arith, pow-suc 2 n)),
)

-- `&` with the ones from `k` up to `n` clears the low `k` bits.
pub bit_and_high_mask :
    (k n a : ℕ) → a < 2 ^ n → k ≤ n → bit_and a (2 ^ n - 2 ^ k) ≡ a / 2 ^ k * 2 ^ k
bit_and_high_mask zero zero a h le = let e : a ≡ 0 = omega arith in rw e
bit_and_high_mask (suc k) zero a h le = absurd (omega arith)
bit_and_high_mask zero (suc n) a h le = ground (
  arith,
  bit_and_step a (2 ^ suc n - 1),
  pow-suc 2 n,
  two_pow_pos n,
  bit_and_high_mask zero n (a / 2) (omega (arith, pow-suc 2 n)) (omega arith),
)
bit_and_high_mask (suc k) (suc n) a h le =
    rw (div_two_pow a k, mul_two_pow (a / 2 / 2 ^ k) k)
      (ground (
        arith,
        bit_and_step a (2 ^ suc n - 2 ^ suc k),
        pow-suc 2 n,
        pow-suc 2 k,
        bit_and_high_mask k n (a / 2) (omega (arith, pow-suc 2 n)) (omega arith),
      ))

-- `|` with a mask of ones from some bit up, over all the lower bits, fills.
pub bit_or_ones : (n a : ℕ) → a < 2 ^ n → bit_or (2 ^ n - 1) a ≡ 2 ^ n - 1
bit_or_ones zero a h = let e : a ≡ 0 = omega arith in rw e
bit_or_ones (suc n) a h = ground (
  arith,
  bit_or_step (2 ^ suc n - 1) a,
  pow-suc 2 n,
  two_pow_pos n,
  bit_or_ones n (a / 2) (omega (arith, pow-suc 2 n)),
)

pub bit_and-one : (a : ℕ) → bit_and a 1 ≡ a % 2
bit_and-one a = ground (arith, bit_and_step a 1, bit_and-zero (a / 2) (a / 2) (lt_two_pow (a / 2)))

pub bit_xor-lt : (n a b : ℕ) → a < 2 ^ n → b < 2 ^ n → bit_xor a b < 2 ^ n
bit_xor-lt zero a b ha hb =
    let e : a ≡ 0 = omega arith in let f : b ≡ 0 = omega arith in rw (e, f) (omega arith)
bit_xor-lt (suc n) a b ha hb = omega (
  arith,
  bit_xor_step a b,
  pow-suc 2 n,
  bit_xor-lt n (a / 2) (b / 2) (omega (arith, pow-suc 2 n)) (omega (arith, pow-suc 2 n)),
)

-- Bit `i` is the lowest bit after a shift by `i`.
pub bit-div : (a i : ℕ) → bit a i ≡ (a / 2 ^ i % 2 == 1)
bit-div a zero = ground arith
bit-div a (suc i) = rw (div_two_pow a i) (bit-div (a / 2) i)

pub zero-bit_xor : (n a : ℕ) → a < 2 ^ n → bit_xor 0 a ≡ a
zero-bit_xor zero a h = let e : a ≡ 0 = omega arith in rw e
zero-bit_xor (suc n) a h =
    omega
      (arith, bit_xor_step 0 a, pow-suc 2 n, zero-bit_xor n (a / 2) (omega (arith, pow-suc 2 n)))

-- Subtraction at width `n`, as the laws of the package write it.
pub minus_mod : (n x : ℕ) → 0 < x → x < 2 ^ n → (0 + 2 ^ n - x) % 2 ^ n ≡ 2 ^ n - x
minus_mod n x pos h =
    let e : 0 + 2 ^ n - x ≡ 2 ^ n - x = omega arith in rw e (mod-eq_of_lt (omega arith))

pub zero_minus : (n : ℕ) → (0 + 2 ^ n - 0) % 2 ^ n ≡ 0
zero_minus n = let e : 0 + 2 ^ n - 0 ≡ 2 ^ n = omega arith in rw e (mod_self (2 ^ n))

pub minus_one : (n : ℕ) → (0 + 2 ^ n - 1) % 2 ^ n ≡ 2 ^ n - 1
minus_one n =
    let e : 0 + 2 ^ n - 1 ≡ 2 ^ n - 1 = omega arith in
    rw e (mod-eq_of_lt (omega (arith, two_pow_pos n)))

pub pred_mod : (n x : ℕ) → 0 < x → x < 2 ^ n → (x + 2 ^ n - 1) % 2 ^ n ≡ x - 1
pred_mod n x pos h =
    let e : x + 2 ^ n - 1 - 2 ^ n ≡ x - 1 = omega arith in
    rw (mod-eq-sub-mod {n = x + 2 ^ n - 1} {m = 2 ^ n} (omega arith), e)
      (mod-eq_of_lt (omega arith))

pub two_pow_lt : (k n : ℕ) → k < n → 2 ^ k < 2 ^ n
two_pow_lt k zero h = absurd (omega arith)
two_pow_lt zero (suc n) h = omega (arith, pow-suc 2 n, two_pow_pos n)
two_pow_lt (suc k) (suc n) h = omega (arith, pow-suc 2 n, pow-suc 2 k, two_pow_lt k n (omega arith))

pub bit_and-lt : (n a b : ℕ) → a < 2 ^ n → b < 2 ^ n → bit_and a b < 2 ^ n
bit_and-lt zero a b ha hb =
    let e : a ≡ 0 = omega arith in let f : b ≡ 0 = omega arith in rw (e, f) (omega arith)
bit_and-lt (suc n) a b ha hb = omega (
  arith,
  bit_and_step a b,
  pow-suc 2 n,
  bit_and-lt n (a / 2) (b / 2) (omega (arith, pow-suc 2 n)) (omega (arith, pow-suc 2 n)),
)

pub bit_or-lt : (n a b : ℕ) → a < 2 ^ n → b < 2 ^ n → bit_or a b < 2 ^ n
bit_or-lt zero a b ha hb =
    let e : a ≡ 0 = omega arith in let f : b ≡ 0 = omega arith in rw (e, f) (omega arith)
bit_or-lt (suc n) a b ha hb = omega (
  arith,
  bit_or_step a b,
  pow-suc 2 n,
  bit_or-lt n (a / 2) (b / 2) (omega (arith, pow-suc 2 n)) (omega (arith, pow-suc 2 n)),
)

-- Bit 0 of a remainder, and the rest of it.
pub mod_two_pow_suc : (a m : ℕ) → 0 < m → a % (2 * m) ≡ a / 2 % m * 2 + a % 2
mod_two_pow_suc a m h =
    let q = a / 2 / m in
    let c = a / 2 % m * 2 + a % 2 in
    let double : q * (2 * m) ≡ q * m * 2 = grind arith in
    let e : a ≡ q * (2 * m) + c = omega (arith, double, div-add-mod' (a / 2) m) in
    let below : c < 2 * m = omega (arith, mod-lt (a / 2) h) in
    ap (λ x. x % (2 * m)) e ∙ mul-add-mod_self_right q (2 * m) c ∙ mod-eq_of_lt below

-- `&` with low ones is a remainder.
pub bit_and-low : (n a : ℕ) → bit_and a (2 ^ n - 1) ≡ a % 2 ^ n
bit_and-low zero a = omega (arith, bit_and-zero a a (lt_two_pow a))
bit_and-low (suc n) a =
    let half : (2 ^ suc n - 1) / 2 ≡ 2 ^ n - 1 = omega (arith, pow-suc 2 n, two_pow_pos n) in
    let odd : (2 ^ suc n - 1) % 2 ≡ 1 = omega (arith, pow-suc 2 n, two_pow_pos n) in
    let step : bit_and (a / 2) ((2 ^ suc n - 1) / 2) ≡ a / 2 % 2 ^ n =
      ap (bit_and (a / 2)) half ∙ bit_and-low n (a / 2) in
    omega (
      arith,
      bit_and_step a (2 ^ suc n - 1),
      step,
      odd,
      mod_two_pow_suc a (2 ^ n) (two_pow_pos n),
      ap (λ x. a % x) (pow-succ' 2 n),
    )
