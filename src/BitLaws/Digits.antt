-- ===== src/BitLaws/Digits.antt =====
-- Whether bit `i` of a number is set, and what `&`, `|` and `^` do to it.
use lizard.Prelude.{ℕ, zero, suc, ◌/◌, ◌%◌, ◌^◌, ◌-◌, ◌≤◌, ◌<◌, ◌==◌, ◌≡◌, refl, arith}
use lizard.Prelude.{Bool, false, not, ◌&&◌, ◌||◌, bit_and, bit_or, bit_xor}
use lizard.Prelude.{if◌then◌else◌, pow-suc}
use lizard.BitLaws.Step.{bit_and_step, bit_or_step, bit_xor_step}

abbrev pub bit : ℕ → ℕ → Bool
bit a zero = a % 2 == 1
bit a (suc i) = bit (a / 2) i

pub bit-zero : (i : ℕ) → bit 0 i ≡ false
bit-zero zero = refl
bit-zero (suc i) = bit-zero i

pub bit_and-half : (a b : ℕ) → bit_and a b / 2 ≡ bit_and (a / 2) (b / 2)
bit_and-half a b = omega (arith, bit_and_step a b)

pub bit_or-half : (a b : ℕ) → bit_or a b / 2 ≡ bit_or (a / 2) (b / 2)
bit_or-half a b = omega (arith, bit_or_step a b)

pub bit_xor-half : (a b : ℕ) → bit_xor a b / 2 ≡ bit_xor (a / 2) (b / 2)
bit_xor-half a b = omega (arith, bit_xor_step a b)

pub bit-bit_and : (a b i : ℕ) → bit (bit_and a b) i ≡ (bit a i && bit b i)
bit-bit_and a b zero = ground (arith, bit_and_step a b)
bit-bit_and a b (suc i) = rw (bit_and-half a b) (bit-bit_and (a / 2) (b / 2) i)

pub bit-bit_or : (a b i : ℕ) → bit (bit_or a b) i ≡ (bit a i || bit b i)
bit-bit_or a b zero = ground (arith, bit_or_step a b)
bit-bit_or a b (suc i) = rw (bit_or-half a b) (bit-bit_or (a / 2) (b / 2) i)

pub bit-bit_xor : (a b i : ℕ) → bit (bit_xor a b) i ≡ (if bit a i then not (bit b i) else bit b i)
bit-bit_xor a b zero = ground (arith, bit_xor_step a b)
bit-bit_xor a b (suc i) = rw (bit_xor-half a b) (bit-bit_xor (a / 2) (b / 2) i)

-- A number below `2 ^ n` has no bit from `n` on.
pub bit_above : (a n i : ℕ) → a < 2 ^ n → n ≤ i → bit a i ≡ false
bit_above a zero i h k = rw (zero_of a h) (bit-zero i)
  where
    zero_of : (a : ℕ) → a < 2 ^ 0 → a ≡ 0
    zero_of a h = omega arith
bit_above a (suc n) zero h k = absurd (omega arith)
bit_above a (suc n) (suc i) h k = bit_above (a / 2) n i (omega (arith, pow-suc 2 n)) (omega arith)

-- The complement within `n` bits flips the bits below `n`.
pub bit_complement : (a n i : ℕ) → a < 2 ^ n → i < n → bit (2 ^ n - 1 - a) i ≡ not (bit a i)
bit_complement a zero i h k = absurd (omega arith)
bit_complement a (suc n) zero h k = ground (arith, pow-suc 2 n)
bit_complement a (suc n) (suc i) h k =
    rw halves (bit_complement (a / 2) n i (omega (arith, pow-suc 2 n)) (omega arith))
  where
    halves : (2 ^ suc n - 1 - a) / 2 ≡ 2 ^ n - 1 - a / 2
    halves = omega (arith, pow-suc 2 n)

pub bit-two_pow : (k i : ℕ) → bit (2 ^ k) i ≡ (k == i)
bit-two_pow zero zero = refl
bit-two_pow zero (suc i) = ground (arith, bit-zero i)
bit-two_pow (suc k) zero = ground (arith, pow-suc 2 k)
bit-two_pow (suc k) (suc i) = rw (half k) (ground (arith, bit-two_pow k i))
  where
    half : (k : ℕ) → 2 ^ suc k / 2 ≡ 2 ^ k
    half k = omega (arith, pow-suc 2 k)

-- Numbers with the same bits are equal; the bits below `n` are enough for numbers below `2 ^ n`.
pub bit_ext_below :
    (n a b : ℕ) → a < 2 ^ n → b < 2 ^ n → ((i : ℕ) → i < n → bit a i ≡ bit b i) → a ≡ b
bit_ext_below zero a b ha hb h = omega arith
bit_ext_below (suc n) a b ha hb h = ground (
  arith,
  pow-suc 2 n,
  h 0 (omega arith),
  bit_ext_below n (a / 2) (b / 2) (omega (arith, pow-suc 2 n)) (omega (arith, pow-suc 2 n))
      (λ i k. h (suc i) (omega arith)),
)
