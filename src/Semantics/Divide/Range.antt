-- ===== src/Semantics/Divide/Range.antt =====
-- Quotients and remainders fit the width of their operands.
use lizard.Prelude.{ℕ, suc, ◌-◌, ◌^◌, ◌<◌, ◌≡◌, arith}
use lizard.Prelude.{pow-suc, ltb, ltb→lt, Bool-cases, inl, inr}
use lizard.Prelude.Int.{ℤ, pos, negsuc}
use lizard.Pymtl.{InRange, signed}
use lizard.Semantics.Divide.Total.{quotient, remainder}
use native.Mathlib.Nat.{div-le_self, mod-le}
use lizard.BitLaws.Masks.{two_pow_pos}

-- The integers of `suc k` bits in two's complement.
abbrev pub IsSigned : ℕ → ℤ → Type 0
IsSigned k (pos n) = n < 2 ^ k
IsSigned k (negsuc n) = n < 2 ^ k

pub signed-IsSigned : (k a : ℕ) → a < 2 ^ suc k → IsSigned k (signed (suc k) a)
signed-IsSigned k a h =
    let e : suc k - 1 ≡ k = omega arith in
    rw e (elim (Bool-cases (ltb a (2 ^ k))) [
      | inl low ↦ rw low (ltb→lt a (2 ^ k) low)
      | inr high ↦ rw high (ground (arith, pow-suc 2 k))
    ])

pub quotient-InRange : (k : ℕ) (a b : ℤ) → IsSigned k a → InRange (suc k) (quotient a b (suc k))
unfolding quotient
quotient-InRange k (pos a) (pos b) h = ground (arith, pow-suc 2 k, two_pow_pos k, div-le_self a b)
quotient-InRange k (pos a) (negsuc b) h = ground (arith, pow-suc 2 k, div-le_self a (suc b))
quotient-InRange k (negsuc a) (pos b) h =
    ground (arith, pow-suc 2 k, two_pow_pos k, div-le_self (suc a) b)
quotient-InRange k (negsuc a) (negsuc b) h =
    ground (arith, pow-suc 2 k, div-le_self (suc a) (suc b))

pub quotient-InRange_unsigned :
    (k a b : ℕ) → a < 2 ^ suc k → InRange (suc k) (quotient (pos a) (pos b) (suc k))
unfolding quotient
quotient-InRange_unsigned k a b h = ground (arith, two_pow_pos k, div-le_self a b)

pub remainder-InRange : (k : ℕ) (a b : ℤ) → IsSigned k a → InRange (suc k) (remainder a b (suc k))
unfolding remainder
remainder-InRange k (pos a) (pos b) h = ground (arith, pow-suc 2 k, two_pow_pos k, mod-le a b)
remainder-InRange k (pos a) (negsuc b) h =
    ground (arith, pow-suc 2 k, two_pow_pos k, mod-le a (suc b))
remainder-InRange k (negsuc a) (pos b) h =
    ground (arith, pow-suc 2 k, two_pow_pos k, mod-le (suc a) b)
remainder-InRange k (negsuc a) (negsuc b) h =
    ground (arith, pow-suc 2 k, two_pow_pos k, mod-le (suc a) (suc b))

pub remainder-InRange_unsigned :
    (k a b : ℕ) → a < 2 ^ suc k → InRange (suc k) (remainder (pos a) (pos b) (suc k))
unfolding remainder
remainder-InRange_unsigned k a b h = ground (arith, two_pow_pos (suc k), mod-le a b)
