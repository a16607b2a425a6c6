-- ===== src/Pymtl.antt =====
-- The package pymtl, which the sources import and do not hold: what they use of its `Bits`.
-- A `Bits(w)` value is the number `uint()` of it, and a `Bits(1)` value that is used as a truth value
-- is a `Bool`. Each operation of the package is a field, next to the documented law for it, so that
-- every definition that uses one takes a `Pymtl` as an instance argument.
pub mod Standard
use lizard.Prelude.{ℕ, ◌+◌, ◌-◌, ◌*◌, ◌/◌, ◌%◌, ◌^◌, ◌≡◌, bit_and, bit_or, bit_xor, Bool}
use lizard.Prelude.{◌<◌, Option, some, ltb, if◌then◌else◌}
use lizard.Prelude.Int.{ℤ, pos, negsuc}
use lizard.BitLaws.Digits.{bit}

-- The integer that `w` bits stand for in two's complement.
abbrev pub signed : ℕ → ℕ → ℤ
signed w a = if ltb a (2 ^ (w - 1)) then pos a else negsuc (2 ^ w - a - 1)

-- The low `w` bits of an integer.
abbrev pub wrap : ℕ → ℤ → ℕ
wrap w (pos n) = n % 2 ^ w
wrap w (negsuc n) = 2 ^ w - 1 - n % 2 ^ w

-- The integers that fit `w` bits, read as unsigned or as two's complement.
abbrev pub InRange : ℕ → ℤ → Type 0
InRange w (pos n) = n < 2 ^ w
InRange w (negsuc n) = n < 2 ^ (w - 1)

pub record Pymtl : Type 0 where
  -- `a + b`, `a - b` and `~a` at width `w`, and `a * b`, which is twice as wide
  pub add : ℕ → ℕ → ℕ → ℕ
  pub add_law : (w a b : ℕ) → add w a b ≡ (a + b) % 2 ^ w
  pub sub : ℕ → ℕ → ℕ → ℕ
  pub sub_law : (w a b : ℕ) → sub w a b ≡ (a + 2 ^ w - b) % 2 ^ w
  pub inv : ℕ → ℕ → ℕ
  pub inv_law : (w a : ℕ) → inv w a ≡ 2 ^ w - 1 - a
  pub mul : ℕ → ℕ → ℕ → ℕ
  pub mul_law : (w a b : ℕ) → mul w a b ≡ a * b % 2 ^ (2 * w)
  -- `a & b`, `a | b` and `a ^ b`
  pub band : ℕ → ℕ → ℕ
  pub band_law : (a b : ℕ) → band a b ≡ bit_and a b
  pub bor : ℕ → ℕ → ℕ
  pub bor_law : (a b : ℕ) → bor a b ≡ bit_or a b
  pub bxor : ℕ → ℕ → ℕ
  pub bxor_law : (a b : ℕ) → bxor a b ≡ bit_xor a b
  -- `a << k` at width `w`, and `a >> k`
  pub shl : ℕ → ℕ → ℕ → ℕ
  pub shl_law : (w a k : ℕ) → shl w a k ≡ a * 2 ^ k % 2 ^ w
  pub shr : ℕ → ℕ → ℕ
  pub shr_law : (a k : ℕ) → shr a k ≡ a / 2 ^ k
  -- `a[i]` and `a[lo:hi]`
  pub index : ℕ → ℕ → Bool
  pub index_law : (a i : ℕ) → index a i ≡ bit a i
  pub slice : ℕ → ℕ → ℕ → ℕ
  pub slice_law : (a lo hi : ℕ) → slice a lo hi ≡ a / 2 ^ lo % 2 ^ (hi - lo)
  -- `a` after `a[lo:hi] = v`, with `v` of `hi - lo` bits
  pub put : ℕ → ℕ → ℕ → ℕ → ℕ
  pub put_law : (a lo hi v : ℕ) → put a lo hi v ≡ a / 2 ^ hi * 2 ^ hi + v * 2 ^ lo + a % 2 ^ lo
  -- `concat(a, b)` with `b` of width `w`
  pub concat : ℕ → ℕ → ℕ → ℕ
  pub concat_law : (w a b : ℕ) → concat w a b ≡ a * 2 ^ w + b
  -- `a.int()` of `w` bits, and `Bits(w, z, trunc=True)`
  pub to_int : ℕ → ℕ → ℤ
  pub to_int_law : (w a : ℕ) → to_int w a ≡ signed w a
  pub trunc : ℕ → ℤ → ℕ
  pub trunc_law : (w : ℕ) (z : ℤ) → trunc w z ≡ wrap w z
  -- `sext(a, w')` of `w` bits; `zext` leaves the number as it is, and has no field
  pub sext : ℕ → ℕ → ℕ → ℕ
  pub sext_law :
      (w w' a : ℕ) → sext w w' a ≡ (if ltb a (2 ^ (w - 1)) then a else a + 2 ^ w' - 2 ^ w)
  -- `Bits(w, z)`; what it does with an integer that does not fit is left open
  pub construct : ℕ → ℤ → Option ℕ
  pub construct_law : (w : ℕ) (z : ℤ) → InRange w z → construct w z ≡ some (wrap w z)
