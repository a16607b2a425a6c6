-- ===== src/Semantics/Divide/Laws.antt =====
-- Division with remainder, rounding towards zero.
use lizard.Prelude.{ℕ, suc, ◌<◌, ◌≡◌, ◌≢◌, arith}
use lizard.Prelude.{false, some}
use lizard.Prelude.Int.{ℤ, pos, negsuc, abs, ltb_ℤ, ◌*ℤ◌, ◌+ℤ◌}
use lizard.Semantics.Divide.{overflows, sane_divide, sane_rem}
use lizard.Semantics.Divide.Total.{quotient, remainder, sane_divide-some, sane_rem-some}
use native.Mathlib.Nat.{div-add-mod', mod-lt}

identity :
    (a b : ℤ) (bit_len : ℕ)
    → b ≢ pos 0
    → overflows bit_len a b ≡ false
    → quotient a b bit_len *ℤ b +ℤ remainder a b bit_len ≡ a
unfolding quotient remainder
identity (pos a) (pos b) bit_len ne fits = ground (arith, div-add-mod' a b)
identity (pos a) (negsuc b) bit_len ne fits = ground (arith, div-add-mod' a (suc b))
identity (negsuc a) (pos b) bit_len ne fits = ground (arith, div-add-mod' (suc a) b)
identity (negsuc a) (negsuc b) bit_len ne fits = ground (arith, div-add-mod' (suc a) (suc b))

-- Unless the divisor is 0 or the quotient overflows, `sane_divide` and `sane_rem` return, and the
-- quotient times the divisor plus the remainder is the dividend.
pub divide-rem :
    (a b : ℤ) (bit_len : ℕ)
    → b ≢ pos 0
    → overflows bit_len a b ≡ false
    → (q : ℤ) × (r : ℤ) × (sane_divide a b bit_len ≡ some q)
      × (sane_rem a b bit_len ≡ some r)
      × (q *ℤ b +ℤ r ≡ a)
divide-rem a b bit_len ne fits = (
  quotient a b bit_len,
  remainder a b bit_len,
  sane_divide-some a b bit_len,
  sane_rem-some a b bit_len,
  identity a b bit_len ne fits,
)

bounds :
    (a b : ℤ) (bit_len : ℕ)
    → b ≢ pos 0
    → (abs (remainder a b bit_len) < abs b)
      × (remainder a b bit_len ≢ pos 0 → ltb_ℤ (remainder a b bit_len) (pos 0) ≡ ltb_ℤ a (pos 0))
unfolding remainder
bounds (pos a) (pos b) bit_len ne = ground (arith, mod-lt a {m = b})
bounds (pos a) (negsuc b) bit_len ne = ground (arith, mod-lt a {m = suc b})
bounds (negsuc a) (pos b) bit_len ne = ground (arith, mod-lt (suc a) {m = b})
bounds (negsuc a) (negsuc b) bit_len ne = ground (arith, mod-lt (suc a) {m = suc b})

-- For a divisor other than 0, `sane_rem` returns a remainder that is nearer to zero than the divisor,
-- and if it is not 0 it has the sign of the dividend; the overflowing division is included.
pub rem_bounds :
    (a b : ℤ) (bit_len : ℕ)
    → b ≢ pos 0
    → (r : ℤ) × (sane_rem a b bit_len ≡ some r)
      × (abs r < abs b)
      × (r ≢ pos 0 → ltb_ℤ r (pos 0) ≡ ltb_ℤ a (pos 0))
rem_bounds a b bit_len ne =
    let (near, same_sign) = bounds a b bit_len ne in
    (remainder a b bit_len, sane_rem-some a b bit_len, near, same_sign)
