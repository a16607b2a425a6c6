-- ===== src/Semantics/Divide/Total.antt =====
-- Why no division of the functional model divides by zero, and the integers that they give.
use lizard.Prelude.{ℕ, ◌/◌, ◌%◌, if◌then◌else◌, some, ◌≡◌, arith}
use lizard.Prelude.Int.{ℤ, pos, negsuc, abs, eqb_ℤ, ◌*ℤ◌}
use lizard.Semantics.Divide.{sign, overflows, floor_div, floor_mod, sane_divide, sane_rem}

-- The integer that `sane_divide` returns, by the division of ℕ, which has no exception.
unfoldable pub quotient : ℤ → ℤ → ℕ → ℤ
unfolding sign
quotient a b bit_len =
    if eqb_ℤ b (pos 0)
    then negsuc 0
    else if overflows bit_len a b
    then a
    else pos (abs a / abs b) *ℤ (sign a *ℤ sign b)

-- The integer that `sane_rem` returns.
unfoldable pub remainder : ℤ → ℤ → ℕ → ℤ
unfolding sign
remainder a b bit_len =
    if eqb_ℤ b (pos 0)
    then a
    else if overflows bit_len a b
    then pos 0
    else pos (abs a % abs b) *ℤ sign a

pub sane_divide-some :
    (a b : ℤ) (bit_len : ℕ) → sane_divide a b bit_len ≡ some (quotient a b bit_len)
unfolding sane_divide floor_div quotient
sane_divide-some a (pos n) bit_len = ground arith
sane_divide-some a (negsuc n) bit_len = ground arith

pub sane_rem-some : (a b : ℤ) (bit_len : ℕ) → sane_rem a b bit_len ≡ some (remainder a b bit_len)
unfolding sane_rem floor_mod remainder
sane_rem-some a (pos n) bit_len = ground arith
sane_rem-some a (negsuc n) bit_len = ground arith
