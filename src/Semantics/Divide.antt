-- ===== src/Semantics/Divide.antt =====
-- `sign`, `sane_divide` and `sane_rem`, on Python integers.
pub mod Total
pub mod Laws
pub mod Range
use lizard.Prelude.{ℕ, ◌-◌, ◌/◌, ◌%◌, ◌^◌, ◌==◌, Bool, ◌&&◌, if◌then◌else◌, Option, none, some}
use lizard.Prelude.Int.{ℤ, pos, negsuc, neg, abs, ltb_ℤ, eqb_ℤ, ◌*ℤ◌}
use mathlib.Core.Option

unfoldable pub sign : ℤ → ℤ
sign num = if ltb_ℤ num (pos 0) then negsuc 0 else pos 1

-- `a == -2**(bit_len - 1) and b == -1`
abbrev pub overflows : ℕ → ℤ → ℤ → Bool
overflows bit_len a b = eqb_ℤ a (neg (2 ^ (bit_len - 1))) && eqb_ℤ b (negsuc 0)

-- Python's `//` on integers that are not negative; `none` is `ZeroDivisionError`.
unfoldable pub floor_div : ℕ → ℕ → Option ℕ
floor_div a b = if b == 0 then none else some (a / b)

-- Python's `%` on integers that are not negative; `none` is `ZeroDivisionError`.
unfoldable pub floor_mod : ℕ → ℕ → Option ℕ
floor_mod a b = if b == 0 then none else some (a % b)

unfoldable pub sane_divide : ℤ → ℤ → ℕ → Option ℤ
unfolding sign floor_div
sane_divide a b bit_len =
    if eqb_ℤ b (pos 0)
    then some (negsuc 0)
    else if overflows bit_len a b
    then some a
    else Option.map (λ res. pos res *ℤ (sign a *ℤ sign b)) (floor_div (abs a) (abs b))

unfoldable pub sane_rem : ℤ → ℤ → ℕ → Option ℤ
unfolding sign floor_mod
sane_rem a b bit_len =
    if eqb_ℤ b (pos 0)
    then some a
    else if overflows bit_len a b
    then some (pos 0)
    else Option.map (λ res. pos res *ℤ sign a) (floor_mod (abs a) (abs b))
