-- ===== src/Bitutil.antt =====
-- The helpers of lizard/bitutil/__init__.py that compute with numbers.
pub mod Clog2
mod Tests
use lizard.Prelude.{
  ℕ, zero, suc, ◌+◌, ◌-◌, ◌*◌, ◌/◌, ◌%◌, ◌==◌, ltb, if◌then◌else◌, Option, none, some,
}

-- The loop `while x > v` of `clog2`, with fuel; `none` means that the fuel ran out.
pub clog2_loop : ℕ → ℕ → ℕ → ℕ → Option ℕ
clog2_loop zero x i v = none
clog2_loop (suc fuel) x i v =
    let rest = clog2_loop fuel x (i + 1) (v * 2) in if ltb v x then rest else some i

-- `clog2`: `x + 1` rounds are enough, since `v` doubles from 1.
unfoldable pub clog2 : ℕ → Option ℕ
unfolding clog2_loop
clog2 x = clog2_loop (x + 1) x 0 1

unfoldable pub clog2nz : ℕ → Option ℕ
unfolding clog2
clog2nz x = elim (clog2 x) [ none ↦ none | some result ↦ some (if result == 0 then 1 else result) ]

unfoldable pub byte_count : ℕ → ℕ
byte_count bits = bits / 8 + (if bits % 8 == 0 then 0 else 1)
