-- ===== src/Prelude/Modular.antt =====
-- Remainders by a variable, in the two cases that counters meet.
use Prim.Native.Nat.{ℕ, ◌+◌, ◌-◌, ◌%◌, ◌≤◌, ◌<◌}
use mathlib.Core.Path.{◌≡◌, ◌∙◌}
use native.Mathlib.Nat.{mod-eq_of_lt, mod-eq-sub-mod, mod-add-mod}
use native.Mathlib.Omega.{arith}

-- `n` is below `m`, or one turn above.
pub mod_once : (n m : ℕ) → m ≤ n → n < m + m → n % m ≡ n - m
mod_once n m le lt = mod-eq-sub-mod {n = n} {m = m} le ∙ mod-eq_of_lt (omega arith)

pub mod_below : (n m : ℕ) → n < m → n % m ≡ n
mod_below n m lt = mod-eq_of_lt lt

-- A step from a remainder is a step from the number.
pub mod_step : (n k m : ℕ) → (n % m + k) % m ≡ (n + k) % m
mod_step n k m = mod-add-mod n m k
