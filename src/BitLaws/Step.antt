-- ===== src/BitLaws/Step.antt =====
-- The lowest digit of `&`, `|` and `^`. The native operations stand for a recursion on a count of
-- digits, and a count beyond the first number adds nothing.
use Prim.Native.Nat.{differ, ◌<◌, digits, bitwise, bit_and-bitwise, bit_or-bitwise, bit_xor-bitwise}
use lizard.Prelude.{ℕ, zero, suc, ◌+◌, ◌-◌, ◌*◌, ◌/◌, ◌%◌, ◌≤◌, min, max, ◌≡◌, refl, ap, ◌∙◌, arith}
use lizard.Prelude.{bit_and, bit_or, bit_xor}

module _ (last : ℕ → ℕ) (pair : ℕ → ℕ → ℕ) where
  one_more :
      (count x y : ℕ) → x ≤ count → digits last pair (suc count) x y ≡ digits last pair count x y
  one_more zero zero y le = refl
  one_more zero (suc x) y le = absurd (omega arith)
  one_more (suc count) zero y le = refl
  one_more (suc count) (suc x) y le =
      ap (λ high. high * 2 + pair (suc x % 2) (y % 2))
        (one_more count (suc x / 2) (y / 2) (omega arith))

  spare : (gap x y : ℕ) → digits last pair (gap + x) x y ≡ bitwise last pair x y
  spare zero x y = let e : 0 + x ≡ x = omega arith in ap (λ count. digits last pair count x y) e
  spare (suc gap) x y =
      let e : suc gap + x ≡ suc (gap + x) = omega arith in
      ap (λ count. digits last pair count x y) e
      ∙ one_more (gap + x) x y (omega arith)
      ∙ spare gap x y

  lowest :
      (x y : ℕ)
      → bitwise last pair (suc x) y
        ≡ bitwise last pair (suc x / 2) (y / 2) * 2 + pair (suc x % 2) (y % 2)
  lowest x y =
      let half = suc x / 2 in
      let e : x ≡ x - half + half = omega arith in
      ap (λ high. high * 2 + pair (suc x % 2) (y % 2))
        (ap (λ count. digits last pair count half (y / 2)) e ∙ spare (x - half) half (y / 2))

pub bit_and_step : (x y : ℕ) → bit_and x y ≡ bit_and (x / 2) (y / 2) * 2 + min (x % 2) (y % 2)
bit_and_step (suc x) y = simp bit_and-bitwise (lowest (λ rest. 0) min x y)
bit_and_step zero y = simp bit_and-bitwise (omega arith)

pub bit_or_step : (x y : ℕ) → bit_or x y ≡ bit_or (x / 2) (y / 2) * 2 + max (x % 2) (y % 2)
bit_or_step (suc x) y = simp bit_or-bitwise (lowest (λ rest. rest) max x y)
bit_or_step zero y = simp bit_or-bitwise (omega arith)

differ_lem : (x y : ℕ) → x < 2 → y < 2 → differ x y ≡ (x + y) % 2
differ_lem zero zero p q = refl
differ_lem zero (suc y) p q = omega arith
differ_lem (suc zero) zero p q = refl
differ_lem (suc zero) (suc zero) p q = refl
differ_lem (suc zero) (suc (suc y)) p q = absurd (omega arith)
differ_lem (suc (suc x)) y p q = absurd (omega arith)

bit_xor-differ : (x y : ℕ) → bit_xor x y ≡ bit_xor (x / 2) (y / 2) * 2 + differ (x % 2) (y % 2)
bit_xor-differ (suc x) y = simp bit_xor-bitwise (lowest (λ rest. rest) differ x y)
bit_xor-differ zero y = simp bit_xor-bitwise (omega arith)

pub bit_xor_step : (x y : ℕ) → bit_xor x y ≡ bit_xor (x / 2) (y / 2) * 2 + (x % 2 + y % 2) % 2
bit_xor_step x y =
    omega (arith, bit_xor-differ x y, differ_lem (x % 2) (y % 2) (omega arith) (omega arith))
