-- ===== src/CoreM/Words.antt =====
-- Products and words at the widths of the core.
use lizard.Prelude.{ℕ, zero, suc, ◌+◌, ◌-◌, ◌*◌, ◌%◌, ◌^◌, ◌<◌, ltb, Bool, true, false, arith}
use lizard.Prelude.{if◌then◌else◌, ◌≡◌, refl, sym, ap, ◌∙◌}
use lizard.Prelude.Int.{ℤ, pos, negsuc, neg, ◌*ℤ◌}
use native.Mathlib.Nat.{add-mul, mul-add}
use lizard.Pymtl.{Pymtl, signed, wrap}

-- The low words of a wider integer.
pub wrap-low64 : (z : ℤ) → wrap 128 z % 2 ^ 64 ≡ wrap 64 z
wrap-low64 (pos n) = omega arith
wrap-low64 (negsuc n) = omega arith

pub wrap-low32 : (z : ℤ) → wrap 128 z % 2 ^ 32 ≡ wrap 32 z
wrap-low32 (pos n) = omega arith
wrap-low32 (negsuc n) = omega arith

wrap64_neg : (y x q : ℕ) → y + x ≡ q * 2 ^ 64 → wrap 64 (neg y) ≡ x % 2 ^ 64
wrap64_neg zero x q e = omega arith
wrap64_neg (suc y) x q e = omega arith

-- A factor and what is missing from it to 2 ^ 64.
missing : (a c b : ℕ) → c + a ≡ 2 ^ 64 → c * b + a * b ≡ b * 2 ^ 64
missing a c b e = sym (add-mul c a b) ∙ ap (λ (x : ℕ). x * b) e ∙ omega arith

missing_right : (a b d : ℕ) → d + b ≡ 2 ^ 64 → a * d + a * b ≡ a * 2 ^ 64
missing_right a b d e = sym (mul-add a d b) ∙ ap (λ (x : ℕ). a * x) e

-- Whether the operands are read with signs does not show in the low word of the product.
pub wrap-signed :
    (a b : ℕ) → a < 2 ^ 64 → b < 2 ^ 64 → wrap 64 (signed 64 a *ℤ signed 64 b) ≡ a * b % 2 ^ 64
wrap-signed a b ha hb = by_signs (ltb a (2 ^ 63)) (ltb b (2 ^ 63)) refl refl
  where
    rest : (x : ℕ) → x < 2 ^ 64 → suc (2 ^ 64 - x - 1) + x ≡ 2 ^ 64
    rest x h = omega arith

    c : ℕ
    c = suc (2 ^ 64 - a - 1)

    d : ℕ
    d = suc (2 ^ 64 - b - 1)

    by_signs :
        (sa sb : Bool)
        → ltb a (2 ^ 63) ≡ sa
        → ltb b (2 ^ 63) ≡ sb
        → wrap 64 (
            (if sa then pos a else negsuc (2 ^ 64 - a - 1))
            *ℤ (if sb then pos b else negsuc (2 ^ 64 - b - 1)))
          ≡ a * b % 2 ^ 64
    by_signs true true ea eb = refl
    by_signs true false ea eb = wrap64_neg (a * d) (a * b) a (missing_right a b d (rest b hb))
    by_signs false true ea eb = wrap64_neg (c * b) (a * b) b (missing a c b (rest a ha))
    by_signs false false ea eb =
        omega (arith, missing_right c b d (rest b hb), missing a c b (rest a ha))

module _ ⦃p : Pymtl⦄ where
  pub signed-sext : (x : ℕ) → x < 2 ^ 32 → signed 64 (p.sext 32 64 x) ≡ signed 32 x
  signed-sext x h = rw (p.sext_law 32 64 x) (ground arith)
