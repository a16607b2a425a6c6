-- ===== src/CoreAlu/Shift.antt =====
-- The shifts of the ALU against the shifts of integers.
use lizard.Prelude.{
  ℕ, zero, suc, ◌+◌, ◌-◌, ◌*◌, ◌/◌, ◌%◌, ◌^◌, ◌≤◌, ◌<◌, ◌≡◌, sym, ap, ◌∙◌, arith, ltb,
  if◌then◌else◌,
}
use lizard.Prelude.Int.{shift_right}
use lizard.BitLaws.Masks.{two_pow_pos}
use native.Mathlib.Decide.{dec_lt}
use native.Mathlib.Nat.{
  pow-succ', div-le_self, div-add-mod', mod-lt, div-lt_iff_lt-mul, mul-add-div, div-eq_of_lt,
}
use lizard.Pymtl.{signed, wrap}

-- Division rounds a number near a multiple of the divisor up from below.
div_minus : (m n u : ℕ) → 0 < m → u < m * n → (m * n - 1 - u) / m ≡ n - 1 - u / m
div_minus m n u pos_m below =
    let q = u / m in
    let r = u % m in
    let split : q * m + r ≡ u = div-add-mod' u m in
    let small : r < m = mod-lt u pos_m in
    let q_small : q < n = (div-lt_iff_lt-mul pos_m).1 (grind arith) in
    let x = n - 1 - q in
    let n_split : n ≡ x + q + 1 = omega arith in
    let product : m * n ≡ m * x + q * m + m = ap (λ k. m * k) n_split ∙ grind arith in
    let whole : m * n - 1 - u ≡ m * x + (m - 1 - r) = omega (arith, product, split, small) in
    ap (λ k. k / m) whole
    ∙ mul-add-div pos_m x (m - 1 - r)
    ∙ omega (arith, div-eq_of_lt {n = m - 1 - r} {m = m} (omega (arith, small)))

pow_split : (k d : ℕ) → 2 ^ k * 2 ^ d ≡ 2 ^ (d + k)
pow_split k zero = let e : 0 + k ≡ k = omega arith in omega (arith, ap (λ j. 2 ^ j) e)
pow_split k (suc d) =
    let e : suc d + k ≡ suc (d + k) = omega arith in
    let double : 2 ^ k * (2 * 2 ^ d) ≡ 2 * (2 ^ k * 2 ^ d) = grind arith in
    ap (λ j. 2 ^ k * j) (pow-succ' 2 d)
    ∙ double
    ∙ ap (λ j. 2 * j) (pow_split k d)
    ∙ sym (ap (λ j. 2 ^ j) e ∙ pow-succ' 2 (d + k))

-- The logical shift of a sign-extended number, cut to 64 bits, is the arithmetic shift.
pub shift_signed :
    (a k : ℕ)
    → a < 2 ^ 64
    → k < 64
    → (if ltb a (2 ^ 63) then a else a + 2 ^ 128 - 2 ^ 64) / 2 ^ k % 2 ^ 64
      ≡ wrap 64 (shift_right (signed 64 a) k)
shift_signed a k ha hk = elim (dec_lt a (2 ^ 63)) [
  | yes p ↦ ground arith
  | no q ↦
      let u = 2 ^ 64 - a - 1 in
      let m = 2 ^ k in
      let c = 2 ^ (64 - k) in
      let pos_m : 0 < m = two_pow_pos k in
      let pos_c : 0 < c = two_pow_pos (64 - k) in
      let whole : 64 - k + k ≡ 64 = omega arith in
      let e64 : m * c ≡ 2 ^ 64 = pow_split k (64 - k) ∙ ap (λ j. 2 ^ j) whole in
      let e128 : m * (c * 2 ^ 64) ≡ 2 ^ 128 = grind arith in
      let near : a + 2 ^ 128 - 2 ^ 64 ≡ m * (c * 2 ^ 64) - 1 - u = omega (arith, e128) in
      let quotient : (a + 2 ^ 128 - 2 ^ 64) / m ≡ c * 2 ^ 64 - 1 - u / m =
        ap (λ j. j / m) near ∙ div_minus m (c * 2 ^ 64) u pos_m (omega (arith, e128)) in
      let v : u / m ≤ u = div-le_self u m in
      let low : (c * 2 ^ 64 - 1 - u / m) % 2 ^ 64 ≡ 2 ^ 64 - 1 - u / m = omega (arith, v, pos_c) in
      ground (arith, quotient, low, v)
]
