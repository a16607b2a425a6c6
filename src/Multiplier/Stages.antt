-- ===== src/Multiplier/Stages.antt =====
-- The arithmetic of the stages: what a stage writes stands for the product that it is a part of.
use lizard.Prelude.{ℕ, zero, suc, ◌+◌, ◌-◌, ◌*◌, ◌/◌, ◌%◌, ◌^◌, ◌≤◌, ◌<◌, ltb, arith}
use lizard.Prelude.{Bool, ◌&&◌, if◌then◌else◌, ◌≡◌, refl, sym, ap, ◌∙◌}
use lizard.Prelude.{pow-suc, mod_below, Bool-cases, inl, inr}
use native.Mathlib.Nat.{
  mod-add-mod, add-mod-mod, mod-add-div', add-mul, mul_assoc, mul_comm, add-mul-mod_self_right,
  mul-add, mul-le-mul_left, mul-lt-mul_of_pos_right, pow-le-pow_right, mul-suc, div-lt_iff_lt-mul,
}
use lizard.BitLaws.Masks.{two_pow_pos, two_pow_lt}
use lizard.Pymtl.{Pymtl}
use lizard.Divider.{complement}
use lizard.Multiplier.{
  Source, called, before, mult_res, src_usign, sign_in, stage_write, last_write,
}

pub mod_mul : (x b n : ℕ) → (x % n * b) % n ≡ (x * b) % n
mod_mul x b n =
    let e : x * b ≡ x % n * b + x / n * b * n =
      ap (λ (y : ℕ). y * b) (sym (mod-add-div' x n))
      ∙ add-mul (x % n) (x / n * n) b
      ∙ ap (λ (y : ℕ). x % n * b + y)
          (mul_assoc (x / n) n b
            ∙ ap (λ (y : ℕ). x / n * y) (mul_comm n b)
            ∙ sym (mul_assoc (x / n) b n)) in
    sym (ap (λ (y : ℕ). y % n) e ∙ add-mul-mod_self_right (x % n * b) (x / n * b) n)

-- The low bits of the second operand and the rest.
split_plain : (u v x : ℕ) → u * (v % x) + u * (v / x) * x ≡ u * v
split_plain u v x =
    ap (λ (y : ℕ). u * (v % x) + y) (mul_assoc u (v / x) x)
    ∙ sym (mul-add u (v % x) (v / x * x))
    ∙ ap (λ (y : ℕ). u * y) (mod-add-div' v x)

split_product : (u v x b : ℕ) → u * (v % x) * b + u * (v / x) * (b * x) ≡ u * v * b
split_product u v x b =
    ap (λ (y : ℕ). u * (v % x) * b + y)
      (ap (λ (y : ℕ). u * (v / x) * y) (mul_comm b x) ∙ sym (mul_assoc (u * (v / x)) x b))
    ∙ sym (add-mul (u * (v % x)) (u * (v / x) * x) b)
    ∙ ap (λ (y : ℕ). y * b) (split_plain u v x)

-- Reductions inside a sum do not matter.
pub mod_inside : (a x b c n : ℕ) → ((a + x % n * b % n) % n + c) % n ≡ (a + (x * b + c)) % n
mod_inside a x b c n =
    mod-add-mod (a + x % n * b % n) n c
    ∙ ap (λ (y : ℕ). (a + y + c) % n) (mod_mul x b n)
    ∙ sym (mod-add-mod (a + x * b % n) n c)
    ∙ ap (λ (y : ℕ). (y + c) % n) (add-mod-mod a (x * b) n)
    ∙ mod-add-mod (a + x * b) n c
    ∙ ap (λ (y : ℕ). y % n) (omega arith)

-- A stage adds the product with the low bits of the second operand; the product with the rest stays.
pub recombine :
    (a u v x b n : ℕ)
    → ((a + u * (v % x) % n * b % n) % n + u * (v / x) * (b * x)) % n ≡ (a + u * v * b) % n
recombine a u v x b n =
    mod_inside a (u * (v % x)) b (u * (v / x) * (b * x)) n
    ∙ ap (λ (y : ℕ). (a + y) % n) (split_product u v x b)

pub pow_add : (a b : ℕ) → 2 ^ (a + b) ≡ 2 ^ a * 2 ^ b
pow_add a zero = let e : a + 0 ≡ a = omega arith in rw e (omega arith)
pow_add a (suc b) =
    let e : a + suc b ≡ suc (a + b) = omega arith in
    rw (e, pow-suc 2 b, pow-suc 2 (a + b), pow_add a b) (mul_assoc (2 ^ a) (2 ^ b) 2)

mul_lt : (u v a b : ℕ) → u < a → v < b → u * v < a * b
mul_lt u v a b hu hv =
    let le : v ≤ b = omega arith in
    let positive : 0 < b = omega arith in
    omega (arith, mul-le-mul_left u le, mul-lt-mul_of_pos_right hu positive)

module _ ⦃p : Pymtl⦄ (m k n : ℕ) (k≤m : k ≤ m) where
  -- The product of operands of `m` and `k` bits, as far as `n` bits hold it.
  pub mult_res_lem : (u v : ℕ) → u < 2 ^ m → v < 2 ^ k → mult_res m k n u v ≡ u * v % 2 ^ n
  unfolding mult_res
  mult_res_lem u v hu hv =
      let small : u * v < 2 ^ (m + k) = rw (pow_add m k) (mul_lt u v (2 ^ m) (2 ^ k) hu hv) in
      let wide : 2 ^ (m + k) ≤ 2 ^ (2 * m) = pow-le-pow_right (omega arith) (omega arith) in
      let exact : p.mul m u v % 2 ^ (m + k) ≡ u * v =
        rw
          (
            p.mul_law,
            mod_below (u * v) (2 ^ (2 * m)) (omega arith),
            mod_below (u * v) (2 ^ (m + k)) small,
          )
          refl in
      let all : u * v / 2 ^ 0 ≡ u * v = omega arith in
      let width : n - 0 ≡ n = omega arith in
      rw exact (elim (Bool-cases (ltb (m + k) n)) [
        | inl e ↦ rw e (
            sym
              (mod_below (u * v) (2 ^ n) (omega (arith, two_pow_lt (m + k) n (ground (arith, e))))))
        | inr e ↦ rw (e, p.slice_law, all, width) refl
      ])

  -- The number that leaves the multiplier with a sign.
  abbrev pub signed_out : Bool → ℕ → ℕ
  signed_out sign v = if sign then complement n v else v

  -- What a source of stage `i` stands for.
  unfoldable pub source_value : ℕ → Source → ℕ
  unfolding src_usign sign_in
  source_value i (called a) =
      signed_out (sign_in m k n a)
        (src_usign m k n a.src1_signed a.src1 * src_usign m k n a.src2_signed a.src2 % 2 ^ n)
  source_value i (before w) = signed_out w.sign ((w.val + w.src1 * w.src2 * 2 ^ (k * i)) % 2 ^ n)

  -- What the registers before stage `i` hold fits the stages that are left, `r` of them.
  abbrev pub IsFit : ℕ → ℕ → Source → Type 0
  IsFit i r (called a) = (i ≡ 0) × (a.src1 < 2 ^ m) × (a.src2 < 2 ^ m) × (m ≡ k * r)
  IsFit i r (before w) = (w.src1 < 2 ^ m) × (w.src2 < 2 ^ (k * r))

  pub src_usign-lt : (s : Bool) (x : ℕ) → x < 2 ^ m → src_usign m k n s x < 2 ^ m
  unfolding src_usign complement
  src_usign-lt s x h = elim (Bool-cases (p.index x (m - 1) && s)) [
    | inl e ↦ rw (e, p.add_law) (omega (arith, two_pow_pos m))
    | inr e ↦ rw e h
  ]

  low : (v : ℕ) → p.slice v 0 k ≡ v % 2 ^ k
  low v =
      let e : v / 2 ^ 0 ≡ v = omega arith in
      let f : k - 0 ≡ k = omega arith in rw (p.slice_law, e, f) refl

  unit_lem : (u v : ℕ) → u < 2 ^ m → mult_res m k n u (p.slice v 0 k) ≡ u * (v % 2 ^ k) % 2 ^ n
  unit_lem u v h = rw (low v) (mult_res_lem u (v % 2 ^ k) h (omega (arith, two_pow_pos k)))

  step_scale : (i : ℕ) → 2 ^ (k * suc i) ≡ 2 ^ (k * i) * 2 ^ k
  step_scale i = let e : k * suc i ≡ k * i + k = mul-suc k i in rw e (pow_add (k * i) k)

  rest-lt : (v r : ℕ) → v < 2 ^ (k * suc r) → v / 2 ^ k < 2 ^ (k * r)
  rest-lt v r h = (div-lt_iff_lt-mul (omega (arith, two_pow_pos k))).1 (rw (sym (step_scale r)) h)

  pub IsFit-stage_write :
      (i r : ℕ) (src : Source)
      → IsFit i (suc r) src
      → IsFit (suc i) r (before (stage_write m k n i src))
  unfolding stage_write
  IsFit-stage_write i r (called a) (e, h1, h2, w) =
      let bound : src_usign m k n a.src2_signed a.src2 < 2 ^ (k * suc r) =
        rw (sym w) (src_usign-lt a.src2_signed a.src2 h2) in
      (src_usign-lt a.src1_signed a.src1 h1, rw p.shr_law (rest-lt _ r bound))
  IsFit-stage_write i r (before w) (h1, h2) = (h1, rw p.shr_law (rest-lt w.src2 r h2))

  pub source_value-stage_write :
      (i r : ℕ) (src : Source)
      → IsFit i (suc r) src
      → source_value (suc i) (before (stage_write m k n i src)) ≡ source_value i src
  unfolding stage_write source_value
  source_value-stage_write i r (called a) (e, h1, h2, w) =
      let u = src_usign m k n a.src1_signed a.src1 in
      let v = src_usign m k n a.src2_signed a.src2 in
      let unit : mult_res m k n u (p.slice v 0 k) ≡ u * (v % 2 ^ k) % 2 ^ n =
        unit_lem u v (src_usign-lt a.src1_signed a.src1 h1) in
      let one : 2 ^ (k * suc i) ≡ 2 ^ k = let f : k * suc i ≡ k = rw e (omega arith) in rw f refl in
      ap (signed_out (sign_in m k n a)) (
        rw (unit, p.shr_law, one)
          (mod-add-mod (u * (v % 2 ^ k)) (2 ^ n) _
            ∙ ap (λ (y : ℕ). y % 2 ^ n) (split_plain u v (2 ^ k))))
  source_value-stage_write i r (before w) (h1, h2) = ap (signed_out w.sign) (
      rw (unit_lem w.src1 w.src2 h1, p.add_law, p.shl_law, p.shr_law, step_scale i)
        (recombine w.val w.src1 w.src2 (2 ^ k) (2 ^ (k * i)) (2 ^ n)))

  pub last_write-source_value :
      (i : ℕ) (src : Source) → IsFit i 1 src → last_write m k n i src ≡ source_value i src
  unfolding last_write source_value
  last_write-source_value i (called a) (e, h1, h2, w) =
      let v = src_usign m k n a.src2_signed a.src2 in
      let all : m ≡ k = w ∙ (omega arith) in
      let bound : v < 2 ^ k = rw (sym all) (src_usign-lt a.src2_signed a.src2 h2) in
      ap (signed_out (sign_in m k n a))
        (rw (unit_lem _ v (src_usign-lt a.src1_signed a.src1 h1), mod_below v (2 ^ k) bound) refl)
  last_write-source_value i (before w) (h1, h2) =
      let one : k * 1 ≡ k = omega arith in
      let bound : w.src2 < 2 ^ k = rw (ap (λ (e : ℕ). 2 ^ e) (sym one)) h2 in
      ap (signed_out w.sign) (
        rw (unit_lem w.src1 w.src2 h1, mod_below w.src2 (2 ^ k) bound, p.add_law, p.shl_law)
          (ap (λ (y : ℕ). (w.val + y) % 2 ^ n) (mod_mul (w.src1 * w.src2) (2 ^ (k * i)) (2 ^ n))
            ∙ add-mod-mod w.val (w.src1 * w.src2 * 2 ^ (k * i)) (2 ^ n)))
