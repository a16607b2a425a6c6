-- ===== src/Divider/Rounds.antt =====
-- All iterations of the divider: they leave the quotient and the remainder.
use lizard.Prelude.{ℕ, zero, suc, ◌+◌, ◌-◌, ◌*◌, ◌^◌, ◌<◌, leb, arith}
use lizard.Prelude.{Bool, true, ◌≡◌, refl, to_bit, if◌then◌else◌}
use native.Mathlib.Nat.{mul_assoc, le-mul_of_pos_right}
use lizard.BitLaws.Masks.{mul_two_pow, two_pow_pos}
use lizard.Pymtl.{Pymtl}
use mathlib.Core.Path.{subst}
use lizard.Divider.{iterate, eval}
use lizard.Divider.Iterate.{
  IsPartial, next_acc, next_dividend, iterate_pos, iterate_zero, to_bit-le,
}
use lizard.Divider.Split.{
  rest_of, rest_split, IsPartial-next, rest_of_lem, split_next, holds_next, divides_next,
}

-- What has been done of a division of `x` with `m` iterations to go: the bits of `x` above the low
-- `m` are divided (they are `a`), and those below (`rest`) stand above the quotient's bits in the
-- register `dividend`. How `a`, the quotient `q` of `scale` bits, and `acc` belong together is `R`.
pub record Progress (R : ℕ → ℕ → ℕ → ℕ → Type 0) (k x m acc dividend : ℕ) : Type 0 where
  pub a : ℕ
  pub rest : ℕ
  pub q : ℕ
  pub scale : ℕ
  pub split : x ≡ a * 2 ^ m + rest
  pub rest_low : rest < 2 ^ m
  pub scales : scale * 2 ^ m ≡ 2 ^ suc k
  pub holds : dividend ≡ rest * scale + q
  pub q_low : q < scale
  pub relation : R a q scale acc

-- With a divisor other than 0, `q` is the quotient and `acc` a partial remainder.
abbrev pub Divides : ℕ → ℕ → ℕ → ℕ → ℕ → ℕ → Type 0
Divides k d a q scale acc = (r : ℕ) × (a ≡ q * d + r) × IsPartial k d r acc

-- With the divisor 0, the quotient has ones only, and the remainder is the number.
abbrev pub DividesZero : ℕ → ℕ → ℕ → ℕ → Type 0
DividesZero a q scale acc = (acc ≡ a) × (q + 1 ≡ scale)

module _ ⦃p : Pymtl⦄ where
  iterate_bit :
      (k d r acc dividend : ℕ) (b : Bool)
      → d < 2 ^ suc k
      → dividend < 2 ^ suc k
      → IsPartial k d r acc
      → leb (2 ^ k) dividend ≡ b
      → iterate (suc k) d (acc, dividend)
        ≡ (next_acc k d (2 * r + to_bit b), next_dividend k dividend (leb d (2 * r + to_bit b)))
  iterate_bit k d r acc dividend b hd h part e = rw (← e) (iterate_pos k d r acc dividend hd h part)

  -- An iteration keeps the relation.
  abbrev pub Keeps : (ℕ → ℕ → ℕ → ℕ → Type 0) → ℕ → ℕ → Type 0
  Keeps R k d =
      (a q scale acc dividend : ℕ) (b : Bool)
      → dividend < 2 ^ suc k
      → leb (2 ^ k) dividend ≡ b
      → 2 * a + to_bit b < 2 ^ suc k
      → R a q scale acc
      → (n : ℕ) × (f : Bool) × (iterate (suc k) d (acc, dividend) ≡ (n, next_dividend k dividend f))
        × R (2 * a + to_bit b) (2 * q + to_bit f) (2 * scale) n

  pub Divides-Keeps : (k d : ℕ) → d < 2 ^ suc k → Keeps (Divides k d) k d
  Divides-Keeps k d hd a q scale acc dividend b h top bound (r, e, part) =
      let r2 = 2 * r + to_bit b in
      (
        next_acc k d r2,
        leb d r2,
        iterate_bit k d r acc dividend b hd h part top,
        (
          if leb d r2 then r2 - d else r2,
          divides_next a q r d (to_bit b) e,
          IsPartial-next k d r2 hd (omega (arith, part.0, to_bit-le b)),
        ),
      )

  pub DividesZero-Keeps : (k : ℕ) → Keeps DividesZero k 0
  DividesZero-Keeps k a q scale acc dividend b h top bound (e, ones) = (
    2 * a + to_bit b,
    true,
    rw (e, ← top) (iterate_zero k a dividend h (rw top bound)),
    (refl, omega arith),
  )

  Progress-iterate :
      (R : ℕ → ℕ → ℕ → ℕ → Type 0) (k d x m acc dividend : ℕ)
      → Keeps R k d
      → x < 2 ^ suc k
      → Progress R k x (suc m) acc dividend
      → (n : ℕ) × (dividend' : ℕ) × (iterate (suc k) d (acc, dividend) ≡ (n, dividend'))
        × Progress R k x m n dividend'
  Progress-iterate R k d x m acc dividend keeps hx g =
      let (top, low, parts, rest_low) =
        rest_split k m g.rest g.scale g.q g.rest_low g.scales g.q_low in
      let b = leb (2 ^ m) g.rest in
      let rest' = rest_of m g.rest in
      let divided : x ≡ (2 * g.a + to_bit b) * 2 ^ m + rest' =
        split_next x g.a g.rest rest' m b g.split (rest_of_lem m g.rest) in
      let bound : 2 * g.a + to_bit b < 2 ^ suc k =
        omega (arith, divided, le-mul_of_pos_right (2 * g.a + to_bit b) (two_pow_pos m)) in
      let (n, f, e, relation) =
        keeps g.a g.q g.scale acc dividend b (rw g.holds low) (rw g.holds top) bound g.relation in
      (
        n,
        next_dividend k dividend f,
        e,
        record {
          a = 2 * g.a + to_bit b;
          rest = rest';
          q = 2 * g.q + to_bit f;
          scale = 2 * g.scale;
          split = divided;
          rest_low = rest_low;
          scales =
              rw (mul_assoc 2 g.scale (2 ^ m)) (omega (arith, g.scales, mul_two_pow g.scale m));
          holds = holds_next k dividend g.rest rest' g.scale g.q b f g.holds (rw g.holds top) parts;
          q_low = omega (arith, g.q_low, to_bit-le f);
          relation = relation;
        },
      )

  -- `n` iterations of `t`.
  pub Progress-eval :
      (R : ℕ → ℕ → ℕ → ℕ → Type 0) (k d x n m t acc dividend : ℕ)
      → Keeps R k d
      → x < 2 ^ suc k
      → t ≡ n + m
      → Progress R k x t acc dividend
      → (acc' : ℕ) × (dividend' : ℕ) × (eval (suc k) n d (acc, dividend) ≡ (acc', dividend'))
        × Progress R k x m acc' dividend'
  unfolding eval
  Progress-eval R k d x zero m t acc dividend keeps hx e g =
      let same : t ≡ m = omega arith in
      (acc, dividend, refl, subst (λ t. Progress R k x t acc dividend) same g)
  Progress-eval R k d x (suc n) m zero acc dividend keeps hx e g = absurd (omega arith)
  Progress-eval R k d x (suc n) m (suc t) acc dividend keeps hx e g =
      let (acc1, dividend1, once, g1) = Progress-iterate R k d x t acc dividend keeps hx g in
      let (acc2, dividend2, others, g2) =
        Progress-eval R k d x n m t acc1 dividend1 keeps hx (omega arith) g1 in
      (acc2, dividend2, rw once others, g2)
