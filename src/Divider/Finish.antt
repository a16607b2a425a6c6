-- ===== src/Divider/Finish.antt =====
-- The first and the last iteration of the divider.
use lizard.Prelude.{ℕ, zero, suc, ◌+◌, ◌-◌, ◌*◌, ◌/◌, ◌%◌, ◌^◌, ◌<◌, ◌==◌, arith, ap}
use lizard.Prelude.{pow-suc, ◌≡◌, refl, if◌then◌else◌, inl, inr, ◌∙◌}
use lizard.Prelude.{mod_once}
use lizard.Prelude.{suc-eqb_zero}
use native.Mathlib.Nat.{mul-add-div_right, mul-add-mod_self_right, div-eq_of_lt, mod-eq_of_lt}
use lizard.Pymtl.{Pymtl}
use lizard.Divider.Iterate.{IsPartial, bit_top}
use lizard.Divider.Rounds.{Progress, Divides, DividesZero, Keeps, Divides-Keeps, DividesZero-Keeps}

-- The unsigned results.
abbrev pub quotient_of : ℕ → ℕ → ℕ → ℕ
quotient_of dlen x d = if d == 0 then 2 ^ dlen - 1 else x / d

abbrev pub rem_of : ℕ → ℕ → ℕ
rem_of x d = if d == 0 then x else x % d

abbrev pub Relation : ℕ → ℕ → ℕ → ℕ → ℕ → ℕ → Type 0
Relation k zero = DividesZero
Relation k (suc d) = Divides k (suc d)

module _ ⦃p : Pymtl⦄ where
  pub Relation-Keeps : (k d : ℕ) → d < 2 ^ suc k → Keeps ⦃p = p⦄ (Relation k d) k d
  Relation-Keeps k zero h = DividesZero-Keeps k
  Relation-Keeps k (suc d) h = Divides-Keeps k (suc d) h

Relation-start : (k d : ℕ) → Relation k d 0 0 1 0
Relation-start k zero = (refl, refl)
Relation-start k (suc d) = (0, omega arith, (omega arith, inl refl))

pub Progress-start : (k d x : ℕ) → x < 2 ^ suc k → Progress (Relation k d) k x (suc k) 0 x
Progress-start k d x h = record {
  a = 0;
  rest = x;
  q = 0;
  scale = 1;
  split = omega arith;
  rest_low = h;
  scales = omega arith;
  holds = omega arith;
  q_low = omega arith;
  relation = Relation-start k d;
}

rest_none : (rest scale : ℕ) → rest < 2 ^ 0 → rest * scale ≡ 0
rest_none rest scale h = let e : rest ≡ 0 = omega arith in rw e (omega arith)

-- The quotient and the remainder are the numbers that divide.
div_unique : (x q r d : ℕ) → x ≡ q * d + r → r < d → (x / d ≡ q) × (x % d ≡ r)
div_unique x q r d e h =
    let pos : 0 < d = omega arith in
    (
      ap (λ (t : ℕ). t / d) e ∙ mul-add-div_right pos q r ∙ omega (arith, div-eq_of_lt h),
      ap (λ (t : ℕ). t % d) e ∙ mul-add-mod_self_right q d r ∙ mod-eq_of_lt h,
    )

module _ ⦃p : Pymtl⦄ where
  corrected_zero :
      (k acc x : ℕ)
      → acc ≡ x
      → x < 2 ^ suc k
      → (if p.index acc (suc k) then p.add (suc (suc k)) acc 0 else acc) ≡ x
  corrected_zero k acc x e h =
      rw (p.index_law, bit_top (suc k) acc (omega (arith, pow-suc 2 (suc k)))) (ground arith)

  corrected_pos :
      (k d r acc : ℕ)
      → d < 2 ^ suc k
      → IsPartial k d r acc
      → (if p.index acc (suc k) then p.add (suc (suc k)) acc d else acc) ≡ r
  corrected_pos k d r acc hd (lt, inl e) =
      rw (p.index_law, bit_top (suc k) acc (omega (arith, pow-suc 2 (suc k)))) (ground arith)
  corrected_pos k d r acc hd (lt, inr e) =
      rw (p.index_law, bit_top (suc k) acc (omega (arith, pow-suc 2 (suc k))), p.add_law)
        (ground (arith, pow-suc 2 (suc k), mod_once (acc + d) (2 ^ suc (suc k))))

  pub Progress-finish :
      (k d x acc dividend : ℕ)
      → d < 2 ^ suc k
      → x < 2 ^ suc k
      → Progress (Relation k d) k x 0 acc dividend
      → (dividend ≡ quotient_of (suc k) x d)
        × ((if p.index acc (suc k) then p.add (suc (suc k)) acc d else acc) ≡ rem_of x d)
  Progress-finish k zero x acc dividend hd hx g =
      let (e, ones) = g.relation in
      let one : 2 ^ 0 ≡ 1 = refl in
      let small : acc ≡ x = omega (arith, g.split, g.rest_low, e) in
      (
        omega (arith, g.holds, g.rest_low, g.scales, ones, rest_none g.rest g.scale g.rest_low),
        corrected_zero k acc x small hx,
      )
  Progress-finish k (suc d) x acc dividend hd hx g =
      let (r, e, part) = g.relation in
      let whole : x ≡ g.q * suc d + r = omega (arith, g.split, g.rest_low, e) in
      let (quotient, rem) = div_unique x g.q r (suc d) whole part.0 in
      rw (suc-eqb_zero d, quotient, rem)
        (
          omega (arith, g.holds, rest_none g.rest g.scale g.rest_low),
          corrected_pos k (suc d) r acc hd part,
        )
