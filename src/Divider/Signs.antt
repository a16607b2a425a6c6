-- ===== src/Divider/Signs.antt =====
-- The signs of a division: magnitudes go in, and results are negated, as the instructions want.
use lizard.Prelude.{ℕ, zero, suc, ◌+◌, ◌-◌, ◌*◌, ◌/◌, ◌%◌, ◌^◌, ◌<◌, ◌==◌, arith}
use lizard.Prelude.{pow-suc, Bool, true, false, not, ◌&&◌, ◌≡◌, refl, if◌then◌else◌, ◌∙◌}
use lizard.Prelude.{mod_once, mod_below}
use lizard.Prelude.Int.{ℤ, pos, negsuc, neg, abs, ltb_ℤ}
use native.Mathlib.Nat.{mod_self, div-le_self, mod-le, div-one, mod-one}
use lizard.BitLaws.Masks.{two_pow_pos}
use lizard.Pymtl.{Pymtl, signed, wrap}
use lizard.Semantics.Divide.{sign}
use lizard.Semantics.Divide.Total.{quotient, remainder}
use lizard.Divider.{differ, complement, magnitude}
use lizard.Divider.Iterate.{bit_top}
use lizard.Divider.Finish.{quotient_of, rem_of}

-- The number that an argument of `w` bits stands for.
abbrev pub operand : ℕ → Bool → ℕ → ℤ
operand w is_signed x = if is_signed then signed w x else pos x

abbrev pub is_neg : ℤ → Bool
is_neg z = ltb_ℤ z (pos 0)

module _ ⦃p : Pymtl⦄ where
  pub complement-neg : (w q : ℕ) → q < 2 ^ w → complement w q ≡ wrap w (neg q)
  unfolding complement
  complement-neg w zero h =
      rw (p.add_law, p.inv_law)
        (let e : 2 ^ w - 1 - 0 + 1 ≡ 2 ^ w = omega arith in
          rw e (mod_self (2 ^ w) ∙ omega (arith, mod_below 0 (2 ^ w))))
  complement-neg w (suc n) h =
      rw (p.add_law, p.inv_law)
        (omega (
          arith,
          mod_below (2 ^ w - 1 - suc n + 1) (2 ^ w) (omega arith),
          mod_below n (2 ^ w) (omega arith),
        ))

  pub is_neg_lem :
      (k x : ℕ) (is_signed : Bool)
      → x < 2 ^ suc k
      → (is_signed && p.index x (suc k - 1)) ≡ is_neg (operand (suc k) is_signed x)
  is_neg_lem k x false h = ground arith
  is_neg_lem k x true h =
      let e : suc k - 1 ≡ k = omega arith in rw (e, p.index_law, bit_top k x h) (ground arith)

  pub magnitude-abs :
      (k x : ℕ) (is_signed : Bool)
      → x < 2 ^ suc k
      → magnitude (suc k) is_signed x ≡ abs (operand (suc k) is_signed x)
  unfolding magnitude complement
  magnitude-abs k x false h = ground arith
  magnitude-abs k x true h =
      let e : suc k - 1 ≡ k = omega arith in
      rw (e, p.index_law, bit_top k x h, p.add_law, p.inv_law)
        (ground (arith, pow-suc 2 k, two_pow_pos k, mod_below (2 ^ suc k - 1 - x + 1) (2 ^ suc k)))

  pub quotient-wrap :
      (k : ℕ) (a b : ℤ)
      → abs a < 2 ^ suc k
      → (let q = quotient_of (suc k) (abs a) (abs b) in
          if differ (is_neg b) (is_neg a) && not (abs b == 0) then complement (suc k) q else q)
        ≡ wrap (suc k) (quotient a b (suc k))
  unfolding quotient sign
  quotient-wrap k (pos a) (pos b) h = ground (
    arith,
    div-le_self a b,
    mod_below (a / b) (2 ^ suc k),
    two_pow_pos (suc k),
    mod_below 0 (2 ^ suc k),
  )
  quotient-wrap k (pos a) (negsuc b) h =
      ground (arith, div-le_self a (suc b), complement-neg (suc k) (a / suc b))
  quotient-wrap k (negsuc a) (pos b) h = ground (
    arith,
    div-le_self (suc a) b,
    complement-neg (suc k) (suc a / b),
    two_pow_pos (suc k),
    mod_below 0 (2 ^ suc k),
  )
  quotient-wrap k (negsuc a) (negsuc b) h = ground (
    arith,
    div-le_self (suc a) (suc b),
    mod_below (suc a / suc b) (2 ^ suc k),
    pow-suc 2 k,
    two_pow_pos k,
    div-one (suc a),
    mod_below a (2 ^ suc k),
  )

  slice_low : (k a : ℕ) → p.slice a 0 (suc k) ≡ a % 2 ^ suc k
  slice_low k a =
      let e : suc k - 0 ≡ suc k = omega arith in
      let f : a / 2 ^ 0 ≡ a = omega arith in rw (p.slice_law, e, f) refl

  -- The low bits of a remainder that may be negated with a bit more.
  low_neg :
      (k r : ℕ)
      → r < 2 ^ suc k
      → p.slice (complement (suc (suc k)) r) 0 (suc k) ≡ wrap (suc k) (neg r)
  low_neg k zero h =
      rw (slice_low k, complement-neg (suc (suc k)) 0 (omega (arith, two_pow_pos (suc (suc k)))))
        (omega (
          arith,
          mod_below 0 (2 ^ suc k) (omega arith),
          mod_below 0 (2 ^ suc (suc k)) (omega (arith, two_pow_pos (suc (suc k)))),
        ))
  low_neg k (suc n) h =
      let w : 2 ^ suc (suc k) ≡ 2 * 2 ^ suc k = omega (arith, pow-suc 2 (suc k)) in
      let e : n % 2 ^ suc (suc k) ≡ n = mod_below n (2 ^ suc (suc k)) (omega (arith, w)) in
      rw (slice_low k, complement-neg (suc (suc k)) (suc n) (omega (arith, w)), e)
        (omega (
          arith,
          w,
          mod_below n (2 ^ suc k) (omega arith),
          mod_once (2 ^ suc (suc k) - 1 - n) (2 ^ suc k) (omega (arith, w)) (omega (arith, w)),
        ))

  low_pos : (k r : ℕ) → r < 2 ^ suc k → p.slice r 0 (suc k) ≡ wrap (suc k) (pos r)
  low_pos k r h = slice_low k r

  pub rem-wrap :
      (k : ℕ) (a b : ℤ)
      → abs a < 2 ^ suc k
      → (let r = rem_of (abs a) (abs b) in
          p.slice (if is_neg a then complement (suc (suc k)) r else r) 0 (suc k))
        ≡ wrap (suc k) (remainder a b (suc k))
  unfolding remainder sign
  rem-wrap k (pos a) (pos b) h = ground (arith, mod-le a b, low_pos k a, low_pos k (a % b))
  rem-wrap k (pos a) (negsuc b) h = ground (arith, mod-le a (suc b), low_pos k (a % suc b))
  rem-wrap k (negsuc a) (pos b) h =
      ground (arith, mod-le (suc a) b, low_neg k (suc a), low_neg k (suc a % b))
  rem-wrap k (negsuc a) (negsuc b) h =
      ground (arith, mod-le (suc a) (suc b), mod-one (suc a), low_neg k (suc a % suc b))
