-- ===== src/Divider/Iterate.antt =====
-- An iteration of the divider, in arithmetic: the next partial remainder and the next quotient bit.
use lizard.Prelude.{ℕ, zero, suc, ◌+◌, ◌-◌, ◌*◌, ◌/◌, ◌%◌, ◌^◌, ◌≤◌, ◌<◌, leb, arith}
use lizard.Prelude.{bit_or, pow-suc, Bool, true, false, not, ◌≡◌, ◌⊎◌, refl, to_bit, if◌then◌else◌}
use lizard.Prelude.{mod_once, mod_below, ◌∙◌, Bool-cases, inl, inr, leb→le}
use lizard.BitLaws.Step.{bit_or_step}
use lizard.BitLaws.Digits.{bit}
use lizard.BitLaws.Masks.{bit_or-zero, lt_two_pow}
use lizard.Pymtl.{Pymtl}
use lizard.Divider.{iterate}

-- The top bit.
pub bit_top : (k a : ℕ) → a < 2 ^ suc k → bit a k ≡ leb (2 ^ k) a
bit_top zero a h = ground (arith, pow-suc 2 0)
bit_top (suc k) a h = ground (arith, pow-suc 2 (suc k), pow-suc 2 k, bit_top k (a / 2))

-- A bit moved in at the bottom.
pub bit_or_double : (x : ℕ) (b : Bool) → bit_or (2 * x) (to_bit b) ≡ 2 * x + to_bit b
bit_or_double x true = ground (arith, bit_or_step (2 * x) 1, bit_or-zero x x (lt_two_pow x))
bit_or_double x false = ground (arith, bit_or_step (2 * x) 0, bit_or-zero x x (lt_two_pow x))

-- A partial remainder: what is left, or that less the divisor in two's complement of `suc (suc k)` bits.
abbrev pub IsPartial : ℕ → ℕ → ℕ → ℕ → Type 0
IsPartial k d r acc = (r < d) × ((acc ≡ r) ⊎ (acc + d ≡ r + 2 ^ suc (suc k)))

pub to_bit-le : (b : Bool) → to_bit b ≤ 1
to_bit-le true = omega arith
to_bit-le false = omega arith

IsPartial-lt : (k d r acc : ℕ) → d < 2 ^ suc k → IsPartial k d r acc → acc < 2 ^ suc (suc k)
IsPartial-lt k d r acc hd (lt, inl e) = omega (arith, pow-suc 2 (suc k))
IsPartial-lt k d r acc hd (lt, inr e) = omega (arith, pow-suc 2 (suc k))

-- An accumulator of `suc (suc k)` bits after the shift that takes in `b`.
abbrev shifted : ℕ → ℕ → ℕ → ℕ
shifted k acc b = (if leb (2 ^ suc k) acc then 2 * acc - 2 ^ suc (suc k) else 2 * acc) + b

-- Twice a partial remainder with the next bit of the dividend, less the divisor: the next partial
-- remainder of a number, in two's complement.
abbrev pub next_acc : ℕ → ℕ → ℕ → ℕ
next_acc k d r2 = if leb d r2 then r2 - d else r2 + 2 ^ suc (suc k) - d

abbrev pub next_dividend : ℕ → ℕ → Bool → ℕ
next_dividend k dividend q =
    (if leb (2 ^ k) dividend then 2 * dividend - 2 ^ suc k else 2 * dividend) + to_bit q

not-not : (b : Bool) → not (not b) ≡ b
not-not true = refl
not-not false = refl

module _ ⦃p : Pymtl⦄ where
  -- `(a << 1) | b` at width `suc k`
  pub shift_in :
      (k a : ℕ) (b : Bool)
      → a < 2 ^ suc k
      → p.bor (p.shl (suc k) a 1) (to_bit b)
        ≡ (if leb (2 ^ k) a then 2 * a - 2 ^ suc k else 2 * a) + to_bit b
  shift_in k a b h =
      rw (p.bor_law, p.shl_law, shifted)
        (elim (Bool-cases (leb (2 ^ k) a)) [
          | inl high ↦ rw high (wrapped high)
          | inr low ↦ rw low (kept low)
        ])
    where
      shifted : a * 2 ^ 1 ≡ 2 * a
      shifted = omega (arith, pow-suc 2 0)

      wrapped :
          leb (2 ^ k) a ≡ true
          → bit_or (2 * a % 2 ^ suc k) (to_bit b) ≡ 2 * a - 2 ^ suc k + to_bit b
      wrapped high =
          let le : 2 ^ k ≤ a = leb→le _ _ high in
          let e : 2 * a % 2 ^ suc k ≡ 2 * (a - 2 ^ k) =
            mod_once (2 * a) (2 ^ suc k) (omega (arith, pow-suc 2 k)) (omega arith)
            ∙ omega (arith, pow-suc 2 k) in
          rw e (omega (arith, bit_or_double (a - 2 ^ k) b, pow-suc 2 k))

      kept : leb (2 ^ k) a ≡ false → bit_or (2 * a % 2 ^ suc k) (to_bit b) ≡ 2 * a + to_bit b
      kept low =
          let e : 2 * a % 2 ^ suc k ≡ 2 * a =
            mod_below (2 * a) (2 ^ suc k) (ground (arith, pow-suc 2 k)) in
          rw e (bit_or_double a b)

  -- `a + d` and `a - d` at width `w`
  add_wrapped :
      (w a d : ℕ)
      → a < 2 ^ w
      → d < 2 ^ w
      → p.add w a d ≡ (if leb (2 ^ w) (a + d) then a + d - 2 ^ w else a + d)
  add_wrapped w a d ha hd =
      rw (p.add_law) (ground (arith, mod_once (a + d) (2 ^ w), mod_below (a + d) (2 ^ w)))

  sub_wrapped :
      (w a d : ℕ) → a < 2 ^ w → d < 2 ^ w → p.sub w a d ≡ (if leb d a then a - d else a + 2 ^ w - d)
  sub_wrapped w a d ha hd =
      rw (p.sub_law)
        (ground (arith, mod_once (a + 2 ^ w - d) (2 ^ w), mod_below (a + 2 ^ w - d) (2 ^ w)))

  partial_cases :
      (k d r acc b : ℕ)
      → d < 2 ^ suc k
      → b ≤ 1
      → IsPartial k d r acc
      → (if leb (2 ^ suc k) acc
          then p.add (suc (suc k)) (shifted k acc b) d
          else p.sub (suc (suc k)) (shifted k acc b) d)
        ≡ next_acc k d (2 * r + b)
  partial_cases k d r acc b hd hb (lt, inl e) =
      ground (arith, e, pow-suc 2 (suc k), sub_wrapped (suc (suc k)) (2 * acc + b) d)
  partial_cases k d r acc b hd hb (lt, inr e) =
      ground
        (arith, e, pow-suc 2 (suc k), add_wrapped (suc (suc k)) (2 * acc - 2 ^ suc (suc k) + b) d)

  acc_next_lem :
      (k d r acc : ℕ) (b : Bool)
      → d < 2 ^ suc k
      → IsPartial k d r acc
      → (if bit acc (suc k)
          then p.add (suc (suc k)) (p.bor (p.shl (suc (suc k)) acc 1) (to_bit b)) d
          else p.sub (suc (suc k)) (p.bor (p.shl (suc (suc k)) acc 1) (to_bit b)) d)
        ≡ next_acc k d (2 * r + to_bit b)
  acc_next_lem k d r acc b hd h =
      let w : 2 ^ suc (suc k) ≡ 2 * 2 ^ suc k = omega (arith, pow-suc 2 (suc k)) in
      let low : to_bit b ≤ 1 = to_bit-le b in
      let below : acc < 2 ^ suc (suc k) = omega (arith, IsPartial-lt k d r acc hd h) in
      rw (bit_top (suc k) acc below, shift_in (suc k) acc b below)
        (partial_cases k d r acc (to_bit b) hd low h)

  next_acc_sign :
      (k d r2 : ℕ) → d < 2 ^ suc k → r2 < 2 * d → bit (next_acc k d r2) (suc k) ≡ not (leb d r2)
  next_acc_sign k d r2 hd h =
      bit_top (suc k) (next_acc k d r2) (ground (arith, pow-suc 2 (suc k)))
      ∙ ground (arith, pow-suc 2 (suc k))

  -- The dividend's register after an iteration that finds the quotient bit `q`.
  iterate_of :
      (k d acc dividend n : ℕ) (q : Bool)
      → dividend < 2 ^ suc k
      → (if bit acc (suc k)
          then p.add
              (suc (suc k))
              (p.bor (p.shl (suc (suc k)) acc 1) (to_bit (leb (2 ^ k) dividend)))
              d
          else p.sub
              (suc (suc k))
              (p.bor (p.shl (suc (suc k)) acc 1) (to_bit (leb (2 ^ k) dividend)))
              d)
        ≡ n
      → bit n (suc k) ≡ not q
      → iterate (suc k) d (acc, dividend) ≡ (n, next_dividend k dividend q)
  unfolding iterate
  iterate_of k d acc dividend n q h e f =
      let width : suc k + 1 ≡ suc (suc k) = omega arith in
      let top : suc k - 1 ≡ k = omega arith in
      rw
        (
          width,
          top,
          p.index_law,
          p.index_law,
          bit_top k dividend h,
          e,
          p.index_law,
          f,
          not-not q,
          shift_in k dividend q h,
        )
        refl

  -- An iteration with a divisor other than 0.
  pub iterate_pos :
      (k d r acc dividend : ℕ)
      → d < 2 ^ suc k
      → dividend < 2 ^ suc k
      → IsPartial k d r acc
      → let r2 = 2 * r + to_bit (leb (2 ^ k) dividend) in
        iterate (suc k) d (acc, dividend) ≡ (next_acc k d r2, next_dividend k dividend (leb d r2))
  iterate_pos k d r acc dividend hd h part =
      let b = leb (2 ^ k) dividend in
      iterate_of k d acc dividend _ (leb d (2 * r + to_bit b)) h (acc_next_lem k d r acc b hd part)
        (next_acc_sign k d (2 * r + to_bit b) hd (omega (arith, to_bit-le b, part.0)))

  zero_cases :
      (k acc b : ℕ)
      → 2 * acc + b < 2 ^ suc k
      → (if leb (2 ^ suc k) acc
          then p.add (suc (suc k)) (shifted k acc b) 0
          else p.sub (suc (suc k)) (shifted k acc b) 0)
        ≡ 2 * acc + b
  zero_cases k acc b h =
      ground (arith, pow-suc 2 (suc k), sub_wrapped (suc (suc k)) (2 * acc + b) 0)

  -- An iteration with the divisor 0.
  pub iterate_zero :
      (k acc dividend : ℕ)
      → dividend < 2 ^ suc k
      → 2 * acc + to_bit (leb (2 ^ k) dividend) < 2 ^ suc k
      → iterate (suc k) 0 (acc, dividend)
        ≡ (2 * acc + to_bit (leb (2 ^ k) dividend), next_dividend k dividend true)
  iterate_zero k acc dividend h low =
      let b = leb (2 ^ k) dividend in
      let below : acc < 2 ^ suc (suc k) = omega (arith, pow-suc 2 (suc k), to_bit-le b) in
      iterate_of k 0 acc dividend (2 * acc + to_bit b) true h
        (rw (bit_top (suc k) acc below, shift_in (suc k) acc b below)
          (zero_cases k acc (to_bit b) low))
        (bit_top (suc k) (2 * acc + to_bit b) (omega (arith, pow-suc 2 (suc k))) ∙ ground arith)
