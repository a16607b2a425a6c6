-- ===== src/FreeList/Coders.antt =====
-- The encoder and the decoder of the free list, and single bits of a vector.
use lizard.Prelude.{ℕ, zero, suc, ◌+◌, ◌-◌, ◌*◌, ◌/◌, ◌%◌, ◌^◌, ◌<◌, ◌==◌, ltb, ap, arith}
use lizard.Prelude.{bit_and, bit_or, pow-suc, Bool, true, false, ◌≡◌, refl, if◌then◌else◌, to_bit}
use lizard.Prelude.{Option, none, some, ◌∙◌, sym, Bool-cases, inl, inr}
use native.Mathlib.Numerals.{add-one}
use native.Mathlib.Nat.{mod-eq_of_lt, div-eq_of_lt, pow-succ'}
use lizard.BitLaws.Step.{bit_and_step, bit_or_step}
use lizard.BitLaws.Masks.{
  two_pow_lt, bit_and-low, mod_two_pow_suc, mul_two_pow, div_two_pow, two_pow_pos, bit_or-zero,
  lt_two_pow,
}
use lizard.Pymtl.{Pymtl}
use lizard.Arbiters.{first_set}
use lizard.Arbiters.Lowest.{first_set-add}
use lizard.FreeList.{encode_onehot, decode}

-- The remainder by `2 ^ (i + 1)`, from that of the half.
mod_two_pow : (a i : ℕ) → a % 2 ^ suc i ≡ a / 2 % 2 ^ i * 2 + a % 2
mod_two_pow a i = ap (λ (t : ℕ). a % t) (pow-succ' 2 i) ∙ mod_two_pow_suc a (2 ^ i) (two_pow_pos i)

-- `a` with bit `i` written, in arithmetic
abbrev pub written : ℕ → ℕ → ℕ → ℕ
written a i v = a / 2 ^ suc i * 2 ^ suc i + v * 2 ^ i + a % 2 ^ i

written-suc : (a i v : ℕ) → written a (suc i) v ≡ 2 * written (a / 2) i v + a % 2
written-suc a i v =
    rw
      (
        div_two_pow a (suc i),
        mul_two_pow (a / 2 / 2 ^ suc i) (suc i),
        mul_two_pow v i,
        mod_two_pow a i,
      )
      (omega arith)

-- `|` with a single bit writes a one.
pub bit_or-two_pow : (i a : ℕ) → bit_or a (2 ^ i) ≡ written a i 1
bit_or-two_pow zero a =
    ground (arith, bit_or_step a 1, bit_or-zero (a / 2) (a / 2) (lt_two_pow (a / 2)))
bit_or-two_pow (suc i) a =
    rw (written-suc a i 1) (bits a i ∙ ap (λ (t : ℕ). 2 * t + a % 2) (bit_or-two_pow i (a / 2)))
  where
    bits : (a i : ℕ) → bit_or a (2 ^ suc i) ≡ 2 * bit_or (a / 2) (2 ^ i) + a % 2
    bits a i =
        let half : 2 ^ suc i / 2 ≡ 2 ^ i = omega (arith, pow-suc 2 i) in
        let even : 2 ^ suc i % 2 ≡ 0 = omega (arith, pow-suc 2 i) in
        ground (arith, bit_or_step a (2 ^ suc i))

bit_and_ones : (n a : ℕ) → a < 2 ^ n → bit_and a (2 ^ n - 1) ≡ a
bit_and_ones n a h = bit_and-low n a ∙ mod-eq_of_lt h

-- `&` with the complement of a single bit writes a zero.
pub bit_and-hole : (n i a : ℕ) → a < 2 ^ n → i < n → bit_and a (2 ^ n - 1 - 2 ^ i) ≡ written a i 0
bit_and-hole zero i a h lt = absurd (omega arith)
bit_and-hole (suc n) zero a h lt = ground (
  arith,
  bit_and_step a (2 ^ suc n - 1 - 1),
  pow-suc 2 n,
  two_pow_pos n,
  bit_and_ones n (a / 2) (omega (arith, pow-suc 2 n)),
)
bit_and-hole (suc n) (suc i) a h lt = rw (written-suc a i 0) (
    bits
    ∙ ap (λ (t : ℕ). 2 * t + a % 2)
        (bit_and-hole n i (a / 2) (omega (arith, pow-suc 2 n)) (omega arith)))
  where
    bits : bit_and a (2 ^ suc n - 1 - 2 ^ suc i) ≡ 2 * bit_and (a / 2) (2 ^ n - 1 - 2 ^ i) + a % 2
    bits =
        let half : (2 ^ suc n - 1 - 2 ^ suc i) / 2 ≡ 2 ^ n - 1 - 2 ^ i =
          omega (arith, pow-suc 2 n, pow-suc 2 i, two_pow_lt i n (omega arith)) in
        let odd : (2 ^ suc n - 1 - 2 ^ suc i) % 2 ≡ 1 =
          omega (arith, pow-suc 2 n, pow-suc 2 i, two_pow_lt i n (omega arith)) in
        ground (arith, bit_and_step a (2 ^ suc n - 1 - 2 ^ suc i))

-- The wires `valid` and `outs` for the lowest set bit.
abbrev pub decoded : Option ℕ → Bool × ℕ
decoded (some i) = (true, i)
decoded none = (false, 0)

module _ ⦃p : Pymtl⦄ where
  put_above : (n a v : ℕ) → a < 2 ^ n → p.put a n (n + 1) v ≡ v * 2 ^ n + a
  put_above n a v h =
      let none_above : a / 2 ^ suc n ≡ 0 = div-eq_of_lt (omega (arith, pow-suc 2 n)) in
      rw (p.put_law, add-one n, none_above, mod-eq_of_lt h) (omega arith)

  pub encode_onehot_lem : (n i : ℕ) → encode_onehot n i ≡ (if ltb i n then 2 ^ i else 0)
  unfolding encode_onehot
  encode_onehot_lem zero i = ground arith
  encode_onehot_lem (suc n) i =
      let e = encode_onehot_lem n i in
      let below : encode_onehot n i < 2 ^ n = ground (arith, two_pow_lt i n, two_pow_pos n) in
      put_above n (encode_onehot n i) (to_bit (i == n)) below ∙ elim (Bool-cases (i == n)) [
        | inl last ↦ rw last (ground arith)
        | inr other ↦ rw other (ground arith)
      ]

  first_set-suc :
      (n signal : ℕ)
      → first_set signal (suc n) 0 ≡ (elim (first_set signal n 0) [
        | some j ↦ some j
        | none ↦ if p.index signal n then some n else none
      ])
  unfolding first_set
  first_set-suc n signal =
      ap (λ (t : ℕ). first_set signal t 0) (sym (add-one n))
      ∙ first_set-add n 1 signal 0
      ∙ found (first_set signal n 0)
    where
      found :
          (o : Option ℕ)
          → (elim o [ some j ↦ some j | none ↦ first_set signal 1 (0 + n) ])
            ≡ (elim o [ some j ↦ some j | none ↦ if p.index signal n then some n else none ])
      found (some j) = refl
      found none = let e : 0 + n ≡ n = omega arith in rw (e, first_set) refl

  pub decode-first_set : (n signal : ℕ) → decode n signal ≡ decoded (first_set signal n 0)
  unfolding decode first_set
  decode-first_set zero signal = refl
  decode-first_set (suc n) signal =
      rw (decode-first_set n signal, first_set-suc n signal)
        (found (first_set signal n 0) (p.index signal n))
    where
      found :
          (o : Option ℕ) (b : Bool)
          → (let (valid, out) = decoded o in
              if valid then (true, out) else if b then (true, n) else (false, 0))
            ≡ decoded (elim o [ some j ↦ some j | none ↦ if b then some n else none ])
      found (some j) b = refl
      found none true = refl
      found none false = refl
