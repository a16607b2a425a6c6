-- ===== src/FreeList/Grants.antt =====
-- What the `alloc` methods of a cycle hand out.
use lizard.Prelude.{ℕ, suc, ◌-◌, ◌^◌, ◌≤◌, ◌<◌, ◌==◌, ap, arith, sym, ◌∙◌}
use lizard.Prelude.{Bool, true, false, not, ◌&&◌, ◌||◌, ◌≡◌, refl}
use lizard.Prelude.{none, some, List, [], ◌∷◌, Bool-cases, Option-cases, inl, inr, ltb, ltb→lt}
use lizard.BitLaws.Digits.{bit, bit-bit_and, bit_complement, bit-two_pow}
use lizard.BitLaws.Masks.{bit_and-lt, two_pow_lt, two_pow_pos}
use lizard.Pymtl.{Pymtl}
use lizard.Arbiters.{first_set}
use lizard.Arbiters.Lowest.{first_set-lt, first_set_lem}
use lizard.FreeList.Coders.{written, bit_and-hole}
use lizard.FreeList.Alloc.{first_set-bit, fl_alloc-none, fl_alloc-some}
use lizard.FreeList.{Grant, fl_grants, fl_allocs}

-- The slots that the ports hand out.
abbrev pub slots : List Grant → List ℕ
slots [] = []
slots (g ∷ gs) = elim g.granted [ some (i, mask) ↦ i ∷ slots gs | none ↦ slots gs ]

abbrev pub contains : ℕ → List ℕ → Bool
contains i [] = false
contains i (j ∷ js) = (j == i) || contains i js

-- Strictly ascending from `low`, so no number twice, and all of them free slots of `v`.
abbrev pub AreFreshFrom : ℕ → ℕ → ℕ → List ℕ → Type 0
AreFreshFrom n v low [] = Unit
AreFreshFrom n v low (i ∷ is) = (low ≤ i) × (i < n) × (bit v i ≡ true) × AreFreshFrom n v (suc i) is

bit-written :
    (n a i j : ℕ) → a < 2 ^ n → i < n → j < n → bit (written a i 0) j ≡ (bit a j && not (i == j))
bit-written n a i j ha hi hj =
    ap (λ (t : ℕ). bit t j) (sym (bit_and-hole n i a ha hi))
    ∙ bit-bit_and a (2 ^ n - 1 - 2 ^ i) j
    ∙ ap (λ (b : Bool). bit a j && b)
        (bit_complement (2 ^ i) n j (two_pow_lt i n hi) hj ∙ ap not (bit-two_pow i j))

-- What is free of less is free of more.
fresh_weaken :
    (n v w low : ℕ) (is : List ℕ)
    → ((i : ℕ) → i < n → bit v i ≡ true → bit w i ≡ true)
    → AreFreshFrom n v low is
    → AreFreshFrom n w low is
fresh_weaken n v w low [] h f = f
fresh_weaken n v w low (i ∷ is) h f = (f.0, f.1, h i f.1 f.2, fresh_weaken n v w (suc i) is h f.3)

and_true : (b : Bool) → b ≡ (b && true)
and_true true = refl
and_true false = refl

and_not-or : (a b c : Bool) → ((a && not b) && not c) ≡ (a && not (b || c))
and_not-or true true c = refl
and_not-or true false c = refl
and_not-or false b c = refl

module _ ⦃p : Pymtl⦄ (n : ℕ) where
  -- The lowest free slot.
  found_lowest : (v i m : ℕ) → v < 2 ^ n → first_set v n 0 ≡ some i → m < i → bit v m ≡ false
  found_lowest v i m h e lt =
      let (k, found, here, before) =
        first_set_lem n v 0 i (omega arith) (omega (arith, first_set-lt n v 0 i e))
          (first_set-bit n v 0 i e) in
      let same : k ≡ i = cc in before m (omega arith) (omega arith)

  written_below :
      (v i m : ℕ) → v < 2 ^ n → first_set v n 0 ≡ some i → m < suc i → bit (written v i 0) m ≡ false
  written_below v i m h e lt =
      let low : i < n = omega (arith, first_set-lt n v 0 i e) in
      rw (bit-written n v i m h low (omega arith)) (elim (Bool-cases (i == m)) [
        | inl same ↦ ground (arith)
        | inr other ↦ rw (found_lowest v i m h e (ground arith)) refl
      ])

  written-lt : (v i : ℕ) → v < 2 ^ n → first_set v n 0 ≡ some i → written v i 0 < 2 ^ n
  written-lt v i h e =
      rw (← bit_and-hole n i v h (omega (arith, first_set-lt n v 0 i e)))
        (bit_and-lt n v (2 ^ n - 1 - 2 ^ i) h (omega (arith, two_pow_pos n)))

  low-le : (v low i : ℕ) → ((m : ℕ) → m < low → bit v m ≡ false) → bit v i ≡ true → low ≤ i
  low-le v low i below set = elim (Bool-cases (ltb i low)) [
    | inl lt ↦ absurd (ground (arith, below i (ltb→lt i low lt)))
    | inr ge ↦ ground arith
  ]

  -- What `alloc` methods in a row hand out and leave, of a vector with no free slot below `low`.
  pub fl_grants_lem :
      (v low : ℕ) (calls : List Bool)
      → v < 2 ^ n
      → ((i : ℕ) → i < low → bit v i ≡ false)
      → AreFreshFrom n v low (slots (fl_grants n v calls))
        × ((i : ℕ)
            → i < n
            → bit (fl_allocs n v calls) i
              ≡ (bit v i && not (contains i (slots (fl_grants n v calls)))))
  unfolding fl_grants fl_allocs
  fl_grants_lem v low [] h below = (tt, λ i lt. and_true (bit v i))
  fl_grants_lem v low (false ∷ calls) h below = fl_grants_lem v low calls h below
  fl_grants_lem v low (true ∷ calls) h below = elim (Option-cases (first_set v n 0)) [
    | inl e ↦ rw (fl_alloc-none n v e) (fl_grants_lem v low calls h below)
    | inr (i, e) ↦
        let set : bit v i ≡ true = first_set-bit n v 0 i e in
        let in_range : i < n = omega (arith, first_set-lt n v 0 i e) in
        let (fresh, bits) =
          fl_grants_lem (written v i 0) (suc i) calls (written-lt v i h e)
            (λ m lt. written_below v i m h e lt) in
        rw (fl_alloc-some n v i e) (
          (
            low-le v low i below set,
            in_range,
            set,
            fresh_weaken n (written v i 0) v (suc i) _ (λ j lt b. weaken v i j h in_range lt b)
                fresh,
          ),
          λ j lt.
              bits j lt
              ∙ ap (λ (b : Bool). b && not (contains j (slots (fl_grants n (written v i 0) calls))))
                  (bit-written n v i j h in_range lt)
              ∙ and_not-or (bit v j) (i == j)
                  (contains j (slots (fl_grants n (written v i 0) calls))),
        )
  ]
    where
      weaken :
          (v i j : ℕ) → v < 2 ^ n → i < n → j < n → bit (written v i 0) j ≡ true → bit v j ≡ true
      weaken v i j h hi hj b = ground (arith, bit-written n v i j h hi hj)
