-- ===== src/FreeList/Alloc.antt =====
-- The ports of the free list one by one: masks for `free`, and decoders for `alloc`.
use lizard.Prelude.{ℕ, zero, suc, ◌+◌, ◌-◌, ◌^◌, ◌<◌, ◌==◌, arith, sym, ◌∙◌}
use lizard.Prelude.{bit_and, bit_or, Bool, true, false, not, ◌||◌, ◌≡◌, refl, if◌then◌else◌}
use lizard.Prelude.{
  Option, none, some, List, [], ◌∷◌, Bool-cases, Option-cases, inl, inr, lt→ltb, suc-eqb_zero,
}
use native.Mathlib.Numerals.{add-one}
use lizard.BitLaws.Digits.{bit, bit-zero, bit-bit_or, bit_ext_below}
use lizard.BitLaws.Masks.{bit_or-lt, bit_and-lt, two_pow_lt, two_pow_pos, zero-bit_and}
use lizard.Pymtl.{Pymtl}
use lizard.Arbiters.{first_set}
use lizard.Arbiters.Lowest.{first_set-lt, first_set_lem}
use lizard.FreeList.{
  alloc_inc, decode, encode_onehot, fl_alloc, fl_free, fl_frees, free_masks, grants, fl_allocs,
  fl_grants,
}
use lizard.FreeList.Coders.{
  decode-first_set, encode_onehot_lem, written, bit_and-hole, bit_or-two_pow,
}

pub bit_or_assoc :
    (n a b c : ℕ)
    → a < 2 ^ n
    → b < 2 ^ n
    → c < 2 ^ n
    → bit_or (bit_or a b) c ≡ bit_or a (bit_or b c)
bit_or_assoc n a b c ha hb hc =
    bit_ext_below n _ _ (bit_or-lt n _ _ (bit_or-lt n _ _ ha hb) hc)
      (bit_or-lt n _ _ ha (bit_or-lt n _ _ hb hc))
      λ i h.
        rw
          (
            bit-bit_or (bit_or a b) c i,
            bit-bit_or a b i,
            bit-bit_or a (bit_or b c) i,
            bit-bit_or b c i,
          )
          (or_assoc (bit a i) (bit b i) (bit c i))
  where
    or_assoc : (x y z : Bool) → ((x || y) || z) ≡ (x || (y || z))
    or_assoc true y z = refl
    or_assoc false y z = refl

pub bit_or_comm : (n a b : ℕ) → a < 2 ^ n → b < 2 ^ n → bit_or a b ≡ bit_or b a
bit_or_comm n a b ha hb =
    bit_ext_below n _ _ (bit_or-lt n _ _ ha hb) (bit_or-lt n _ _ hb ha)
      λ i h. rw (bit-bit_or a b i, bit-bit_or b a i) (or_comm (bit a i) (bit b i))
  where
    or_comm : (x y : Bool) → (x || y) ≡ (y || x)
    or_comm true true = refl
    or_comm true false = refl
    or_comm false true = refl
    or_comm false false = refl

-- The mask that is released fits the vector.
abbrev pub MaskInRange : ℕ → Option ℕ → Type 0
MaskInRange n none = Unit
MaskInRange n (some mask) = mask < 2 ^ n

pub nonzero : (a i : ℕ) → bit a i ≡ true → true ≡ not (a == 0)
nonzero zero i h = ground (arith, bit-zero i)
nonzero (suc a) i h = rw (suc-eqb_zero a) refl

-- Every slot that is freed is one of the list.
abbrev pub FreesInRange : ℕ → List (Option ℕ) → Type 0
FreesInRange n [] = Unit
FreesInRange n (none ∷ ports) = FreesInRange n ports
FreesInRange n (some i ∷ ports) = (i < n) × FreesInRange n ports

module _ ⦃p : Pymtl⦄ where
  pub first_set-bit : (left reqs i j : ℕ) → first_set reqs left i ≡ some j → bit reqs j ≡ true
  unfolding first_set
  first_set-bit zero reqs i j h = cc
  first_set-bit (suc left) reqs i j h =
      ground (arith, p.index_law reqs i, first_set-bit left reqs (i + 1) j)

module _ ⦃p : Pymtl⦄ (n : ℕ) where
  pub onehot-lt : (i : ℕ) → encode_onehot n i < 2 ^ n
  onehot-lt i = ground (arith, encode_onehot_lem n i, two_pow_lt i n, two_pow_pos n)

  fl_free-bit_or : (bits i : ℕ) → i < n → fl_free bits i ≡ bit_or bits (encode_onehot n i)
  unfolding fl_free
  fl_free-bit_or bits i h =
      rw (p.put_law, encode_onehot_lem n i, lt→ltb i n h, add-one i) (sym (bit_or-two_pow i bits))

  pub free_masks-lt :
      (mask : ℕ) (ports : List (Option ℕ)) → mask < 2 ^ n → free_masks n mask ports < 2 ^ n
  unfolding free_masks
  free_masks-lt mask [] h = h
  free_masks-lt mask (none ∷ ports) h = free_masks-lt mask ports h
  free_masks-lt mask (some i ∷ ports) h =
      free_masks-lt (p.bor mask (encode_onehot n i)) ports
        (rw (p.bor_law) (bit_or-lt n mask (encode_onehot n i) h (onehot-lt i)))

  pub fl_frees-free_masks :
      (bits mask : ℕ) (ports : List (Option ℕ))
      → bits < 2 ^ n
      → mask < 2 ^ n
      → FreesInRange n ports
      → fl_frees n (bit_or bits mask) ports ≡ bit_or bits (free_masks n mask ports)
  unfolding fl_frees free_masks
  fl_frees-free_masks bits mask [] hb hm h = refl
  fl_frees-free_masks bits mask (none ∷ ports) hb hm h = fl_frees-free_masks bits mask ports hb hm h
  fl_frees-free_masks bits mask (some i ∷ ports) hb hm (hi, h) =
      let moved : fl_free (bit_or bits mask) i ≡ bit_or bits (p.bor mask (encode_onehot n i)) =
        rw (fl_free-bit_or (bit_or bits mask) i hi, p.bor_law)
          (bit_or_assoc n bits mask (encode_onehot n i) hb hm (onehot-lt i)) in
      let below : p.bor mask (encode_onehot n i) < 2 ^ n =
        rw (p.bor_law) (bit_or-lt n mask (encode_onehot n i) hm (onehot-lt i)) in
      rw moved (fl_frees-free_masks bits (p.bor mask (encode_onehot n i)) ports hb below h)

  -- No slot is found only if none is free.
  pub first_set-none : (inc : ℕ) → inc < 2 ^ n → first_set inc n 0 ≡ none → inc ≡ 0
  first_set-none inc h e = bit_ext_below n inc 0 h (two_pow_pos n) λ i lt.
      elim (Bool-cases (bit inc i)) [
        | inl set ↦
            let (j, found, here, before) =
              first_set_lem n inc 0 i (omega arith) (omega arith) set in
            absurd (ground arith)
        | inr clear ↦ clear ∙ sym (bit-zero i)
      ]

  -- An alloc port does what `alloc` does.
  unfoldable pub AllocAgrees : ℕ → Type 0
  AllocAgrees inc =
      let (valid, number) = decode n inc in
      (p.band inc (p.inv n (encode_onehot n number)) ≡ (fl_alloc n inc).0)
      × ((if valid then some (number, encode_onehot n number) else none) ≡ (fl_alloc n inc).1)
      × (valid ≡ not (inc == 0))
      × ((fl_alloc n inc).0 < 2 ^ n)

  pub fl_alloc-none : (inc : ℕ) → first_set inc n 0 ≡ none → fl_alloc n inc ≡ (inc, none)
  unfolding fl_alloc
  fl_alloc-none inc e = rw (e, fl_alloc) refl

  pub fl_alloc-some :
      (inc i : ℕ) → first_set inc n 0 ≡ some i → fl_alloc n inc ≡ (written inc i 0, some (i, 2 ^ i))
  unfolding fl_alloc
  fl_alloc-some inc i e = rw (e, fl_alloc) (λ t. (cleared t, some (i, 2 ^ i)))
    where
      cleared : p.put inc i (i + 1) 0 ≡ written inc i 0
      cleared = rw (p.put_law, add-one i) refl

  alloc_none : (inc : ℕ) → inc < 2 ^ n → first_set inc n 0 ≡ none → AllocAgrees inc
  unfolding AllocAgrees
  alloc_none inc h e =
      let zero_inc : inc ≡ 0 = first_set-none inc h e in
      rw (decode-first_set n inc, fl_alloc-none inc e, e, p.band_law, p.inv_law, zero_inc)
        (zero-bit_and n _ (omega (arith, two_pow_pos n, onehot-lt 0)), refl, refl, two_pow_pos n)

  alloc_some : (inc i : ℕ) → inc < 2 ^ n → first_set inc n 0 ≡ some i → AllocAgrees inc
  unfolding AllocAgrees
  alloc_some inc i h e =
      let low : i < n = omega (arith, first_set-lt n inc 0 i e) in
      let mask : encode_onehot n i ≡ 2 ^ i = rw (encode_onehot_lem n i, lt→ltb i n low) refl in
      let hole : bit_and inc (2 ^ n - 1 - 2 ^ i) ≡ written inc i 0 = bit_and-hole n i inc h low in
      rw (decode-first_set n inc, fl_alloc-some inc i e, e, p.band_law, p.inv_law, mask)
        (
          hole,
          refl,
          nonzero inc i (first_set-bit n inc 0 i e),
          rw (← hole) (bit_and-lt n inc (2 ^ n - 1 - 2 ^ i) h (omega (arith, two_pow_pos n))),
        )

  pub fl_alloc_lem : (inc : ℕ) → inc < 2 ^ n → AllocAgrees inc
  fl_alloc_lem inc h = elim (Option-cases (first_set inc n 0)) [
    | inl none_free ↦ alloc_none inc h none_free
    | inr (i, found) ↦ alloc_some inc i h found
  ]

  pub allocs_agree :
      (inc : ℕ) (calls : List Bool)
      → inc < 2 ^ n
      → (alloc_inc n inc calls ≡ fl_allocs n inc calls)
        × (grants n inc calls ≡ fl_grants n inc calls)
        × (fl_allocs n inc calls < 2 ^ n)
  unfolding alloc_inc grants fl_allocs fl_grants AllocAgrees
  allocs_agree inc [] h = (refl, refl, h)
  allocs_agree inc (true ∷ calls) h =
      let (state, result, valid, below) = fl_alloc_lem inc h in
      let (states, results, ends) = allocs_agree (fl_alloc n inc).0 calls below in
      (rw state states, rw (result, valid, state, results) refl, ends)
  allocs_agree inc (false ∷ calls) h =
      let (state, result, valid, below) = fl_alloc_lem inc h in
      let (states, results, ends) = allocs_agree inc calls h in
      (states, rw (valid, results) refl, ends)
