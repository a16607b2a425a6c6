-- ===== src/Pipeline/Kill.antt =====
-- Which messages a kill drops, and what it makes of the branch masks of the others.
use lizard.Prelude.{
  ℕ, ◌-◌, ◌^◌, ◌<◌, ◌==◌, Bool, true, false, not, ◌&&◌, ◌||◌, ◌≡◌, ◌↔◌, refl, arith, ap, ◌∙◌,
}
use lizard.Prelude.{bit_and, sym}
use lizard.BitLaws.Digits.{bit, bit-zero, bit-bit_and, bit_complement, bit_ext_below}
use lizard.BitLaws.Masks.{bit_and-lt, two_pow_pos}
use lizard.Pymtl.{Pymtl}
use lizard.Pipeline.{KillMsg, kill_check}

-- A message depends on branch `i`, and that branch is killed.
abbrev pub IsKilled : ℕ → ℕ → KillMsg → Type 0
IsKilled nbits mask msg = (i : ℕ) × (i < nbits) × (bit mask i ≡ true) × (bit msg.kill_mask i ≡ true)

module _ ⦃p : Pymtl⦄ (nbits : ℕ) where
  -- A message is kept exactly if the kill is not forced and the message depends on no branch that is
  -- killed; afterwards it depends on the branches that it depended on and that are not cleared.
  pub kill_check_lem :
      (msg : KillMsg) (mask : ℕ)
      → mask < 2 ^ nbits
      → msg.kill_mask < 2 ^ nbits
      → msg.clear_mask < 2 ^ nbits
      → let c = kill_check nbits msg mask in
        ((c.keep ≡ true) ↔ ((msg.force ≡ false) × ¬ IsKilled nbits mask msg))
        × ((i : ℕ) → i < nbits → bit c.out i ≡ (bit mask i && not (bit msg.clear_mask i)))
  unfolding kill_check
  kill_check_lem msg mask hm hk hc = ((keeps, kept), bits)
    where
      both : (i : ℕ) → bit (bit_and mask msg.kill_mask) i ≡ (bit mask i && bit msg.kill_mask i)
      both i = bit-bit_and mask msg.kill_mask i

      keeps :
          not (not (p.band mask msg.kill_mask == 0) || msg.force) ≡ true
          → (msg.force ≡ false) × ¬ IsKilled nbits mask msg
      keeps h =
          let none_killed : bit_and mask msg.kill_mask ≡ 0 =
            ground (arith, p.band_law mask msg.kill_mask) in
          (
            ground arith,
            λ k.
                let hit : bit (bit_and mask msg.kill_mask) k.0 ≡ true =
                  rw (both k.0, k.2, k.3) refl in
                let clear : bit (bit_and mask msg.kill_mask) k.0 ≡ false =
                  rw none_killed (bit-zero k.0) in
                cc,
          )

      kept :
          (msg.force ≡ false) × ¬ IsKilled nbits mask msg
          → not (not (p.band mask msg.kill_mask == 0) || msg.force) ≡ true
      kept (calm, alive) =
          let zero_match : bit_and mask msg.kill_mask ≡ 0 =
            bit_ext_below nbits _ 0 (bit_and-lt nbits mask msg.kill_mask hm hk) (two_pow_pos nbits)
              λ i lt.
                both i
                ∙ disjoint i lt (bit mask i) (bit msg.kill_mask i) refl refl
                ∙ sym (bit-zero i) in
          rw (p.band_law, zero_match, calm) refl
        where
          disjoint :
              (i : ℕ)
              → i < nbits
              → (a b : Bool) → bit mask i ≡ a
              → bit msg.kill_mask i ≡ b
              → (a && b) ≡ false
          disjoint i lt true true ea eb = absurd (alive (i, lt, ea, eb))
          disjoint i lt true false ea eb = refl
          disjoint i lt false b ea eb = refl

      bits :
          (i : ℕ)
          → i < nbits
          → bit (p.band mask (p.inv nbits msg.clear_mask)) i
            ≡ (bit mask i && not (bit msg.clear_mask i))
      bits i lt =
          rw (p.band_law, p.inv_law)
            (bit-bit_and mask (2 ^ nbits - 1 - msg.clear_mask) i
              ∙ ap (λ (b : Bool). bit mask i && b) (bit_complement msg.clear_mask nbits i hc lt))
