-- ===== src/CoreM/Divide.antt =====
-- The division stage against the instructions.
use lizard.Prelude.{ℕ, suc, ◌*◌, ◌/◌, ◌%◌, ◌^◌, ◌≤◌, ◌<◌, Bool, true, false, arith}
use lizard.Prelude.{if◌then◌else◌, Option, none, some, ◌>>=◌, ◌≡◌, refl, sym, ap, ◌∙◌}
use lizard.Prelude.Int.{ℤ, pos, negsuc, neg}
use native.Mathlib.Nat.{div-one, mod-one}
use mathlib.Core.Option
use lizard.Pymtl.{Pymtl, InRange, signed, wrap}
use lizard.Semantics.Divide.{sign}
use lizard.Semantics.Divide.Total.{quotient, remainder, sane_divide-some, sane_rem-some}
use lizard.Semantics.Divide.Range.{
  IsSigned, signed-IsSigned, quotient-InRange, remainder-InRange, quotient-InRange_unsigned,
  remainder-InRange_unsigned,
}
use lizard.Semantics.Alu
use lizard.Bitutil.{clog2}
use lizard.Divider.{DivState, step, result_quotient, result_rem}
use lizard.Divider.Clock.{idle_cycles}
use lizard.Divider.Signs.{operand}
use lizard.Divider.Refine.{start, divide_lem}
use lizard.CoreM.{
  MFunc, m_func_div, m_func_rem, MVariant, m_variant_n, m_variant_u, MMsg, div_inputs, div_out,
  is_n, is_rem,
}
use lizard.CoreM.Words.{signed-sext}

low_word : (z : ℤ) → wrap 64 z % 2 ^ 32 ≡ wrap 32 z
low_word (pos n) = omega arith
low_word (negsuc n) = omega arith

-- A division of 32-bit words at 64 bits: only the quotient that overflows differs, and not in its low
-- word.
divide_word :
    (a b : ℤ) → IsSigned 31 a → wrap 64 (quotient a b 64) % 2 ^ 32 ≡ wrap 32 (quotient a b 32)
unfolding quotient sign
divide_word (pos a) (pos b) h = low_word (quotient (pos a) (pos b) 32)
divide_word (pos a) (negsuc b) h = low_word (quotient (pos a) (negsuc b) 32)
divide_word (negsuc a) (pos b) h =
    ground (arith, low_word (negsuc 0), low_word (neg (suc a / b * 1)))
divide_word (negsuc a) (negsuc b) h =
    ground (arith, div-one (suc a), low_word (pos (suc a / suc b * 1)))

rem_word :
    (a b : ℤ) → IsSigned 31 a → wrap 64 (remainder a b 64) % 2 ^ 32 ≡ wrap 32 (remainder a b 32)
unfolding remainder sign
rem_word (pos a) (pos b) h = low_word (remainder (pos a) (pos b) 32)
rem_word (pos a) (negsuc b) h = low_word (remainder (pos a) (negsuc b) 32)
rem_word (negsuc a) (pos b) h = ground (arith, low_word (negsuc a), low_word (neg (suc a % b * 1)))
rem_word (negsuc a) (negsuc b) h =
    ground (arith, mod-one (suc a), low_word (neg (suc a % suc b * 1)))

divide_pos : (a b : ℕ) → quotient (pos a) (pos b) 64 ≡ quotient (pos a) (pos b) 32
unfolding quotient
divide_pos a b = refl

rem_pos : (a b : ℕ) → remainder (pos a) (pos b) 64 ≡ remainder (pos a) (pos b) 32
unfolding remainder
rem_pos a b = refl

of_map :
    (o : Option ℤ) (z : ℤ) (v : ℕ) → o ≡ some z → Option.map (wrap 64) o ≡ some v → v ≡ wrap 64 z
of_map none z v e e' = absurd (grind arith)
of_map (some y) z v e e' = grind arith

module _ ⦃p : Pymtl⦄ where
  -- What the divider shows `j` cycles after it was called with what the stage hands to it.
  abbrev pub divided : MMsg → ℕ → ℕ → DivState → ℕ → DivState
  divided msg a b s j =
      idle_cycles 6 32 2 63 j (step 64 6 32 2 s (start (div_inputs msg a b) false false))

  abbrev pub div_msg : MFunc → MVariant → Bool → MMsg
  div_msg func variant op32 = record { func = func; variant = variant; op32 = op32 }

  counter_width : clog2 33 ≡ some 6
  unfolding clog2
  counter_width = refl

  word-lt : (a : ℕ) → p.slice a 0 32 < 2 ^ 32
  word-lt a = omega (arith, p.slice_law a 0 32)

  input-lt :
      (op32 is_signed : Bool) (a : ℕ)
      → a < 2 ^ 64
      → (if op32 then (if is_signed then p.sext 32 64 (p.slice a 0 32) else p.slice a 0 32) else a)
        < 2 ^ 64
  input-lt true true a h = ground (arith, word-lt a, p.sext_law 32 64 (p.slice a 0 32))
  input-lt true false a h = omega (arith, word-lt a)
  input-lt false is_signed a h = h

  inputs-lt :
      (msg : MMsg) (a b : ℕ)
      → a < 2 ^ 64
      → b < 2 ^ 64
      → ((div_inputs msg a b).dividend < 2 ^ 64) × ((div_inputs msg a b).divisor < 2 ^ 64)
  unfolding div_inputs
  inputs-lt msg a b ha hb =
      (input-lt msg.op32 (is_n msg.variant) a ha, input-lt msg.op32 (is_n msg.variant) b hb)

  -- The divider gives the results of its operands in time.
  results :
      (msg : MMsg) (a b : ℕ) (s : DivState) (j : ℕ)
      → a < 2 ^ 64
      → b < 2 ^ 64
      → 32 ≤ j
      → let args = div_inputs msg a b in
        let x = operand 64 args.is_signed args.dividend in
        let y = operand 64 args.is_signed args.divisor in
        (result_quotient 64 (divided msg a b s j) ≡ wrap 64 (quotient x y 64))
        × (result_rem 64 (divided msg a b s j) ≡ wrap 64 (remainder x y 64))
  results msg a b s j ha hb late =
      let (hx, hy) = inputs-lt msg a b ha hb in
      let (early, done) =
        divide_lem 63 32 2 6 (div_inputs msg a b) s false false j hx hy refl counter_width in
      let (rdy, q, r) = done late in
      (of_map _ _ _ (sane_divide-some _ _ _) q, of_map _ _ _ (sane_rem-some _ _ _) r)

  low : (v : ℕ) → p.slice v 0 32 ≡ v % 2 ^ 32
  low v = p.slice_law v 0 32 ∙ omega arith

  full :
      (o : Option ℤ) (z : ℤ)
      → o ≡ some z
      → InRange 64 z
      → (v : ℕ) → v ≡ wrap 64 z
      → (o >>= p.construct 64) ≡ some v
  full o z eo h v e = rw eo (p.construct_law 64 z h ∙ ap some (sym e))

  half :
      (o : Option ℤ) (z : ℤ)
      → o ≡ some z
      → InRange 32 z
      → (v : ℕ) → p.slice v 0 32 ≡ wrap 32 z
      → Option.map (p.sext 32 64) (o >>= p.construct 32) ≡ some (p.sext 32 64 (p.slice v 0 32))
  half o z eo h v e = rw eo (
      ap (Option.map (p.sext 32 64)) (p.construct_law 32 z h)
      ∙ ap (λ (w : ℕ). some (p.sext 32 64 w)) (sym e))

  low_of : (v : ℕ) (z : ℤ) → v ≡ wrap 64 z → p.slice v 0 32 ≡ wrap 64 z % 2 ^ 32
  low_of v z e = low v ∙ ap (λ (w : ℕ). w % 2 ^ 32) e

  -- The results of the eight instructions.
  abbrev pub DivAgrees : ℕ → ℕ → DivState → ℕ → Type 0
  DivAgrees a b s j =
      let stage = λ (func : MFunc) (variant : MVariant) (op32 : Bool).
        let msg = div_msg func variant op32 in some (div_out msg (divided msg a b s j)) in
      (Alu.rr_value Alu.div a b ≡ stage m_func_div m_variant_n false)
      × (Alu.rr_value Alu.divu a b ≡ stage m_func_div m_variant_u false)
      × (Alu.rr_value Alu.rem a b ≡ stage m_func_rem m_variant_n false)
      × (Alu.rr_value Alu.remu a b ≡ stage m_func_rem m_variant_u false)
      × (Alu.rr_value Alu.divw a b ≡ stage m_func_div m_variant_n true)
      × (Alu.rr_value Alu.divuw a b ≡ stage m_func_div m_variant_u true)
      × (Alu.rr_value Alu.remw a b ≡ stage m_func_rem m_variant_n true)
      × (Alu.rr_value Alu.remuw a b ≡ stage m_func_rem m_variant_u true)

  -- For 64-bit operands, whatever the registers of the divider hold when the stage calls it, and at any
  -- time from 32 cycles after the call on in which nothing is called: the stage has the result that the
  -- architectural semantics has, for each of the eight divisions and remainders, also for the divisor 0
  -- and the quotient that overflows.
  pub div_stage_refines :
      (a b : ℕ) (s : DivState) (j : ℕ) → a < 2 ^ 64 → b < 2 ^ 64 → 32 ≤ j → DivAgrees a b s j
  unfolding Alu.rr_value div_out div_inputs is_n is_rem
  div_stage_refines a b s j ha hb late =
      let at = λ (func : MFunc) (variant : MVariant) (op32 : Bool).
        results (div_msg func variant op32) a b s j ha hb late in
      let sa : IsSigned 63 (signed 64 a) = signed-IsSigned 63 a ha in
      let x = p.slice a 0 32 in
      let y = p.slice b 0 32 in
      let sx : IsSigned 31 (signed 32 x) = signed-IsSigned 31 x (word-lt a) in
      let ex = signed-sext x (word-lt a) in
      let ey = signed-sext y (word-lt b) in
      (
        rw (Alu.rr_value, p.to_int_law 64 a, p.to_int_law 64 b)
            (full _ _ (sane_divide-some _ _ _) (quotient-InRange 63 _ _ sa) _
              (at m_func_div m_variant_n false).0),
        full _ _ (sane_divide-some _ _ _) (quotient-InRange_unsigned 63 a b ha) _
            (at m_func_div m_variant_u false).0,
        rw (Alu.rr_value, p.to_int_law 64 a, p.to_int_law 64 b)
            (full _ _ (sane_rem-some _ _ _) (remainder-InRange 63 _ _ sa) _
              (at m_func_rem m_variant_n false).1),
        full _ _ (sane_rem-some _ _ _) (remainder-InRange_unsigned 63 a b ha) _
            (at m_func_rem m_variant_u false).1,
        rw (p.to_int_law 32 x, p.to_int_law 32 y)
            (half _ _ (sane_divide-some _ _ _) (quotient-InRange 31 _ _ sx) _ (
              low_of _ _ (at m_func_div m_variant_n true).0
              ∙ rw (ex, ey) (divide_word (signed 32 x) (signed 32 y) sx))),
        half _ _ (sane_divide-some _ _ _) (quotient-InRange_unsigned 31 x y (word-lt a)) _ (
            low_of _ _ (at m_func_div m_variant_u true).0
            ∙ low_word (quotient (pos x) (pos y) 64)
            ∙ ap (wrap 32) (divide_pos x y)),
        rw (p.to_int_law 32 x, p.to_int_law 32 y)
            (half _ _ (sane_rem-some _ _ _) (remainder-InRange 31 _ _ sx) _ (
              low_of _ _ (at m_func_rem m_variant_n true).1
              ∙ rw (ex, ey) (rem_word (signed 32 x) (signed 32 y) sx))),
        half _ _ (sane_rem-some _ _ _) (remainder-InRange_unsigned 31 x y (word-lt a)) _ (
            low_of _ _ (at m_func_rem m_variant_u true).1
            ∙ low_word (remainder (pos x) (pos y) 64)
            ∙ ap (wrap 32) (rem_pos x y)),
      )
