-- ===== src/Multiplier/Product.antt =====
-- The multiplier against the product of integers.
use lizard.Prelude.{ℕ, zero, suc, ◌+◌, ◌-◌, ◌*◌, ◌%◌, ◌^◌, ◌≤◌, ◌<◌, Bool, true, false, ◌&&◌, arith}
use lizard.Prelude.{
  if◌then◌else◌, Option, none, some, List, [], ◌∷◌, ◌++◌, length, ◌≡◌, refl, sym, ap, ◌∙◌,
}
use lizard.Prelude.{mod_below, mod_step}
use lizard.Prelude.Int.{ℤ, pos, negsuc, neg, abs, ◌*ℤ◌}
use native.Mathlib.Nat.{mod_self}
use mathlib.Core.List.{append_assoc, append-nil}
use lizard.BitLaws.Masks.{two_pow_pos}
use lizard.Pymtl.{Pymtl, wrap}
use lizard.Divider.{differ, complement, magnitude}
use lizard.Divider.Signs.{operand, is_neg, is_neg_lem, magnitude-abs, complement-neg}
use lizard.Multiplier.{
  MulArgs, MulState, Source, called, MulCalls, src_usign, sign_in, move, mul_cycle, mul_step,
}
use lizard.Multiplier.Stages.{source_value, signed_out}
use lizard.Multiplier.Fifo.{when, held, AreFit, move-Cycle}

module _ ⦃p : Pymtl⦄ where
  wrap-neg_mod : (n x : ℕ) → wrap n (neg (x % 2 ^ n)) ≡ wrap n (neg x)
  wrap-neg_mod n zero = ap (λ (x : ℕ). wrap n (neg x)) (mod_below 0 (2 ^ n) (two_pow_pos n))
  wrap-neg_mod n (suc y) = reduced (suc y % 2 ^ n) refl
    where
      step : (y % 2 ^ n + 1) % 2 ^ n ≡ suc y % 2 ^ n
      step =
          let e : y + 1 ≡ suc y = omega arith in mod_step y 1 (2 ^ n) ∙ ap (λ (x : ℕ). x % 2 ^ n) e

      reduced : (q : ℕ) → suc y % 2 ^ n ≡ q → wrap n (neg q) ≡ 2 ^ n - 1 - y % 2 ^ n
      reduced zero e = ground (
        arith,
        step,
        two_pow_pos n,
        mod_below 0 (2 ^ n) (two_pow_pos n),
        mod_below (y % 2 ^ n + 1) (2 ^ n),
      )
      reduced (suc q) e = ground (
        arith,
        step,
        two_pow_pos n,
        mod_self (2 ^ n),
        mod_below (y % 2 ^ n + 1) (2 ^ n),
        mod_below q (2 ^ n),
      )

  negated : (n x : ℕ) → complement n (x % 2 ^ n) ≡ wrap n (neg x)
  negated n x = complement-neg n (x % 2 ^ n) (omega (arith, two_pow_pos n)) ∙ wrap-neg_mod n x

  signed_product :
      (m k n : ℕ) (k≤m : k ≤ m) (x y : ℤ)
      → signed_out m k n k≤m (differ (is_neg x) (is_neg y)) (abs x * abs y % 2 ^ n)
        ≡ wrap n (x *ℤ y)
  signed_product m k n k≤m (pos a) (pos b) = ground arith
  signed_product m k n k≤m (pos a) (negsuc b) = ground (arith, negated n (a * suc b))
  signed_product m k n k≤m (negsuc a) (pos b) = ground (arith, negated n (suc a * b))
  signed_product m k n k≤m (negsuc a) (negsuc b) = refl

nothing : (b : Bool) → ◌≡◌ {A = List ℕ} (if b then [] else []) []
nothing true = refl
nothing false = refl

module _ ⦃p : Pymtl⦄ (h k n : ℕ) (k≤m : k ≤ suc h) where
  -- The product that a call asks for.
  abbrev pub product : MulArgs → ℕ
  product a = wrap n (operand (suc h) a.src1_signed a.src1 *ℤ operand (suc h) a.src2_signed a.src2)

  src_usign-abs :
      (is_signed : Bool) (x : ℕ)
      → x < 2 ^ suc h
      → src_usign (suc h) k n is_signed x ≡ abs (operand (suc h) is_signed x)
  unfolding src_usign magnitude
  src_usign-abs is_signed x lt = swap is_signed (p.index x (suc h - 1)) refl
    where
      swap :
          (s b : Bool)
          → p.index x (suc h - 1) ≡ b
          → (if b && s then complement (suc h) x else x) ≡ abs (operand (suc h) s x)
      swap true true e =
          sym (ap (λ (b : Bool). if b then complement (suc h) x else x) e)
          ∙ magnitude-abs h x true lt
      swap true false e =
          sym (ap (λ (b : Bool). if b then complement (suc h) x else x) e)
          ∙ magnitude-abs h x true lt
      swap false true e = refl
      swap false false e = refl

  source_value-product :
      (a : MulArgs)
      → a.src1 < 2 ^ suc h
      → a.src2 < 2 ^ suc h
      → source_value (suc h) k n k≤m 0 (called a) ≡ product a
  unfolding source_value sign_in
  source_value-product a h1 h2 =
      rw
        (
          src_usign-abs a.src1_signed a.src1 h1,
          src_usign-abs a.src2_signed a.src2 h2,
          is_neg_lem h a.src1 a.src1_signed h1,
          is_neg_lem h a.src2 a.src2_signed h2,
        )
        (signed_product (suc h) k n k≤m (operand (suc h) a.src1_signed a.src1)
          (operand (suc h) a.src2_signed a.src2))

  -- What `mult` is given, a cycle at a time, and what leaves.
  unfoldable pub accepted : MulState → MulCalls → List ℕ
  unfolding mul_cycle
  accepted s c = elim c.mult [
    | some a ↦ if (mul_cycle (suc h) k n s c).rdy then product a ∷ [] else []
    | none ↦ []
  ]

  unfoldable pub all_accepted : MulState → List MulCalls → List ℕ
  unfolding mul_step
  all_accepted s [] = []
  all_accepted s (c ∷ cs) = accepted s c ++ all_accepted (mul_step (suc h) k n s c) cs

  unfoldable pub all_taken : MulState → List MulCalls → List ℕ
  unfolding mul_step
  all_taken s [] = []
  all_taken s (c ∷ cs) = when c.take s.last_val ++ all_taken (mul_step (suc h) k n s c) cs

  unfoldable pub final : MulState → List MulCalls → MulState
  unfolding mul_step
  final s [] = s
  final s (c ∷ cs) = final (mul_step (suc h) k n s c) cs

  -- The products that are held, the one nearer to the output first.
  abbrev pub in_flight : MulState → List ℕ
  in_flight s = held (suc h) k n k≤m 0 s.stages s.last_valid s.last_val

  -- The operands have their width, and the result is taken only when it is ready.
  abbrev pub IsAllowed : MulState → List MulCalls → Type 0
  IsAllowed s [] = Unit
  IsAllowed s (c ∷ cs) =
      (c.take ≡ true → s.last_valid ≡ true)
      × ((a : MulArgs) → c.mult ≡ some a → (a.src1 < 2 ^ suc h) × (a.src2 < 2 ^ suc h))
      × IsAllowed (mul_step (suc h) k n s c) cs

  -- The operand bits are shared out among the stages, and the registers hold what is left of them.
  abbrev pub IsReady : MulState → Type 0
  IsReady s = (suc h ≡ k * suc (length s.stages)) × AreFit (suc h) k n k≤m 0 s.stages

  cycle :
      (s : MulState) (c : MulCalls)
      → IsReady s
      → (c.take ≡ true → s.last_valid ≡ true)
      → ((a : MulArgs) → c.mult ≡ some a → (a.src1 < 2 ^ suc h) × (a.src2 < 2 ^ suc h))
      → (when c.take s.last_val ++ in_flight (mul_step (suc h) k n s c)
          ≡ in_flight s ++ accepted s c)
        × IsReady (mul_step (suc h) k n s c)
  unfolding mul_step mul_cycle accepted
  cycle s c (width, fit) allowed bounds = by_call c.mult bounds
    where
      by_call :
          (call : Option MulArgs)
          → ((a : MulArgs) → call ≡ some a → (a.src1 < 2 ^ suc h) × (a.src2 < 2 ^ suc h))
          → let given = record c { mult = call } in
            (when c.take s.last_val ++ in_flight (mul_step (suc h) k n s given)
              ≡ in_flight s ++ accepted s given)
            × IsReady (mul_step (suc h) k n s given)
      by_call none ok =
          let (sum, fit', size) =
            move-Cycle (suc h) k n k≤m 0 none s.stages s.last_valid s.last_val c.take tt fit
              allowed in
          let ready = (move (suc h) k n 0 none s.stages s.last_valid s.last_val c.take).rdy in
          (sum ∙ ap (λ (l : List ℕ). in_flight s ++ l) (nothing ready), (rw size width, fit'))
      by_call (some a) ok =
          let (b1, b2) = ok a refl in
          let input : Option Source = some (called a) in
          let (sum, fit', size) =
            move-Cycle (suc h) k n k≤m 0 input s.stages s.last_valid s.last_val c.take
              (refl, b1, b2, width) fit allowed in
          let ready = (move (suc h) k n 0 input s.stages s.last_valid s.last_val c.take).rdy in
          (
            sum
                ∙ ap (λ (v : ℕ). in_flight s ++ (if ready then v ∷ [] else []))
                    (source_value-product a b1 b2),
            (rw size width, fit'),
          )

  -- A multiplier whose stages share out the bits of the second operand, over any run in which the
  -- operands have their width and the result is taken only when it is ready: the products that were
  -- taken, and then those that are in flight at the end, are those that were in flight at the start and
  -- then the products of the calls that were accepted, in order, each the low `n` bits of the product of
  -- the two operands, signed or not as the call says, whichever stages stall.
  pub mul_fifo :
      (s : MulState) (cs : List MulCalls)
      → IsReady s
      → IsAllowed s cs
      → all_taken s cs ++ in_flight (final s cs) ≡ in_flight s ++ all_accepted s cs
  unfolding all_taken all_accepted final
  mul_fifo s [] r ok = sym (append-nil (in_flight s))
  mul_fifo s (c ∷ cs) r (allowed, bounds, oks) =
      let (sum, next) = cycle s c r allowed bounds in
      let s' = mul_step (suc h) k n s c in
      append_assoc (when c.take s.last_val) _ _
      ∙ ap (λ (l : List ℕ). when c.take s.last_val ++ l) (mul_fifo s' cs next oks)
      ∙ sym (append_assoc (when c.take s.last_val) _ _)
      ∙ ap (λ (l : List ℕ). l ++ all_accepted s' cs) sum
      ∙ append_assoc (in_flight s) _ _
