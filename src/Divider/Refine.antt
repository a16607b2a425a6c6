-- ===== src/Divider/Refine.antt =====
-- The divider against the division of the instructions.
use lizard.Prelude.{ℕ, zero, suc, ◌+◌, ◌-◌, ◌*◌, ◌^◌, ◌≤◌, ◌<◌, arith}
use lizard.Prelude.{pow-suc, Bool, true, false, ◌&&◌, ◌≡◌, refl, some, sym, ap, ◌∙◌}
use lizard.Prelude.Int.{ℤ, abs}
use mathlib.Core.Option
use mathlib.Core.Path.{ap₂, subst}
use lizard.BitLaws.Masks.{two_pow_pos}
use lizard.Bitutil.{clog2}
use lizard.Bitutil.Clog2.{clog2_lem}
use lizard.Pymtl.{Pymtl, wrap}
use lizard.Semantics.Divide.{sane_divide, sane_rem}
use lizard.Semantics.Divide.Total.{sane_divide-some, sane_rem-some}
use lizard.Divider.Finish.{Progress-start}
use lizard.Divider.Clock.{Job, idle_cycles, IsWorking, idle_cycles-IsWorking}
use lizard.Divider.Signs.{operand, is_neg, is_neg_lem, magnitude-abs, quotient-wrap, rem-wrap}
use lizard.Divider.{
  DivArgs, differ, DivCalls, result_rdy, step, DivState, result_quotient, result_rem,
}

-- A cycle in which `div` is called, whatever else is.
abbrev pub start : DivArgs → Bool → Bool → DivCalls
start args result preempt = record { div = some args; result = result; preempt = preempt }

differ_lem : (s a b : Bool) → (s && differ a b) ≡ differ (s && a) (s && b)
differ_lem true a b = refl
differ_lem false a b = refl

abs-operand-lt :
    (k x : ℕ) (is_signed : Bool) → x < 2 ^ suc k → abs (operand (suc k) is_signed x) < 2 ^ suc k
abs-operand-lt k x true h =
    let e : suc k - 1 ≡ k = omega arith in rw e (ground (arith, pow-suc 2 k, two_pow_pos k))
abs-operand-lt k x false h = h

counter_fits : (n nbits : ℕ) → clog2 (n + 1) ≡ some nbits → n < 2 ^ nbits
counter_fits n nbits e =
    let (r, f, is) = clog2_lem (n + 1) in
    let same : r ≡ nbits = cc in subst (λ t. n < 2 ^ t) same (omega (arith, is.enough))

cycles_pos : (k nsteps ncycles : ℕ) → nsteps * ncycles ≡ suc k → 0 < ncycles
cycles_pos k nsteps zero e = absurd (omega arith)
cycles_pos k nsteps (suc c) e = omega arith

module _ ⦃p : Pymtl⦄ (k ncycles nsteps nbits : ℕ) (args : DivArgs) where
  abbrev dividend : ℤ
  dividend = operand (suc k) args.is_signed args.dividend

  abbrev divisor : ℤ
  divisor = operand (suc k) args.is_signed args.divisor

  abbrev job : Job
  job = record {
    x = abs dividend;
    d = abs divisor;
    negate = differ (is_neg divisor) (is_neg dividend);
    negate_rem = is_neg dividend;
  }

  started :
      (s : DivState) (result preempt : Bool)
      → args.dividend < 2 ^ suc k
      → args.divisor < 2 ^ suc k
      → nsteps * ncycles ≡ suc k
      → IsWorking k nsteps job ncycles
          (step (suc k) nbits ncycles nsteps s (start args result preempt))
  unfolding step
  started s result preempt hx hd rounds =
      let x = magnitude-abs k args.dividend args.is_signed hx in
      record {
        busy = refl;
        counter = refl;
        divisor = magnitude-abs k args.divisor args.is_signed hd;
        negate =
            differ_lem args.is_signed _ _
            ∙ ap₂ differ (is_neg_lem k args.divisor args.is_signed hd)
                (is_neg_lem k args.dividend args.is_signed hx);
        negate_rem = is_neg_lem k args.dividend args.is_signed hx;
        progress =
            rw (rounds, x)
              (Progress-start k (abs divisor) (abs dividend)
                (abs-operand-lt k _ args.is_signed hx));
      }

  -- The divider gives the quotient and the remainder of the instructions, in time. Of a data length
  -- that `ncycles` cycles of `nsteps` iterations make up, with a counter of `clog2(ncycles + 1)`
  -- bits: whatever the registers hold when `div` is called, and after each number `j` of cycles
  -- without calls, the result is ready exactly when `j` is at least `ncycles`, and then it is the
  -- quotient and the remainder of the functional model, signed or unsigned, also for the divisor 0
  -- and the quotient that overflows.
  pub divide_lem :
      (s : DivState) (result preempt : Bool) (j : ℕ)
      → args.dividend < 2 ^ suc k
      → args.divisor < 2 ^ suc k
      → nsteps * ncycles ≡ suc k
      → clog2 (ncycles + 1) ≡ some nbits
      → let t =
          idle_cycles nbits ncycles nsteps k j
            (step (suc k) nbits ncycles nsteps s (start args result preempt)) in
        (j < ncycles → result_rdy t ≡ false)
        × (ncycles ≤ j
            → (result_rdy t ≡ true)
              × (Option.map (wrap (suc k)) (sane_divide dividend divisor (suc k))
                  ≡ some (result_quotient (suc k) t))
              × (Option.map (wrap (suc k)) (sane_rem dividend divisor (suc k))
                  ≡ some (result_rem (suc k) t)))
  unfolding result_rdy result_quotient result_rem
  divide_lem s result preempt j hx hd rounds width =
      let x_lt = abs-operand-lt k args.dividend args.is_signed hx in
      let d_lt = abs-operand-lt k args.divisor args.is_signed hd in
      let fits : ncycles < 2 ^ nbits = counter_fits ncycles nbits width in
      let (working, done) =
        idle_cycles-IsWorking nbits ncycles nsteps k job j ncycles _ d_lt x_lt fits
          (cycles_pos k nsteps ncycles rounds) (started s result preempt hx hd rounds) in
      (
        λ early. let w = working early in rw (w.busy, w.counter) (ground arith),
        λ late.
            let v = done late in
            (
              rw (v.busy, v.counter) refl,
              ap (Option.map (wrap (suc k))) (sane_divide-some dividend divisor (suc k))
                  ∙ ap some (sym (v.quotient ∙ quotient-wrap k dividend divisor x_lt)),
              ap (Option.map (wrap (suc k))) (sane_rem-some dividend divisor (suc k))
                  ∙ ap some (sym (rw v.rem (rem-wrap k dividend divisor x_lt))),
            ),
      )
