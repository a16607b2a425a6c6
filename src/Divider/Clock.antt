-- ===== src/Divider/Clock.antt =====
-- The divider clock cycle by clock cycle: a call of `div`, then cycles without calls.
use lizard.Prelude.{ℕ, zero, suc, ◌+◌, ◌-◌, ◌*◌, ◌^◌, ◌≤◌, ◌<◌, ◌==◌, arith}
use lizard.Prelude.{Bool, true, false, not, ◌&&◌, ◌≡◌, refl, if◌then◌else◌, none}
use lizard.Prelude.{mod_once}
use native.Mathlib.Nat.{mul-suc}
use lizard.Pymtl.{Pymtl}
use lizard.Divider.{DivState, DivCalls, eval, step, acc_next, dividend_next, complement}
use lizard.Divider.Rounds.{Progress, Progress-eval}
use lizard.Divider.Finish.{Relation, Relation-Keeps, Progress-finish, quotient_of, rem_of}

abbrev pub idle : DivCalls
idle = record { div = none; result = false; preempt = false }

-- What a division is of: the magnitudes of the arguments, and which results are negated.
pub record Job : Type 0 where
  pub x : ℕ
  pub d : ℕ
  pub negate : Bool
  pub negate_rem : Bool

module _ ⦃p : Pymtl⦄ (nbits ncycles nsteps k : ℕ) where
  -- `j` cycles without calls.
  unfoldable pub idle_cycles : ℕ → DivState → DivState
  idle_cycles zero s = s
  idle_cycles (suc j) s = idle_cycles j (step (suc k) nbits ncycles nsteps s idle)

-- `c` cycles to go.
pub record IsWorking (k nsteps : ℕ) (b : Job) (c : ℕ) (s : DivState) : Type 0 where
  pub busy : s.busy ≡ true
  pub counter : s.counter ≡ c
  pub divisor : s.divisor ≡ b.d
  pub negate : s.negate ≡ b.negate
  pub negate_rem : s.negate_rem ≡ b.negate_rem
  pub progress : Progress (Relation k b.d) k b.x (nsteps * c) s.acc s.dividend

-- The results stand in the registers.
pub record IsDone (p : Pymtl) (k : ℕ) (b : Job) (s : DivState) : Type 0 where
  pub busy : s.busy ≡ true
  pub counter : s.counter ≡ 0
  pub quotient : s.dividend ≡ (
      let q = quotient_of (suc k) b.x b.d in
      if b.negate && not (b.d == 0) then complement ⦃p = p⦄ (suc k) q else q)
  pub rem :
      s.acc
      ≡ (let r = rem_of b.x b.d in if b.negate_rem then complement ⦃p = p⦄ (suc (suc k)) r else r)

module _ ⦃p : Pymtl⦄ (nbits ncycles nsteps k : ℕ) (b : Job) where
  -- What the registers take where the iterations leave `acc'` and `dividend'`.
  working_acc :
      (c : ℕ) (s : DivState) (acc' dividend' : ℕ)
      → s.counter ≡ suc (suc c)
      → s.divisor ≡ b.d
      → eval (suc k) nsteps b.d (s.acc, s.dividend) ≡ (acc', dividend')
      → (step (suc k) nbits ncycles nsteps s idle).acc ≡ acc'
  unfolding step acc_next
  working_acc c s acc' dividend' hc hd e = rw (hc, hd, e) (ground arith)

  working_dividend :
      (c : ℕ) (s : DivState) (acc' dividend' : ℕ)
      → s.counter ≡ suc (suc c)
      → s.divisor ≡ b.d
      → eval (suc k) nsteps b.d (s.acc, s.dividend) ≡ (acc', dividend')
      → (step (suc k) nbits ncycles nsteps s idle).dividend ≡ dividend'
  unfolding step dividend_next
  working_dividend c s acc' dividend' hc hd e = rw (hc, hd, e) (ground arith)

  IsWorking-step :
      (c : ℕ) (s : DivState)
      → b.d < 2 ^ suc k
      → b.x < 2 ^ suc k
      → suc (suc c) < 2 ^ nbits
      → IsWorking k nsteps b (suc (suc c)) s
      → IsWorking k nsteps b (suc c) (step (suc k) nbits ncycles nsteps s idle)
  unfolding step acc_next dividend_next
  IsWorking-step c s hd hx hc w =
      let (acc', dividend', e, g) =
        Progress-eval (Relation k b.d) k b.d b.x nsteps (nsteps * suc c) (nsteps * suc (suc c))
          s.acc s.dividend (Relation-Keeps k b.d hd) hx (steps) w.progress in
      record {
        busy = w.busy;
        counter = ground (
          arith,
          w.counter,
          p.sub_law nbits s.counter 1,
          mod_once (s.counter + 2 ^ nbits - 1) (2 ^ nbits),
        );
        divisor = w.divisor;
        negate = w.negate;
        negate_rem = w.negate_rem;
        progress =
            rw
              (
                working_acc c s acc' dividend' w.counter w.divisor e,
                working_dividend c s acc' dividend' w.counter w.divisor e,
              )
              g;
      }
    where
      steps : nsteps * suc (suc c) ≡ nsteps + nsteps * suc c
      steps = omega (arith, mul-suc nsteps (suc c))

  final_dividend :
      (s : DivState) (acc' dividend' : ℕ)
      → s.counter ≡ 1
      → s.divisor ≡ b.d
      → s.negate ≡ b.negate
      → eval (suc k) nsteps b.d (s.acc, s.dividend) ≡ (acc', dividend')
      → (step (suc k) nbits ncycles nsteps s idle).dividend
        ≡ (if b.negate && not (b.d == 0) then complement (suc k) dividend' else dividend')
  unfolding step dividend_next
  final_dividend s acc' dividend' hc hd hn e = rw (hc, hd, hn, e) refl

  final_acc :
      (s : DivState) (acc' dividend' : ℕ)
      → s.counter ≡ 1
      → s.divisor ≡ b.d
      → s.negate_rem ≡ b.negate_rem
      → eval (suc k) nsteps b.d (s.acc, s.dividend) ≡ (acc', dividend')
      → (step (suc k) nbits ncycles nsteps s idle).acc ≡ (
          let corrected = if p.index acc' (suc k) then p.add (suc (suc k)) acc' b.d else acc' in
          if b.negate_rem then complement (suc (suc k)) corrected else corrected)
  unfolding step acc_next
  final_acc s acc' dividend' hc hd hn e =
      let width : suc k + 1 ≡ suc (suc k) = omega arith in rw (hc, hd, hn, e, width) refl

  final_step :
      (s : DivState)
      → b.d < 2 ^ suc k
      → b.x < 2 ^ suc k
      → 1 < 2 ^ nbits
      → IsWorking k nsteps b 1 s
      → IsDone p k b (step (suc k) nbits ncycles nsteps s idle)
  unfolding step acc_next dividend_next
  final_step s hd hx hc w =
      let (acc', dividend', e, g) =
        Progress-eval (Relation k b.d) k b.d b.x nsteps 0 (nsteps * 1) s.acc s.dividend
          (Relation-Keeps k b.d hd) hx (omega arith) w.progress in
      let (quotient, rem) = Progress-finish k b.d b.x acc' dividend' hd hx g in
      record {
        busy = w.busy;
        counter = ground (
          arith,
          w.counter,
          p.sub_law nbits s.counter 1,
          mod_once (s.counter + 2 ^ nbits - 1) (2 ^ nbits),
        );
        quotient =
            rw (final_dividend s acc' dividend' w.counter w.divisor w.negate e, quotient) refl;
        rem = rw (final_acc s acc' dividend' w.counter w.divisor w.negate_rem e, rem) refl;
      }

  IsDone-step :
      (s : DivState) → IsDone p k b s → IsDone p k b (step (suc k) nbits ncycles nsteps s idle)
  unfolding step
  IsDone-step s v = record {
    busy = v.busy;
    counter = ground (arith, v.counter);
    quotient = ground (arith, v.counter, v.quotient);
    rem = ground (arith, v.counter, v.rem);
  }

  idle_cycles-IsDone :
      (j : ℕ) (s : DivState)
      → IsDone p k b s
      → IsDone p k b (idle_cycles nbits ncycles nsteps k j s)
  unfolding idle_cycles
  idle_cycles-IsDone zero s v = v
  idle_cycles-IsDone (suc j) s v =
      idle_cycles-IsDone j (step (suc k) nbits ncycles nsteps s idle) (IsDone-step s v)

  -- From `c` cycles to go.
  pub idle_cycles-IsWorking :
      (j c : ℕ) (s : DivState)
      → b.d < 2 ^ suc k
      → b.x < 2 ^ suc k
      → c < 2 ^ nbits
      → 0 < c
      → IsWorking k nsteps b c s
      → (j < c → IsWorking k nsteps b (c - j) (idle_cycles nbits ncycles nsteps k j s))
        × (c ≤ j → IsDone p k b (idle_cycles nbits ncycles nsteps k j s))
  unfolding idle_cycles
  idle_cycles-IsWorking zero c s hd hx hc pos w =
      let e : c - 0 ≡ c = omega arith in (λ _. rw e w, λ h. absurd (omega arith))
  idle_cycles-IsWorking (suc j) zero s hd hx hc pos w = absurd (omega arith)
  idle_cycles-IsWorking (suc j) (suc zero) s hd hx hc pos w =
      (λ h. absurd (omega arith), λ _. idle_cycles-IsDone j _ (final_step s hd hx hc w))
  idle_cycles-IsWorking (suc j) (suc (suc c)) s hd hx hc pos w =
      let (works, done) =
        idle_cycles-IsWorking j (suc c) (step (suc k) nbits ncycles nsteps s idle) hd hx
          (omega arith) (omega arith) (IsWorking-step c s hd hx hc w) in
      let e : suc (suc c) - suc j ≡ suc c - j = omega arith in
      (λ h. rw e (works (omega arith)), λ h. done (omega arith))
