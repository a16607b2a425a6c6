-- ===== src/WrapInc/Laws.antt =====
-- The counters count modulo `size`, up or down, and counting down undoes counting up.
use lizard.Prelude.{ℕ, zero, suc, ◌+◌, ◌-◌, ◌*◌, ◌%◌, ◌^◌, ◌≤◌, ◌<◌, ◌≡◌, arith, true, false, some}
use lizard.Prelude.{get_elem?, ◌∙◌, ap, sym, if◌then◌else◌, mod_once, mod_below, mod_step, Bool}
use native.Mathlib.Nat.{mod-lt, add-mul-mod_self_right}
use lizard.Pymtl.{Pymtl}
use lizard.WrapInc.{inc, unit_outs, inc_var}

module _ ⦃p : Pymtl⦄ (nbits size : ℕ) (fits : size ≤ 2 ^ nbits) where
  inc_up : (x : ℕ) → x < size → inc nbits size true x ≡ (x + 1) % size
  unfolding inc
  inc_up x h = ground (
    arith,
    p.add_law nbits x 1,
    mod_below (x + 1) (2 ^ nbits),
    mod_below (x + 1) size,
    mod_once (x + 1) size,
  )

  inc_down : (x : ℕ) → x < size → inc nbits size false x ≡ (x + (size - 1)) % size
  unfolding inc
  inc_down x h = ground (
    arith,
    p.sub_law nbits x 1,
    mod_once (x + 2 ^ nbits - 1) (2 ^ nbits),
    mod_below (x + (size - 1)) size,
    mod_once (x + (size - 1)) size,
  )

  -- How far one unit moves.
  abbrev stride : Bool → ℕ
  stride up = if up then 1 else size - 1

  inc_lem : (up : Bool) (x : ℕ) → x < size → inc nbits size up x ≡ (x + stride up) % size
  inc_lem true x h = inc_up x h
  inc_lem false x h = inc_down x h

  unit_outs_lem :
      (up : Bool) (units k x : ℕ)
      → x < size
      → k < units
      → get_elem? (unit_outs nbits size up units x) k ≡ some ((x + suc k * stride up) % size)
  unfolding unit_outs
  unit_outs_lem up zero k x h lt = absurd (omega arith)
  unit_outs_lem up (suc units) zero x h lt =
      ap some (inc_lem up x h ∙ ap (λ t. (x + t) % size) (omega arith))
  unit_outs_lem up (suc units) (suc k) x h lt = rw (inc_lem up x h) (
      unit_outs_lem up units k ((x + stride up) % size) (mod-lt _ (omega arith)) (omega arith)
      ∙ ap some
          (mod_step (x + stride up) (suc k * stride up) size ∙ ap (λ t. t % size) (omega arith)))

  -- From a value below `size`, which `nbits` bits hold, `ops` steps up are addition modulo `size`,
  -- and `ops` steps down are `ops` times the addition of `size - 1` modulo `size`, for every `ops`
  -- up to `max_ops`.
  pub inc_var_lem :
      (up : Bool) (max_ops ops x : ℕ)
      → x < size
      → ops ≤ max_ops
      → inc_var nbits size up max_ops x ops ≡ some ((x + ops * stride up) % size)
  unfolding inc_var
  inc_var_lem up max_ops zero x h le =
      ap some (sym (ap (λ t. t % size) (omega arith) ∙ mod_below x size h))
  inc_var_lem up max_ops (suc ops) x h le = ground (arith, unit_outs_lem up max_ops ops x h le)

  abbrev turned : ℕ → ℕ → ℕ
  turned x ops = (x + ops * 1) % size

  turn_back : (x ops : ℕ) → x < size → (turned x ops + ops * (size - 1)) % size ≡ x
  turn_back x ops h =
      mod_step (x + ops * 1) (ops * (size - 1)) size
      ∙ ap (λ t. t % size) (regroup (size - 1) size (omega arith))
      ∙ add-mul-mod_self_right x ops size
      ∙ mod_below x size h
    where
      regroup : (d m : ℕ) → suc d ≡ m → x + ops * 1 + ops * d ≡ x + ops * m
      regroup d m e = rw (← e) (omega arith)

  -- From a value below `size`, counting up and then down by the same number of steps, up to
  -- `max_ops`, gives the value back, across the wrap.
  inc_var_down-up :
      (max_ops ops x : ℕ)
      → x < size
      → ops ≤ max_ops
      → (y : ℕ) × (inc_var nbits size true max_ops x ops ≡ some y)
        × (y < size)
        × (inc_var nbits size false max_ops y ops ≡ some x)
  inc_var_down-up max_ops ops x h le =
      let in_range : turned x ops < size = mod-lt (x + ops * 1) (omega arith) in
      (
        turned x ops,
        inc_var_lem true max_ops ops x h le,
        in_range,
        inc_var_lem false max_ops ops (turned x ops) in_range le ∙ ap some (turn_back x ops h),
      )
