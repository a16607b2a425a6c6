-- ===== src/Cam/Refine.antt =====
-- The memory of a cycle against the methods of its functional model.
use lizard.Prelude.{ℕ, zero, suc, ◌+◌, ◌-◌, ◌==◌, Bool, true, false, arith}
use lizard.Prelude.{
  if◌then◌else◌, Option, none, some, List, [], ◌∷◌, length, get_or, set, ◌≡◌, refl, ◌∙◌, ap,
  Option-cases, inl, inr,
}
use lizard.Prelude.{sym}
use mathlib.Core.Path.{ap₂}
use lizard.Pymtl.{Pymtl}
use lizard.Cam.{
  Entry, CamState, WriteArgs, CamCalls, cleared, is_at, is_invalid, read, cleared_entries, fl_read,
  fl_write, fl_write_new, last_index, new_entry, next_counter, step, write_loop, written_from,
  fl_cycle,
}
use lizard.Cam.Target.{
  chain-last_index, entries_of, hit, hole, overwrite_lem, overwrites, target_of, wires, written_lem,
}

-- The first of two results that is there.
abbrev or_else : Option ℕ → Option ℕ → Option ℕ
or_else (some i) o = some i
or_else none o = o

write_loop_lem :
    (key : ℕ) (entries : List Entry) (left : ℕ) (last : Option ℕ)
    → ((write_loop key entries left last).0 ≡ last_index (is_at key) entries left)
      × (last_index (is_at key) entries left ≡ none
          → (write_loop key entries left last).1
            ≡ or_else last (last_index is_invalid entries left))
unfolding write_loop last_index
write_loop_lem key entries zero none = (refl, λ _. refl)
write_loop_lem key entries zero (some i) = (refl, λ _. refl)
write_loop_lem key entries (suc left) last =
    let entry = get_or entries left cleared in
    loop_step (is_at key entry) (is_invalid entry) left last (write_loop key entries left)
      (last_index (is_at key) entries left) (last_index is_invalid entries left)
      (write_loop_lem key entries left)
  where
    loop_step :
        (at invalid : Bool) (left : ℕ) (last : Option ℕ) (rest : Option ℕ → Option ℕ × Option ℕ)
        (at_rest invalid_rest : Option ℕ)
        → ((l : Option ℕ)
            → ((rest l).0 ≡ at_rest) × (at_rest ≡ none → (rest l).1 ≡ or_else l invalid_rest))
        → let looped =
            if at
            then (some left, last)
            else rest
                (elim last [ some i ↦ some i | none ↦ if invalid then some left else none ]) in
          (looped.0 ≡ (if at then some left else at_rest))
          × ((if at then some left else at_rest) ≡ none
              → looped.1 ≡ or_else last (if invalid then some left else invalid_rest))
    loop_step true invalid left last rest at_rest invalid_rest h = (refl, λ e. absurd cc)
    loop_step false invalid left (some i) rest at_rest invalid_rest h = h (some i)
    loop_step false true left none rest at_rest invalid_rest h = h (some left)
    loop_step false false left none rest at_rest invalid_rest h = h none

cleared-set :
    (xs : List Entry) (i : ℕ) (e : Entry) → cleared_entries (set xs i e) ≡ cleared_entries xs
unfolding cleared_entries
cleared-set [] i e = refl
cleared-set (x ∷ xs) zero e = refl
cleared-set (x ∷ xs) (suc i) e = rw (cleared-set xs i e) refl

cleared_of :
    (s : CamState) (w : WriteArgs) (t : Option ℕ)
    → cleared_entries (entries_of s w t) ≡ cleared_entries s.entries
cleared_of s w none = refl
cleared_of s w (some t) = cleared-set s.entries t (new_entry w)

found_value :
    (entries : List Entry) (o : Option ℕ)
    → ◌≡◌ {A = ℕ × Bool}
        (let (addr, valid) = wires 0 (0, false) o in ((get_or entries addr cleared).value, valid))
        (elim o [
          | some i ↦ ((get_or entries i cleared).value, true)
          | none ↦ ((get_or entries 0 cleared).value, false)
        ])
found_value entries (some i) = let e : 0 + i ≡ i = omega arith in rw e refl
found_value entries none = refl

read_lem : (entries : List Entry) (key : ℕ) → read entries key ≡ fl_read entries key
unfolding read fl_read
read_lem entries key =
    rw (chain-last_index (is_at key) 0 (0, false) entries)
      (found_value entries (last_index (is_at key) entries (length entries)))

module _ ⦃p : Pymtl⦄ (nbits nregs : ℕ) where
  -- The counter after a cycle that calls `write`.
  abbrev pub counter_of : CamState → Bool → ℕ
  counter_of s b =
      if b
      then (if s.overwrite_counter == nregs - 1 then 0 else p.add nbits s.overwrite_counter 1)
      else s.overwrite_counter

  -- What `write` does with the result of its loop.
  abbrev after_loop : CamState → WriteArgs → Option ℕ → Option ℕ → CamState
  after_loop s w found last_invalid = elim found [
    | some i ↦ record s { entries = set s.entries i (new_entry w) }
    | none ↦ if w.remove then s else fl_write_new nbits nregs s w last_invalid
  ]

  -- The state after a cycle that calls `write`, by what the loops find.
  abbrev pub written_state : CamState → WriteArgs → Option ℕ → Option ℕ → CamState
  written_state s w found last_invalid = record {
    entries = entries_of s w (target_of w.remove s.overwrite_counter found last_invalid);
    overwrite_counter = counter_of s (overwrites w.remove found last_invalid);
  }

  new_cases :
      (s : CamState) (w : WriteArgs) (remove : Bool) (last_invalid : Option ℕ)
      → ◌≡◌ {A = CamState}
          (if remove then s else fl_write_new nbits nregs s w last_invalid)
          (record {
            entries = entries_of s w (target_of remove s.overwrite_counter none last_invalid);
            overwrite_counter = counter_of s (overwrites remove none last_invalid);
          })
  unfolding fl_write_new
  new_cases s w true last_invalid = refl
  new_cases s w false (some h) = refl
  new_cases s w false none = refl

  pub fl_write_lem :
      (s : CamState) (w : WriteArgs)
      → fl_write nbits nregs s w ≡ written_state s w (hit s w) (hole s w)
  unfolding fl_write
  fl_write_lem s w =
      let looped = write_loop w.key s.entries (length s.entries) none in
      let (found, last) = write_loop_lem w.key s.entries (length s.entries) none in
      elim (Option-cases (hit s w)) [
        | inl e ↦
            ap₂ (after_loop s w) (found ∙ e) (last e)
            ∙ new_cases s w w.remove (hole s w)
            ∙ ap (λ (f : Option ℕ). written_state s w f (hole s w)) (sym e)
        | inr (i, e) ↦
            ap (λ (f : Option ℕ). after_loop s w f looped.1) (found ∙ e)
            ∙ ap (λ (f : Option ℕ). written_state s w f (hole s w)) (sym e)
      ]

  step_write :
      (s : CamState) (w : WriteArgs)
      → (written_from s w 0 s.entries ≡ (fl_write nbits nregs s w).entries)
        × (next_counter nbits nregs s w ≡ (fl_write nbits nregs s w).overwrite_counter)
        × (cleared_entries s.entries ≡ cleared_entries (fl_write nbits nregs s w).entries)
  unfolding next_counter
  step_write s w = rw (fl_write_lem s w) (
    written_lem s w,
    rw (overwrite_lem s w) refl,
    sym (cleared_of s w (target_of w.remove s.overwrite_counter (hit s w) (hole s w))),
  )

  step_cases :
      (s : CamState) (write : Option WriteArgs) (clear : Bool)
      → let c : CamCalls = record { write = write; clear = clear } in
        step nbits nregs s c ≡ fl_cycle nbits nregs s c
  unfolding step fl_cycle
  step_cases s none true = refl
  step_cases s none false = refl
  step_cases s (some w) true =
      let (entries, counter, wiped) = step_write s w in
      (λ i. record { entries = wiped i; overwrite_counter = counter i })
  step_cases s (some w) false =
      let (entries, counter, wiped) = step_write s w in
      (λ i. record { entries = entries i; overwrite_counter = counter i })

  -- A clock cycle of the memory does what the methods of the functional model do that are called in
  -- it, `write` before `clear`, whichever entry is hit, empty or overwritten; and reads find what the
  -- functional model finds, the value of entry 0 for a key that is not there.
  pub step-fl_cycle :
      (s : CamState) (c : CamCalls)
      → (step nbits nregs s c ≡ fl_cycle nbits nregs s c)
        × ((key : ℕ) → read s.entries key ≡ fl_read s.entries key)
  step-fl_cycle s c = (step_cases s c.write c.clear, λ key. read_lem s.entries key)
