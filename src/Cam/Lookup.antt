-- ===== src/Cam/Lookup.antt =====
-- What a read finds after a write.
use lizard.Prelude.{ℕ, ◌<◌, ◌==◌, Bool, true, false, arith, ap, ◌∙◌}
use lizard.Prelude.{Option, none, some, length, get_or, set, ◌≡◌, refl}
use lizard.Prelude.{Option-cases, inl, inr, List, ==_iff, get_or-set_self, get_or-set_ne}
use native.Mathlib.Decide.{ℕ_discrete}
use lizard.Pymtl.{Pymtl}
use lizard.Cam.Keys.{IsValid, cam_step-IsValid, last_index-none, last_index-some, others_free}
use lizard.Cam.{
  CamState, fl_cycle, fl_read, WriteArgs, is_at, cleared, new_entry, step, last_index, read, Entry,
}
use lizard.Cam.Target.{entries_of, hit, target_of, hole}
use lizard.Cam.Refine.{step-fl_cycle, fl_write_lem}

-- A valid entry with the key is found.
read_found :
    (nregs : ℕ) (s : CamState) (key t : ℕ)
    → IsValid nregs s
    → t < nregs
    → is_at key (get_or s.entries t cleared) ≡ true
    → fl_read s.entries key ≡ ((get_or s.entries t cleared).value, true)
unfolding fl_read
read_found nregs s key t v ht at =
    elim (Option-cases (last_index (is_at key) s.entries (length s.entries))) [
      | inl e ↦
          let clear : is_at key (get_or s.entries t cleared) ≡ false =
            last_index-none (is_at key) s.entries (length s.entries) t e (omega (arith, v.size)) in
          absurd cc
      | inr (i, e) ↦
          let (lt, here) = last_index-some (is_at key) s.entries (length s.entries) i e in
          let same : i ≡ t = v.distinct key i t (omega (arith, v.size)) ht here at in
          rw (e, fl_read, same) refl
    ]

-- No valid entry with the key, no hit.
read_missing :
    (nregs : ℕ) (s : CamState) (key : ℕ)
    → IsValid nregs s
    → ((i : ℕ) → i < nregs → is_at key (get_or s.entries i cleared) ≡ false)
    → (fl_read s.entries key).1 ≡ false
unfolding fl_read
read_missing nregs s key v h =
    elim (Option-cases (last_index (is_at key) s.entries (length s.entries))) [
      | inl e ↦ rw (e, fl_read) refl
      | inr (i, e) ↦
          let (lt, here) = last_index-some (is_at key) s.entries (length s.entries) i e in
          let none_here : is_at key (get_or s.entries i cleared) ≡ false =
            h i (omega (arith, v.size)) in
          absurd cc
    ]

eqb_refl : (a : ℕ) → (a == a) ≡ true
eqb_refl a = (==_iff a a).1 refl

module _ (nregs : ℕ) (s : CamState) (w : WriteArgs) (v : IsValid nregs s) where
  abbrev target : Option ℕ
  target = target_of w.remove s.overwrite_counter (hit s w) (hole s w)

  -- An entry is written unless an absent key is removed.
  target_kept : w.remove ≡ false → (t : ℕ) × (target ≡ some t) × (t < nregs)
  target_kept keep = elim (Option-cases (hit s w)) [
    | inr (i, e) ↦
        let (lt, here) = last_index-some (is_at w.key) s.entries (length s.entries) i e in
        (i, rw e refl, omega (arith, v.size))
    | inl e ↦ elim (Option-cases (hole s w)) [
      | inr (i, f) ↦
          let (lt, here) = last_index-some _ s.entries (length s.entries) i f in
          (i, rw (keep, e, f) refl, omega (arith, v.size))
      | inl f ↦ (s.overwrite_counter, rw (keep, e, f) refl, v.counter)
    ]
  ]

  target_removed :
      w.remove ≡ true
      → (i : ℕ) → i < nregs
      → is_at w.key (get_or (entries_of s w target) i cleared) ≡ false
  target_removed gone i lt = elim (Option-cases (hit s w)) [
    | inl e ↦
        let none_written : target ≡ none = rw (gone, e) refl in
        rw none_written
          (last_index-none (is_at w.key) s.entries (length s.entries) i e (omega (arith, v.size)))
    | inr (t, e) ↦
        let written : target ≡ some t = rw e refl in
        rw written (elim (ℕ_discrete t i) [
          | yes same ↦
              let size : t < length s.entries = omega (arith, v.size) in
              rw (← same)
                (rw (get_or-set_self s.entries t (new_entry w) cleared size) (invalid gone))
          | no other ↦
              rw (get_or-set_ne s.entries t i (new_entry w) cleared other)
                (others_free nregs s w v t written i lt other)
        ])
  ]
    where
      invalid : w.remove ≡ true → is_at w.key (new_entry w) ≡ false
      invalid h = rw (h, eqb_refl w.key) refl

  written_here :
      (t : ℕ)
      → t < nregs
      → w.remove ≡ false
      → (get_or (set s.entries t (new_entry w)) t cleared ≡ new_entry w)
        × (is_at w.key (new_entry w) ≡ true)
  written_here t lt keep = (
    get_or-set_self s.entries t (new_entry w) cleared (omega (arith, v.size)),
    rw (keep, eqb_refl w.key) refl,
  )

module _ ⦃p : Pymtl⦄ (nbits nregs : ℕ) where
  -- A read finds what the last write of its key left: after a cycle that writes a value, that value,
  -- whether the key was there, took an empty entry or overwrote another; after one that removes the
  -- key, no hit. The memory is valid, and `clear` is not called.
  pub read-write :
      (s : CamState) (w : WriteArgs)
      → IsValid nregs s
      → let next = step nbits nregs s (record { write = some w; clear = false }) in
        (w.remove ≡ false → read next.entries w.key ≡ (w.value, true))
        × (w.remove ≡ true → (read next.entries w.key).1 ≡ false)
  unfolding fl_cycle
  read-write s w v = (kept, removed)
    where
      next : CamState
      next = step nbits nregs s (record { write = some w; clear = false })

      next-IsValid : IsValid nregs next
      next-IsValid = cam_step-IsValid nbits nregs s (record { write = some w; clear = false }) v

      entries : next.entries ≡ entries_of s w (target nregs s w v)
      entries =
          ap (λ (t : CamState). t.entries)
            ((step-fl_cycle nbits nregs s (record { write = some w; clear = false })).0
              ∙ fl_write_lem nbits nregs s w)

      kept : w.remove ≡ false → read next.entries w.key ≡ (w.value, true)
      kept keep =
          let (t, e, lt) = target_kept nregs s w v keep in
          let (here, at) = written_here nregs s w v t lt keep in
          let stored : get_or next.entries t cleared ≡ new_entry w =
            ap (λ (xs : List Entry). get_or xs t cleared) (entries ∙ ap (entries_of s w) e)
            ∙ here in
          (step-fl_cycle nbits nregs next (record { write = none; clear = false })).1 w.key
          ∙ read_found nregs next w.key t next-IsValid lt (ap (is_at w.key) stored ∙ at)
          ∙ ap (λ (x : Entry). (x.value, true)) stored

      removed : w.remove ≡ true → (read next.entries w.key).1 ≡ false
      removed gone =
          ap (λ (x : ℕ × Bool). x.1)
            ((step-fl_cycle nbits nregs next (record { write = none; clear = false })).1 w.key)
          ∙ read_missing nregs next w.key next-IsValid (λ i lt.
            ap (λ (xs : List Entry). is_at w.key (get_or xs i cleared)) entries
            ∙ target_removed nregs s w v gone i lt)
