-- ===== src/Cam/Tests.antt =====
-- Two entries; a key that is new to a full memory overwrites the entry that the counter names.
use lizard.Prelude.{ℕ, ◌≡◌, refl, arith, true, false, some, [], ◌∷◌, zero, suc, ◌<◌, get_or}
use lizard.Pymtl.Standard.{standard}
use lizard.Cam.{is_at, cleared, CamState, CamCalls, step, read, fl_read, fl_cycle}
use lizard.Cam.Refine.{step-fl_cycle}
use lizard.Cam.Lookup.{read-write}
use lizard.Cam.Keys.{IsValid, cam_step-IsValid}

abbrev full : CamState
full = record {
  entries =
      record { key = 5; value = 50; valid = true }
      ∷ record { key = 6; value = 60; valid = true }
      ∷ [];
  overwrite_counter = 1;
}

abbrev write : CamCalls
write = record { write = some (record { key = 7; remove = false; value = 70 }); clear = false }

abbrev overwritten : CamState
overwritten = record {
  entries =
      record { key = 5; value = 50; valid = true }
      ∷ record { key = 7; value = 70; valid = true }
      ∷ [];
  overwrite_counter = 0;
}

step_test : step 1 2 full write ≡ overwritten
unfolding step
step_test = refl

read_test : read overwritten.entries 7 ≡ (70, true)
unfolding read
read_test = refl

full-IsValid : IsValid 2 full
full-IsValid = record { size = refl; counter = omega arith; distinct = distinct }
  where
    distinct :
        (key i j : ℕ)
        → i < 2
        → j < 2
        → is_at key (get_or full.entries i cleared) ≡ true
        → is_at key (get_or full.entries j cleared) ≡ true
        → i ≡ j
    distinct key zero zero hi hj a b = refl
    distinct key zero (suc zero) hi hj a b = ground (arith)
    distinct key (suc zero) zero hi hj a b = ground (arith)
    distinct key (suc zero) (suc zero) hi hj a b = refl
    distinct key (suc (suc i)) j hi hj a b = absurd (omega arith)
    distinct key i (suc (suc j)) hi hj a b = absurd (omega arith)

cam_step-IsValid_example : IsValid 2 (step 1 2 full write)
cam_step-IsValid_example = cam_step-IsValid 1 2 full write full-IsValid

step-fl_cycle_example :
    (step 1 2 full write ≡ fl_cycle 1 2 full write)
    × ((key : ℕ) → read full.entries key ≡ fl_read full.entries key)
step-fl_cycle_example = step-fl_cycle 1 2 full write

read-write_example :
    let next = step 1 2 full write in
    (false ≡ false → read next.entries 7 ≡ (70, true))
    × (false ≡ true → (read next.entries 7).1 ≡ false)
read-write_example =
    read-write 1 2 full (record { key = 7; remove = false; value = 70 }) full-IsValid
