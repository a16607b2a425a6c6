-- ===== src/Cam/Target.antt =====
-- The entry that a cycle writes, from the chains of the hardware.
use lizard.Prelude.{ℕ, zero, suc, ◌+◌, ◌<◌, ◌==◌, Bool, true, false, not, ◌&&◌, ◌||◌, arith}
use lizard.Prelude.{
  if◌then◌else◌, Option, none, some, List, [], ◌∷◌, length, set, ◌≡◌, refl, ◌∙◌, ==_ne, ==_iff,
}
use lizard.Cam.{
  Entry, CamState, WriteArgs, is_at, is_invalid, chain, write_addr, invalid_addr, overwrite,
  write_call, last_index, new_entry, written_from,
}

-- The wires of a pair of chains for the entry that is found.
abbrev pub wires : ℕ → ℕ × Bool → Option ℕ → ℕ × Bool
wires i before (some j) = (i + j, true)
wires i before none = before

-- The number of an entry with one more before it.
abbrev pub shifted : Bool → Option ℕ → Option ℕ
shifted first (some j) = some (suc j)
shifted first none = if first then some 0 else none

wires-shifted :
    (i : ℕ) (before : ℕ × Bool) (b : Bool) (o : Option ℕ)
    → wires (suc i) (if b then (i, true) else before) o ≡ wires i before (shifted b o)
wires-shifted i before b (some j) = ground arith
wires-shifted i before true none = ground arith
wires-shifted i before false none = refl

module _ (test : Entry → Bool) where
  last_index_cons :
      (e : Entry) (rest : List Entry) (left : ℕ)
      → last_index test (e ∷ rest) (suc left) ≡ shifted (test e) (last_index test rest left)
  unfolding last_index
  last_index_cons e rest zero = refl
  last_index_cons e rest (suc left) = ground (arith, last_index_cons e rest left)

  pub chain-last_index :
      (i : ℕ) (before : ℕ × Bool) (xs : List Entry)
      → chain test i before xs ≡ wires i before (last_index test xs (length xs))
  unfolding chain last_index
  chain-last_index i before [] = refl
  chain-last_index i before (e ∷ rest) = rw (last_index_cons e rest (length rest)) (
      chain-last_index (suc i) (if test e then (i, true) else before) rest
      ∙ wires-shifted i before (test e) (last_index test rest (length rest)))

module _ (s : CamState) (w : WriteArgs) where
  written_from_none :
      ((j : ℕ) → write_call s w j ≡ false) → (i : ℕ) (xs : List Entry) → written_from s w i xs ≡ xs
  unfolding written_from
  written_from_none h i [] = refl
  written_from_none h i (e ∷ rest) = rw (h i, written_from_none h (suc i) rest) refl

  written_from_below :
      (t : ℕ)
      → ((j : ℕ) → write_call s w j ≡ (t == j))
      → (i : ℕ) (xs : List Entry) → t < i
      → written_from s w i xs ≡ xs
  unfolding written_from
  written_from_below t h i [] lt = refl
  written_from_below t h i (e ∷ rest) lt =
      rw (h i, ==_ne t i (λ q. omega arith), written_from_below t h (suc i) rest (omega arith)) refl

  written_from-set :
      (t : ℕ)
      → ((j : ℕ) → write_call s w j ≡ (t == j))
      → (i k : ℕ) (xs : List Entry) → t ≡ i + k
      → written_from s w i xs ≡ set xs k (new_entry w)
  unfolding written_from
  written_from-set t h i k [] e = refl
  written_from-set t h i zero (x ∷ rest) e =
      rw (h i, (==_iff t i).1 (omega arith), written_from_below t h (suc i) rest (omega arith)) refl
  written_from-set t h i (suc k) (x ∷ rest) e =
      rw (h i, ==_ne t i (λ q. omega arith), written_from-set t h (suc i) k rest (omega arith)) refl

-- The entry that `write` writes: the one of the key, or a hole, or the one that the counter says.
abbrev pub target_of : Bool → ℕ → Option ℕ → Option ℕ → Option ℕ
target_of remove counter (some i) hole = some i
target_of true counter none hole = none
target_of false counter none (some i) = some i
target_of false counter none none = some counter

abbrev pub is_target : Option ℕ → ℕ → Bool
is_target none j = false
is_target (some t) j = t == j

abbrev pub overwrites : Bool → Option ℕ → Option ℕ → Bool
overwrites remove (some i) hole = false
overwrites true none hole = false
overwrites false none (some i) = false
overwrites false none none = true

-- The tests of `handle_write` and `compute_overwrite`, by what the chains found.
wires_call :
    (remove : Bool) (counter : ℕ) (hit hole : Option ℕ) (j : ℕ)
    → let (at, is_hit) = wires 0 (0, false) hit in
      let (free, is_hole) = wires 0 (0, false) hole in
      let over = not remove && not is_hit && not is_hole in
      (over ≡ overwrites remove hit hole)
      × (((over && counter == j)
            || (at == j && is_hit)
            || (not is_hit && free == j && is_hole && not remove))
          ≡ is_target (target_of remove counter hit hole) j)
wires_call true counter (some i) hole j = ground arith
wires_call false counter (some i) hole j = ground arith
wires_call true counter none none j = ground arith
wires_call true counter none (some h) j = ground arith
wires_call false counter none (some h) j = ground arith
wires_call false counter none none j = ground arith

module _ (s : CamState) (w : WriteArgs) where
  abbrev pub hit : Option ℕ
  hit = last_index (is_at w.key) s.entries (length s.entries)

  abbrev pub hole : Option ℕ
  hole = last_index is_invalid s.entries (length s.entries)

  pub write_call_lem :
      (j : ℕ) → write_call s w j ≡ is_target (target_of w.remove s.overwrite_counter hit hole) j
  unfolding write_call overwrite write_addr invalid_addr
  write_call_lem j =
      rw
        (
          chain-last_index (is_at w.key) 0 (0, false) s.entries,
          chain-last_index is_invalid 0 (0, false) s.entries,
        )
        (wires_call w.remove s.overwrite_counter hit hole j).1

  pub overwrite_lem : overwrite s.entries w ≡ overwrites w.remove hit hole
  unfolding overwrite write_addr invalid_addr
  overwrite_lem =
      rw
        (
          chain-last_index (is_at w.key) 0 (0, false) s.entries,
          chain-last_index is_invalid 0 (0, false) s.entries,
        )
        (wires_call w.remove s.overwrite_counter hit hole 0).0

  -- The entries after a cycle that calls `write`.
  abbrev pub entries_of : Option ℕ → List Entry
  entries_of none = s.entries
  entries_of (some t) = set s.entries t (new_entry w)

  written_of :
      (t : Option ℕ)
      → ((j : ℕ) → write_call s w j ≡ is_target t j)
      → written_from s w 0 s.entries ≡ entries_of t
  written_of none h = written_from_none s w h 0 s.entries
  written_of (some t) h = written_from-set s w t h 0 t s.entries (omega arith)

  pub written_lem :
      written_from s w 0 s.entries ≡ entries_of (target_of w.remove s.overwrite_counter hit hole)
  written_lem = written_of _ write_call_lem
