-- ===== src/Cam.antt =====
-- The content addressable memory of lizard/util/rtl/cam.py, with the choice of a victim by a counter,
-- and the functional model of lizard/util/fl/cam.py.
pub mod Target
pub mod Refine
pub mod Keys
pub mod Lookup
mod Tests
use lizard.Prelude.{ℕ, zero, suc, ◌+◌, ◌-◌, ◌==◌, Bool, true, false, not, ◌&&◌, ◌||◌}
use lizard.Prelude.{if◌then◌else◌, Option, none, some, List, [], ◌∷◌, length, get_or, set}
use lizard.Pymtl.{Pymtl}

-- `Entry`
pub record Entry : Type 0 where
  pub key : ℕ
  pub value : ℕ
  pub valid : Bool

abbrev pub cleared : Entry
cleared = record { key = 0; value = 0; valid = false }

pub record CamState : Type 0 where
  pub entries : List Entry
  pub overwrite_counter : ℕ

-- The arguments of `write`
pub record WriteArgs : Type 0 where
  pub key : ℕ
  pub remove : Bool
  pub value : ℕ

abbrev pub is_at : ℕ → Entry → Bool
is_at k e = (e.key == k) && e.valid

abbrev pub is_invalid : Entry → Bool
is_invalid e = not e.valid

-- The last wires of a pair of chains, of which the wires `i` are set to `i` and true where the test
-- holds of entry `i`, and taken from the entry before otherwise: `handle_read_addr` for
-- `read_addr_chain` and `read_addr_valid`, and likewise for the other two pairs. The first entry sets
-- the address to 0 whether or not the test holds.
unfoldable pub chain : (Entry → Bool) → ℕ → ℕ × Bool → List Entry → ℕ × Bool
chain test i before [] = before
chain test i before (e ∷ rest) = chain test (suc i) (if test e then (i, true) else before) rest

-- `handle_read`
unfoldable pub read : List Entry → ℕ → ℕ × Bool
unfolding chain
read entries key =
    let (addr, valid) = chain (is_at key) 0 (0, false) entries in
    ((get_or entries addr cleared).value, valid)

-- The wires of a cycle in which `write` has the given arguments.
unfoldable pub write_addr : List Entry → WriteArgs → ℕ × Bool
unfolding chain
write_addr entries w = chain (is_at w.key) 0 (0, false) entries

unfoldable pub invalid_addr : List Entry → ℕ × Bool
unfolding chain
invalid_addr entries = chain is_invalid 0 (0, false) entries

-- `compute_overwrite`
unfoldable pub overwrite : List Entry → WriteArgs → Bool
unfolding write_addr invalid_addr
overwrite entries w = not w.remove && not (write_addr entries w).1 && not (invalid_addr entries).1

-- `handle_write`: whether entry `i` is written in a cycle that calls `write`, and not `clear`
unfoldable pub write_call : CamState → WriteArgs → ℕ → Bool
unfolding overwrite write_addr invalid_addr
write_call s w i =
    let (at, hit) = write_addr s.entries w in
    let (hole, has_hole) = invalid_addr s.entries in
    (overwrite s.entries w && s.overwrite_counter == i)
    || (at == i && hit)
    || (not hit && hole == i && has_hole && not w.remove)

-- The data of `handle_write`
abbrev pub new_entry : WriteArgs → Entry
new_entry w = record { key = w.key; value = w.value; valid = not w.remove }

-- The entries from `i` on after a cycle that calls `write`.
unfoldable pub written_from : CamState → WriteArgs → ℕ → List Entry → List Entry
unfolding write_call
written_from s w i [] = []
written_from s w i (e ∷ rest) =
    (if write_call s w i then new_entry w else e) ∷ written_from s w (suc i) rest

-- All entries after `clear`.
unfoldable pub cleared_entries : List Entry → List Entry
cleared_entries [] = []
cleared_entries (e ∷ rest) = cleared ∷ cleared_entries rest

-- The calls of a cycle.
pub record CamCalls : Type 0 where
  pub write : Option WriteArgs
  pub clear : Bool

module _ ⦃p : Pymtl⦄ (nbits nregs : ℕ) where
  -- `update_overwrite_counter`, for a counter of `nbits` bits
  unfoldable pub next_counter : CamState → WriteArgs → ℕ
  unfolding overwrite
  next_counter s w =
      if overwrite s.entries w
      then (if s.overwrite_counter == nregs - 1 then 0 else p.add nbits s.overwrite_counter 1)
      else s.overwrite_counter

  -- A clock edge.
  unfoldable pub step : CamState → CamCalls → CamState
  unfolding next_counter written_from cleared_entries
  step s c = record {
    entries =
        if c.clear
        then cleared_entries s.entries
        else (elim c.write [ some w ↦ written_from s w 0 s.entries | none ↦ s.entries ]);
    overwrite_counter = elim c.write [ some w ↦ next_counter s w | none ↦ s.overwrite_counter ];
  }

-- A loop `for i in range(nregs - 1, -1, -1)` that returns at the first entry with the property: the
-- number of that entry, with `left` entries to go.
unfoldable pub last_index : (Entry → Bool) → List Entry → ℕ → Option ℕ
last_index test entries zero = none
last_index test entries (suc left) =
    let rest = last_index test entries left in
    if test (get_or entries left cleared) then some left else rest

-- `RandomReplacementCAMFL.read`
unfoldable pub fl_read : List Entry → ℕ → ℕ × Bool
unfolding last_index
fl_read entries key = elim (last_index (is_at key) entries (length entries)) [
  | some i ↦ ((get_or entries i cleared).value, true)
  | none ↦ ((get_or entries 0 cleared).value, false)
]

-- The loop of `write`: the entry that it stops at, and `last_invalid`, with `left` entries to go
unfoldable pub write_loop : ℕ → List Entry → ℕ → Option ℕ → Option ℕ × Option ℕ
write_loop key entries zero last_invalid = (none, last_invalid)
write_loop key entries (suc left) last_invalid =
    let entry = get_or entries left cleared in
    let rest = write_loop key entries left (elim last_invalid [
      | some i ↦ some i
      | none ↦ if is_invalid entry then some left else none
    ]) in
    if is_at key entry then (some left, last_invalid) else rest

module _ ⦃p : Pymtl⦄ (nbits nregs : ℕ) where
  -- The rest of `write` where no valid entry has the key, with `last_invalid` or the counter
  unfoldable pub fl_write_new : CamState → WriteArgs → Option ℕ → CamState
  fl_write_new s w (some i) = record s { entries = set s.entries i (new_entry w) }
  fl_write_new s w none = record s {
    entries = set s.entries s.overwrite_counter (new_entry w);
    overwrite_counter =
        if s.overwrite_counter == nregs - 1 then 0 else p.add nbits s.overwrite_counter 1;
  }

  -- `RandomReplacementCAMFL.write`
  unfoldable pub fl_write : CamState → WriteArgs → CamState
  unfolding write_loop fl_write_new
  fl_write s w =
      let (found, last_invalid) = write_loop w.key s.entries (length s.entries) none in
      elim found [
        | some i ↦ record s { entries = set s.entries i (new_entry w) }
        | none ↦ if w.remove then s else fl_write_new s w last_invalid
      ]

-- `RandomReplacementCAMFL.clear`
unfoldable pub fl_clear : CamState → CamState
unfolding cleared_entries
fl_clear s = record s { entries = cleared_entries s.entries }

-- The methods that a cycle calls: `write`, then `clear`.
unfoldable pub fl_cycle : ⦃p : Pymtl⦄ → ℕ → ℕ → CamState → CamCalls → CamState
unfolding fl_write fl_clear
fl_cycle nbits nregs s c =
    let next : CamState = elim c.write [ some w ↦ fl_write nbits nregs s w | none ↦ s ] in
    if c.clear then fl_clear next else next
