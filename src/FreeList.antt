-- ===== src/FreeList.antt =====
-- The free list of lizard/util/rtl/freelist.py with the encoder and the decoder that it is built of
-- (lizard/util/rtl/onehot.py, lizard/util/rtl/coders.py), and the functional model of
-- lizard/util/fl/freelist.py.
pub mod Coders
pub mod Alloc
pub mod Refine
pub mod Grants
pub mod Slots
mod Tests
use lizard.Prelude.{ℕ, zero, suc, ◌+◌, ◌^◌, ◌==◌, leb, Bool, true, false, not, ◌&&◌}
use lizard.Prelude.{if◌then◌else◌, to_bit, Option, none, some, List, [], ◌∷◌}
use lizard.Pymtl.{Pymtl}
use lizard.Arbiters.{first_set}

-- The calls of a cycle, a port at a time.
pub record FreeCalls : Type 0 where
  pub frees : List (Option ℕ)
  pub release : Option ℕ
  pub allocs : List Bool
  pub set_state : Option ℕ

-- What an alloc port shows: whether it is ready, and the index and the mask if it is called and ready.
pub record Grant : Type 0 where
  pub rdy : Bool
  pub granted : Option (ℕ × ℕ)

module _ ⦃p : Pymtl⦄ where
  open p use {inv, band, bor, index, put}

  -- `OneHotEncoder`, without enable, bit by bit
  unfoldable pub encode_onehot : ℕ → ℕ → ℕ
  encode_onehot zero number = 0
  encode_onehot (suc i) number = put (encode_onehot i number) i (i + 1) (to_bit (number == i))

  -- `PriorityDecoder`: the wires `valid[n]` and `outs[n]`
  unfoldable pub decode : ℕ → ℕ → Bool × ℕ
  decode zero signal = (false, 0)
  decode (suc i) signal =
      let (valid, out) = decode i signal in
      if valid then (true, out) else if index signal i then (true, i) else (false, 0)

  -- `FreeListFL`
  unfoldable pub fl_free : ℕ → ℕ → ℕ
  fl_free bits number = put bits number (number + 1) 1

  unfoldable pub fl_release : ℕ → ℕ → ℕ
  fl_release bits mask = bor bits mask

  -- `release`, if it is called
  unfoldable pub fl_releases : Option ℕ → ℕ → ℕ
  unfolding fl_release
  fl_releases none bits = bits
  fl_releases (some mask) bits = fl_release bits mask

  module _ (nslots : ℕ) where
    -- `handle_free`: the last of `free_masks`, from the mask before a port
    unfoldable pub free_masks : ℕ → List (Option ℕ) → ℕ
    unfolding encode_onehot
    free_masks mask [] = mask
    free_masks mask (none ∷ ports) = free_masks mask ports
    free_masks mask (some number ∷ ports) =
        free_masks (bor mask (encode_onehot nslots number)) ports

    -- `handle_alloc`: the last of `alloc_inc`, from the vector before a port
    unfoldable pub alloc_inc : ℕ → List Bool → ℕ
    unfolding encode_onehot decode
    alloc_inc inc [] = inc
    alloc_inc inc (call ∷ ports) =
        let (valid, number) = decode nslots inc in
        alloc_inc (if call then band inc (inv nslots (encode_onehot nslots number)) else inc) ports

    -- What the alloc ports show.
    unfoldable pub grants : ℕ → List Bool → List Grant
    unfolding encode_onehot decode
    grants inc [] = []
    grants inc (call ∷ ports) =
        let (valid, number) = decode nslots inc in
        let mask = encode_onehot nslots number in
        record { rdy = valid; granted = if call && valid then some (number, mask) else none }
        ∷ grants (if call then band inc (inv nslots mask) else inc) ports

    -- A vector with the mask of `release`, if it is called.
    unfoldable pub released : Option ℕ → ℕ → ℕ
    released none vector = vector
    released (some mask) vector = bor vector mask

    -- `alloc_inc[0]`, by `free_alloc_bypass` and `release_alloc_bypass`
    unfoldable pub alloc_inc_0 : Bool → Bool → ℕ → FreeCalls → ℕ
    unfolding free_masks released
    alloc_inc_0 free_bypass release_bypass vector c =
        let alloc_inc_base = if release_bypass then released c.release vector else vector in
        if free_bypass then bor alloc_inc_base (free_masks 0 c.frees) else alloc_inc_base

    -- `free_next`, from the last of `alloc_inc`
    unfoldable pub free_next : Bool → Bool → ℕ → FreeCalls → ℕ
    unfolding free_masks released
    free_next free_bypass release_bypass last c =
        let free_next_base = if release_bypass then last else released c.release last in
        if free_bypass then free_next_base else bor free_next_base (free_masks 0 c.frees)

    -- `update` without reset: the next `free_vector`
    unfoldable pub step : Bool → Bool → ℕ → FreeCalls → ℕ
    unfolding alloc_inc alloc_inc_0 free_next
    step free_bypass release_bypass vector c =
        let last = alloc_inc (alloc_inc_0 free_bypass release_bypass vector c) c.allocs in
        elim c.set_state [ some state ↦ state | none ↦ free_next free_bypass release_bypass last c ]

    unfoldable pub fl_alloc : ℕ → ℕ × Option (ℕ × ℕ)
    unfolding first_set
    fl_alloc bits = elim (first_set bits nslots 0) [
      | some i ↦ (put bits i (i + 1) 0, some (i, 2 ^ i))
      | none ↦ (bits, none)
    ]

    -- The methods of a cycle: `free` of each port that is called, then those of the `alloc` ports.
    unfoldable pub fl_frees : ℕ → List (Option ℕ) → ℕ
    unfolding fl_free
    fl_frees bits [] = bits
    fl_frees bits (none ∷ ports) = fl_frees bits ports
    fl_frees bits (some number ∷ ports) = fl_frees (fl_free bits number) ports

    unfoldable pub fl_allocs : ℕ → List Bool → ℕ
    fl_allocs bits [] = bits
    fl_allocs bits (call ∷ ports) = fl_allocs (if call then (fl_alloc bits).0 else bits) ports

    unfoldable pub fl_grants : ℕ → List Bool → List Grant
    fl_grants bits [] = []
    fl_grants bits (call ∷ ports) =
        record { rdy = not (bits == 0); granted = if call then (fl_alloc bits).1 else none }
        ∷ fl_grants (if call then (fl_alloc bits).0 else bits) ports

    -- `release` and `free`, those that are wanted, in one order or the other.
    unfoldable pub fl_returns : Bool → Bool → Bool → ℕ → FreeCalls → ℕ
    unfolding fl_frees fl_releases
    fl_returns release_first with_free with_release bits c =
        let free = λ (b : ℕ). if with_free then fl_frees b c.frees else b in
        let release = λ (b : ℕ). if with_release then fl_releases c.release b else b in
        if release_first then free (release bits) else release (free bits)

    -- The state that the `alloc` methods of a cycle start from, and the state after the cycle: what
    -- bypasses goes before `alloc`, the rest after it, and `set` is last.
    unfoldable pub fl_before : Bool → Bool → Bool → ℕ → FreeCalls → ℕ
    fl_before release_first free_bypass release_bypass bits c =
        fl_returns release_first free_bypass release_bypass bits c

    unfoldable pub fl_cycle : Bool → Bool → Bool → ℕ → FreeCalls → ℕ
    unfolding fl_allocs fl_returns fl_before
    fl_cycle release_first free_bypass release_bypass bits c =
        let allocated =
          fl_allocs (fl_before release_first free_bypass release_bypass bits c) c.allocs in
        elim c.set_state [
          | some state ↦ state
          | none ↦ fl_returns release_first (not free_bypass) (not release_bypass) allocated c
        ]

-- `update` with reset, and the state that the functional model starts with: the slots from
-- `used_slots_initial` on are free.
unfoldable pub reset_vector : ⦃p : Pymtl⦄ → ℕ → ℕ → ℕ
reset_vector used zero = 0
reset_vector ⦃p⦄ used (suc i) = p.put (reset_vector used i) i (i + 1) (if leb used i then 1 else 0)
