-- ===== src/SequenceAllocator/Refine.antt =====
-- A valid allocator behaves as the queue of its live sequence numbers.
use lizard.Prelude.{ℕ, suc, ◌+◌, ◌-◌, ◌%◌, ◌^◌, ◌≤◌, ◌<◌, ◌≡◌, ◌≢◌, refl, arith, ap, ◌∙◌, sym}
use mathlib.Core.Path.{ap₂}
use lizard.Prelude.{Bool, true, false, none, some, inl, inr, List}
use lizard.Prelude.{if◌then◌else◌, mod_below, mod_once, mod_step, Option-cases, Bool-cases, pow-suc}
use native.Mathlib.Decide.{dec_lt}
use native.Mathlib.Numerals.{add-one}
use native.Mathlib.Nat.{add-zero, mod-lt, mod_self}
use lizard.BitLaws.Masks.{two_pow_pos, two_pow_lt}
use lizard.Pymtl.{Pymtl}
use lizard.SequenceAllocator.{
  State, Calls, reset, allocate_rdy, free_rdy, step, tail_next, head_next, num_next,
}
use lizard.SequenceAllocator.Queue.{queue_step, remove_oldest}
use lizard.SequenceAllocator.Window.{
  window, place, place-suc, place_next, place-ne, place-zero, window-suc, keep_through-window,
  remove_oldest-window,
}

pub record IsValid (nbits : ℕ) (s : State) : Type 0 where
  pub head_in : s.head < 2 ^ nbits
  pub num_in : s.num ≤ 2 ^ nbits
  pub tail_at : s.tail ≡ place (2 ^ nbits) s.head s.num

-- The live sequence numbers, oldest first.
abbrev pub live : ℕ → State → List ℕ
live nbits s = window (2 ^ nbits) s.head s.num

-- A caller calls what is ready, and rolls back to a live number.
pub record IsAllowed (nbits : ℕ) (s : State) (c : Calls) : Type 0 where
  pub allocates : c.allocate ≡ true → allocate_rdy nbits s ≡ true
  pub frees : c.free ≡ true → free_rdy s ≡ true
  pub rolls_back :
      (idx : ℕ) → c.rollback ≡ some idx → (j : ℕ) × (j < s.num) × (idx ≡ place (2 ^ nbits) s.head j)

pub reset-IsValid : (nbits : ℕ) → IsValid nbits reset
unfolding reset
reset-IsValid nbits = record {
  head_in = two_pow_pos nbits;
  num_in = omega arith;
  tail_at = sym (place-zero (2 ^ nbits) 0 (two_pow_pos nbits));
}

-- The distance back from `d` places on is `d`.
distance : (m a b d : ℕ) → b < m → d < m → a ≡ place m b d → (a + m - b) % m ≡ d
distance m a b d lb ld e = ground (
  arith,
  mod_below (b + d) m,
  mod_once (b + d) m,
  mod_below (a + m - b) m,
  mod_once (a + m - b) m,
)

distance_round : (m b : ℕ) → b < m → (place m b m + m - b) % m ≡ 0
distance_round m b lt = ground (arith, mod_once (b + m) m, mod_self m)

window_free :
    {m : ℕ} (h n : ℕ)
    → h < m
    → (b : Bool)
    → window m (place m h (if b then 1 else 0)) (n - (if b then 1 else 0))
      ≡ (if b then remove_oldest (window m h n) else window m h n)
window_free {m} h n lt true = sym (remove_oldest-window m n h)
window_free {m} h n lt false = rw (place-zero m h lt) (ap (window m h) (omega arith))

module _ ⦃p : Pymtl⦄ (nbits : ℕ) (pos : 0 < nbits) (s : State) (c : Calls)
    (v : IsValid nbits s) where
  abbrev size : ℕ
  size = 2 ^ nbits

  size_lem : 2 ≤ size
  size_lem = omega (arith, two_pow_lt 0 nbits pos)

  abbrev freed : ℕ
  freed = if c.free then 1 else 0

  head_lem : head_next nbits s c ≡ place size s.head freed
  head_lem = ground (arith, p.add_law nbits s.head 1, place-zero size s.head)

  module _ (idx j : ℕ) (rolls : c.rollback ≡ some idx) (at : idx ≡ place size s.head j)
      (lt : j < s.num) where
    tail_rollback : tail_next nbits s c ≡ place size s.head (suc j)
    tail_rollback = rw (rolls, tail_next, at, p.add_law) (place_next size s.head j)

    abbrev delta : ℕ
    delta = p.sub nbits (tail_next nbits s c) (head_next nbits s c)

    delta_free : c.free ≡ true → delta ≡ j
    delta_free fr =
        ap₂ (p.sub nbits) tail_rollback
          (head_lem ∙ ap (λ b. place size s.head (if b then 1 else 0)) fr)
        ∙ p.sub_law nbits (place size s.head (suc j)) (place size s.head 1)
        ∙ distance size (place size s.head (suc j)) (place size s.head 1) j
            (mod-lt (s.head + 1) (two_pow_pos nbits)) (omega (arith, v.num_in))
            (sym (place-suc size s.head j))

    delta_kept : c.free ≡ false → delta ≡ (place size s.head (suc j) + size - s.head) % size
    delta_kept fr =
        ap₂ (p.sub nbits) tail_rollback (ap (λ b. if b then p.add nbits s.head 1 else s.head) fr)
        ∙ p.sub_law nbits (place size s.head (suc j)) s.head

    num_free : c.free ≡ true → num_next nbits s c ≡ j
    num_free fr =
        rw (rolls, num_next) (ground (arith, delta_free fr, place-zero size s.head v.head_in))

    -- In a full buffer, a rollback that keeps everything is not to the head.
    rolled_elsewhere : suc j ≡ size → idx ≢ s.head
    rolled_elsewhere whole e =
        let before : j ≡ suc (j - 1) = omega (arith, size_lem) in
        place-ne size s.head (j - 1) v.head_in (omega (arith, size_lem))
          (sym e ∙ at ∙ ap (place size s.head) before)

    num_kept : c.free ≡ false → num_next nbits s c ≡ suc j
    num_kept fr = elim (dec_lt (suc j) size) [
      | yes below ↦
          rw (rolls, num_next)
            (ground (
              arith,
              delta_kept fr,
              distance size (place size s.head (suc j)) s.head (suc j) v.head_in below refl,
            ))
      | no full ↦
          let whole : suc j ≡ size = omega (arith, v.num_in) in
          let back : delta ≡ 0 =
            delta_kept fr
            ∙ ap (λ k. (place size s.head k + size - s.head) % size) whole
            ∙ distance_round size s.head v.head_in in
          rw (rolls, num_next) (ground (arith, back, rolled_elsewhere whole))
    ]

    -- A rollback, with or without a free.
    step_rollback : step nbits s c ≡ record {
      tail = place size s.head (suc j);
      head = place size s.head freed;
      num = suc j - freed;
    }
    unfolding step
    step_rollback = elim (Bool-cases c.free) [
      | inl fr ↦ ground (arith, tail_rollback, head_lem, num_free fr)
      | inr kept ↦ ground (arith, tail_rollback, head_lem, num_kept kept)
    ]

  abbrev taken : ℕ
  taken = if c.allocate then 1 else 0

  module _ (stays : c.rollback ≡ none) (ok : IsAllowed nbits s c) where
    wide : size + size ≡ 2 ^ (nbits + 1)
    wide = rw add-one (omega (arith, pow-suc 2 nbits))

    -- A cycle without a rollback.
    step_plain : step nbits s c ≡ record {
      tail = place size s.head (s.num + taken);
      head = place size s.head freed;
      num = s.num + taken - freed;
    }
    unfolding step allocate_rdy free_rdy
    step_plain = ground (
      arith,
      head_lem,
      v.num_in,
      v.tail_at,
      wide,
      size_lem,
      ok.allocates,
      ok.frees,
      p.add_law nbits s.tail 1,
      place_next size s.head s.num,
      p.add_law (nbits + 1) s.num 1,
      p.sub_law (nbits + 1) s.num 1,
      mod_below (s.num + 1) (2 ^ (nbits + 1)),
      mod_once (s.num + 2 ^ (nbits + 1) - 1) (2 ^ (nbits + 1)),
    )

    room : (s.num + taken ≤ size) × (freed ≤ s.num)
    room = unfold allocate_rdy free_rdy in ground (arith, v.num_in, ok.allocates, ok.frees)

    live_plain : live nbits (step nbits s c) ≡ queue_step s.tail (live nbits s) c
    live_plain =
        rw (step_plain, stays, queue_step)
          (ground (
            arith,
            window_free s.head (s.num + taken) v.head_in c.free,
            window-suc size s.num s.head v.head_in,
            v.tail_at,
            add-one s.num,
            add-zero s.num,
          ))

  module _ (idx j : ℕ) (rolls : c.rollback ≡ some idx) (at : idx ≡ place size s.head j)
      (lt : j < s.num) where
    live_rollback : live nbits (step nbits s c) ≡ queue_step s.tail (live nbits s) c
    live_rollback =
        rw (step_rollback idx j rolls at lt, rolls, queue_step)
          (ground (
            arith,
            window_free s.head (suc j) v.head_in c.free,
            keep_through-window size j s.num s.head v.head_in lt v.num_in,
          ))

  IsValid-at :
      (n : ℕ)
      → n ≤ size
      → freed ≤ n
      → IsValid nbits
          (record { tail = place size s.head n; head = place size s.head freed; num = n - freed })
  IsValid-at n le fr = record {
    head_in = mod-lt (s.head + freed) (two_pow_pos nbits);
    num_in = omega arith;
    tail_at = ground (
      arith,
      place-suc size s.head (n - 1),
      place-zero size s.head v.head_in,
      mod_step s.head n size,
    );
  }

  module _ (ok : IsAllowed nbits s c) where
    -- With at least one index bit, the allowed calls of a cycle, alone or together, keep the
    -- allocator valid: head and count are in range, and the tail is as far after the head as the
    -- count says.
    pub step-IsValid : IsValid nbits (step nbits s c)
    step-IsValid = elim (Option-cases c.rollback) [
      | inl stays ↦
          let (above, below) = room stays ok in
          rw (step_plain stays ok) (IsValid-at (s.num + taken) above (omega arith))
      | inr (idx, rolls) ↦
          let (j, lt, at) = ok.rolls_back idx rolls in
          rw (step_rollback idx j rolls at lt)
            (IsValid-at (suc j) (omega (arith, v.num_in)) (ground arith))
    ]

    -- With at least one index bit, a cycle from a valid state changes the live sequence numbers,
    -- oldest first, as the queue does, the number handed out by an allocation being the value of
    -- `tail`; its calls are allowed: each one called is ready, and a rollback is to a live number.
    pub step_refines : live nbits (step nbits s c) ≡ queue_step s.tail (live nbits s) c
    step_refines = elim (Option-cases c.rollback) [
      | inl stays ↦ live_plain stays ok
      | inr (idx, rolls) ↦
          let (j, lt, at) = ok.rolls_back idx rolls in live_rollback idx j rolls at lt
    ]
