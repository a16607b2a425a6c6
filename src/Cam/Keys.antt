-- ===== src/Cam/Keys.antt =====
-- No key stands in two valid entries, so it does not matter that the chains take the last match.
use lizard.Prelude.{ℕ, zero, suc, ◌+◌, ◌<◌, Bool, true, false, arith, ap, sym, ◌∙◌}
use lizard.Prelude.{Option, none, some, List, [], ◌∷◌, length, get_or, set, ◌≡◌, refl, ◌≢◌, ◌^◌}
use lizard.Prelude.{Bool-cases, Option-cases, inl, inr, length-set, get_or-set_self, get_or-set_ne}
use native.Mathlib.Decide.{ℕ_discrete}
use lizard.Pymtl.{Pymtl}
use native.Mathlib.Nat.{mod-le}
use lizard.Cam.Target.{hit, hole, target_of, overwrites, entries_of}
use lizard.Cam.Refine.{counter_of, fl_write_lem, step-fl_cycle}
use lizard.Cam.{
  CamState, Entry, cleared_entries, fl_clear, fl_cycle, CamCalls, WriteArgs, cleared, is_at,
  last_index, new_entry, step, fl_write,
}

pub record IsValid (nregs : ℕ) (s : CamState) : Type 0 where
  pub size : length s.entries ≡ nregs
  pub counter : s.overwrite_counter < nregs
  pub distinct :
      (key i j : ℕ)
      → i < nregs
      → j < nregs
      → is_at key (get_or s.entries i cleared) ≡ true
      → is_at key (get_or s.entries j cleared) ≡ true
      → i ≡ j

module _ (test : Entry → Bool) (entries : List Entry) where
  pub last_index-none :
      (left i : ℕ)
      → last_index test entries left ≡ none
      → i < left
      → test (get_or entries i cleared) ≡ false
  unfolding last_index
  last_index-none zero i e h = elim h [ ]
  last_index-none (suc left) i e h = elim (ℕ_discrete i left) [
    | yes same ↦ rw same (ground arith)
    | no other ↦ last_index-none left i (ground arith) (omega arith)
  ]

  pub last_index-some :
      (left i : ℕ)
      → last_index test entries left ≡ some i
      → (i < left) × (test (get_or entries i cleared) ≡ true)
  unfolding last_index
  last_index-some zero i e = absurd cc
  last_index-some (suc left) i e = elim (Bool-cases (test (get_or entries left cleared))) [
    | inl here ↦ let same : left ≡ i = ground arith in (omega arith, rw (← same) here)
    | inr there ↦ let (lt, holds) = last_index-some left i (ground arith) in (omega arith, holds)
  ]

is_at_key : (key : ℕ) (e : Entry) → is_at key e ≡ true → e.key ≡ key
is_at_key key e h = ground arith

-- A written entry leaves the keys distinct if no other entry has its key.
distinct_set :
    (entries : List Entry) (t nregs : ℕ) (w : WriteArgs)
    → length entries ≡ nregs
    → ((j : ℕ) → j < nregs → t ≢ j → is_at w.key (get_or entries j cleared) ≡ false)
    → ((key i j : ℕ)
        → i < nregs
        → j < nregs
        → is_at key (get_or entries i cleared) ≡ true
        → is_at key (get_or entries j cleared) ≡ true
        → i ≡ j)
    → (key i j : ℕ) → i < nregs
    → j < nregs
    → is_at key (get_or (set entries t (new_entry w)) i cleared) ≡ true
    → is_at key (get_or (set entries t (new_entry w)) j cleared) ≡ true
    → i ≡ j
distinct_set entries t nregs w size others distinct key i j hi hj ai aj = elim (ℕ_discrete t i) [
  | yes ti ↦ elim (ℕ_discrete t j) [
    | yes tj ↦ omega arith
    | no tj ↦ absurd (clash i j ti tj hi hj ai aj)
  ]
  | no ti ↦ elim (ℕ_discrete t j) [
    | yes tj ↦ absurd (clash j i tj ti hj hi aj ai)
    | no tj ↦ distinct key i j hi hj (kept i ti ai) (kept j tj aj)
  ]
]
  where
    kept :
        (i : ℕ)
        → t ≢ i
        → is_at key (get_or (set entries t (new_entry w)) i cleared) ≡ true
        → is_at key (get_or entries i cleared) ≡ true
    kept i ne a = ap (is_at key) (sym (get_or-set_ne entries t i (new_entry w) cleared ne)) ∙ a

    clash :
        (i j : ℕ)
        → t ≡ i
        → t ≢ j
        → i < nregs
        → j < nregs
        → is_at key (get_or (set entries t (new_entry w)) i cleared) ≡ true
        → is_at key (get_or (set entries t (new_entry w)) j cleared) ≡ true
        → ⊥
    clash i j ti tj hi hj ai aj =
        let here : get_or (set entries t (new_entry w)) i cleared ≡ new_entry w =
          ap (λ (k : ℕ). get_or (set entries t (new_entry w)) k cleared) (sym ti)
          ∙ get_or-set_self entries t (new_entry w) cleared (omega arith) in
        let same : w.key ≡ key = is_at_key key (new_entry w) (ap (is_at key) (sym here) ∙ ai) in
        let there : is_at w.key (get_or entries j cleared) ≡ true =
          ap (λ (k : ℕ). is_at k (get_or entries j cleared)) same ∙ kept j tj aj in
        cc (others j hj tj)

get_or-cleared : (xs : List Entry) (i : ℕ) → get_or (cleared_entries xs) i cleared ≡ cleared
unfolding cleared_entries
get_or-cleared [] i = refl
get_or-cleared (x ∷ xs) zero = refl
get_or-cleared (x ∷ xs) (suc i) = get_or-cleared xs i

length-cleared : (xs : List Entry) → length (cleared_entries xs) ≡ length xs
unfolding cleared_entries
length-cleared [] = refl
length-cleared (x ∷ xs) = ap suc (length-cleared xs)

clear-IsValid : (nregs : ℕ) (s : CamState) → IsValid nregs s → IsValid nregs (fl_clear s)
unfolding fl_clear
clear-IsValid nregs s v = record {
  size = length-cleared s.entries ∙ v.size;
  counter = v.counter;
  distinct = λ key i j hi hj ai aj. absurd (empty key i ai);
}
  where
    empty : (key i : ℕ) → is_at key (get_or (cleared_entries s.entries) i cleared) ≡ true → ⊥
    empty key i a = ground (arith, ap (is_at key) (get_or-cleared s.entries i))

module _ (nregs : ℕ) (s : CamState) (w : WriteArgs) where
  -- Only the entry that is written may have the key.
  pub others_free :
      IsValid nregs s
      → (t : ℕ) → target_of w.remove s.overwrite_counter (hit s w) (hole s w) ≡ some t
      → (j : ℕ) → j < nregs
      → t ≢ j
      → is_at w.key (get_or s.entries j cleared) ≡ false
  others_free v t e j hj ne = elim (Option-cases (hit s w)) [
    | inl q ↦ last_index-none (is_at w.key) s.entries (length s.entries) j q (omega (arith, v.size))
    | inr (i, q) ↦
        let (lt, holds) = last_index-some (is_at w.key) s.entries (length s.entries) i q in
        let found : some i ≡ some t =
          ap (λ (o : Option ℕ). target_of w.remove s.overwrite_counter o (hole s w)) (sym q) ∙ e in
        let same : t ≡ i = cc in
        elim (Bool-cases (is_at w.key (get_or s.entries j cleared))) [
          | inl a ↦ absurd (ne (same ∙ v.distinct w.key i j (omega (arith, v.size)) hj holds a))
          | inr b ↦ b
        ]
  ]

  entries-IsValid :
      IsValid nregs s
      → (t : Option ℕ) → target_of w.remove s.overwrite_counter (hit s w) (hole s w) ≡ t
      → (c : ℕ) → c < nregs
      → IsValid nregs (record { entries = entries_of s w t; overwrite_counter = c })
  entries-IsValid v none e c hc = record { size = v.size; counter = hc; distinct = v.distinct }
  entries-IsValid v (some t) e c hc = record {
    size = length-set s.entries t (new_entry w) ∙ v.size;
    counter = hc;
    distinct = distinct_set s.entries t nregs w v.size (others_free v t e) v.distinct;
  }

module _ ⦃p : Pymtl⦄ (nbits nregs : ℕ) where
  counter-lt :
      (s : CamState) (b : Bool) → s.overwrite_counter < nregs → counter_of nbits nregs s b < nregs
  counter-lt s b h =
      ground
        (arith, p.add_law nbits s.overwrite_counter 1, mod-le (s.overwrite_counter + 1) (2 ^ nbits))

  -- A cycle keeps the size, keeps the counter in range, and keeps all keys of valid entries distinct,
  -- whatever `write` and `clear` are called with.
  pub cam_step-IsValid :
      (s : CamState) (c : CamCalls) → IsValid nregs s → IsValid nregs (step nbits nregs s c)
  unfolding fl_cycle
  cam_step-IsValid s c v = rw (step-fl_cycle nbits nregs s c).0 (cycle c.write c.clear)
    where
      written : (w : WriteArgs) → IsValid nregs (fl_write nbits nregs s w)
      written w = rw (fl_write_lem nbits nregs s w) (
          entries-IsValid nregs s w v _ refl _
            (counter-lt s (overwrites w.remove (hit s w) (hole s w)) v.counter))

      cycle :
          (write : Option WriteArgs) (clear : Bool)
          → IsValid nregs (fl_cycle nbits nregs s (record { write = write; clear = clear }))
      cycle none false = v
      cycle none true = clear-IsValid nregs s v
      cycle (some w) false = written w
      cycle (some w) true = clear-IsValid nregs (fl_write nbits nregs s w) (written w)
