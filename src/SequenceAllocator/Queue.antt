-- ===== src/SequenceAllocator/Queue.antt =====
-- What the allocator promises: the live sequence numbers are a queue, oldest first.
use lizard.Prelude.{ℕ, ◌==◌, none, some, List, [], ◌∷◌, ◌++◌, if◌then◌else◌}
use lizard.SequenceAllocator.{Calls}

-- The numbers up to and with `idx`.
abbrev pub keep_through : ℕ → List ℕ → List ℕ
keep_through idx [] = []
keep_through idx (x ∷ xs) = if x == idx then x ∷ [] else x ∷ keep_through idx xs

abbrev pub remove_oldest : List ℕ → List ℕ
remove_oldest [] = []
remove_oldest (x ∷ xs) = xs

-- A cycle's calls: a rollback keeps its number and the older ones, and overrides an allocation, which
-- appends the next number; a free removes the oldest number.
abbrev pub queue_step : ℕ → List ℕ → Calls → List ℕ
queue_step next q c =
    let kept : List ℕ = elim c.rollback [
      | some idx ↦ keep_through idx q
      | none ↦ (if c.allocate then q ++ (next ∷ []) else q)
    ] in
    if c.free then remove_oldest kept else kept
