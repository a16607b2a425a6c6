-- ===== src/Overlap/Tests.antt =====
-- Byte ranges in an address space of eight bits.
use lizard.Prelude.{◌≡◌, ◌↔◌, refl, arith, true, false, inl}
use lizard.Pymtl.Standard.{standard}
use lizard.Overlap.{check, fl_check}
use lizard.Overlap.Laws.{Disjoint, check_lem, fl_check-eq-check, fl_check-ne-check}

touching : check 8 16 8 24 4 ≡ true
unfolding check
touching = refl

check_lem_example : (check 8 16 8 20 4 ≡ true) ↔ Disjoint 16 8 20 4
check_lem_example = check_lem 8 16 8 20 4 (omega arith) (omega arith) (omega arith) (omega arith)

fl_check-eq-check_example : fl_check 8 250 8 20 4 ≡ check 8 250 8 20 4
fl_check-eq-check_example = fl_check-eq-check 8 250 8 20 4 (inl (omega arith))

fl_check-ne-check_example : (fl_check 8 254 1 254 2 ≡ true) × (check 8 254 1 254 2 ≡ false)
fl_check-ne-check_example =
    fl_check-ne-check 8 254 1 2 (omega arith) (omega arith) (omega arith) (omega arith)
