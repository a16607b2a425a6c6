-- ===== src/Bitutil/Tests.antt =====
-- `clog2`, `clog2nz` and `byte_count` at concrete numbers.
use lizard.Prelude.{ℕ, ◌≡◌, refl, some}
use lizard.Bitutil.{clog2, clog2nz, byte_count}
use lizard.Bitutil.Clog2.{IsClog2, clog2_lem}

clog2_run : clog2 37 ≡ some 6
unfolding clog2
clog2_run = refl

clog2nz_run : clog2nz 1 ≡ some 1
unfolding clog2nz
clog2nz_run = refl

byte_count_run : byte_count 17 ≡ 3
unfolding byte_count
byte_count_run = refl

clog2_lem_example : (r : ℕ) × (clog2 37 ≡ some r) × IsClog2 37 r
clog2_lem_example = clog2_lem 37
