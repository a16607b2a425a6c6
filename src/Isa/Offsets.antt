-- ===== src/Isa/Offsets.antt =====
-- The split offsets of branches and jumps: what `assemble` puts in a word, and what is read back.
use lizard.Prelude.{ℕ, ◌+◌, ◌-◌, ◌*◌, ◌/◌, ◌%◌, ◌^◌, ◌<◌, ◌≡◌, ◌∙◌, arith}

abbrev put : ℕ → ℕ → ℕ → ℕ → ℕ
put a lo hi v = a / 2 ^ hi * 2 ^ hi + v * 2 ^ lo + a % 2 ^ lo

abbrev slice : ℕ → ℕ → ℕ → ℕ
slice a lo hi = a / 2 ^ lo % 2 ^ (hi - lo)

put_31_32 : (a v : ℕ) → v < 2 → slice (put a 31 32 v) 31 32 ≡ v
put_31_32 a v h = omega arith

put_31_32_lt : (a v : ℕ) → a < 2 ^ 32 → v < 2 → put a 31 32 v < 2 ^ 32
put_31_32_lt a v ha h = omega arith

keep_31_32_at_7 : (a v : ℕ) → v < 2 → slice (put a 7 8 v) 31 32 ≡ slice a 31 32
keep_31_32_at_7 a v h = omega arith

keep_31_32_at_25 : (a v : ℕ) → v < 64 → slice (put a 25 31 v) 31 32 ≡ slice a 31 32
keep_31_32_at_25 a v h = omega arith

keep_31_32_at_8 : (a v : ℕ) → v < 16 → slice (put a 8 12 v) 31 32 ≡ slice a 31 32
keep_31_32_at_8 a v h = omega arith

put_7_8 : (a v : ℕ) → v < 2 → slice (put a 7 8 v) 7 8 ≡ v
put_7_8 a v h = omega arith

put_7_8_lt : (a v : ℕ) → a < 2 ^ 32 → v < 2 → put a 7 8 v < 2 ^ 32
put_7_8_lt a v ha h = omega arith

keep_7_8_at_25 : (a v : ℕ) → v < 64 → slice (put a 25 31 v) 7 8 ≡ slice a 7 8
keep_7_8_at_25 a v h = omega arith

keep_7_8_at_8 : (a v : ℕ) → v < 16 → slice (put a 8 12 v) 7 8 ≡ slice a 7 8
keep_7_8_at_8 a v h = omega arith

put_25_31 : (a v : ℕ) → v < 64 → slice (put a 25 31 v) 25 31 ≡ v
put_25_31 a v h = omega arith

put_25_31_lt : (a v : ℕ) → a < 2 ^ 32 → v < 64 → put a 25 31 v < 2 ^ 32
put_25_31_lt a v ha h = omega arith

keep_25_31_at_8 : (a v : ℕ) → v < 16 → slice (put a 8 12 v) 25 31 ≡ slice a 25 31
keep_25_31_at_8 a v h = omega arith

put_8_12 : (a v : ℕ) → v < 16 → slice (put a 8 12 v) 8 12 ≡ v
put_8_12 a v h = omega arith

put_8_12_lt : (a v : ℕ) → a < 2 ^ 32 → v < 16 → put a 8 12 v < 2 ^ 32
put_8_12_lt a v ha h = omega arith

-- The word with the parts of the offset of a branch
abbrev pub branch_word : ℕ → ℕ → ℕ → ℕ → ℕ → ℕ
branch_word target x y z k = put (put (put (put target 31 32 x) 7 8 y) 25 31 z) 8 12 k

pub branch_parts :
    (x y z k : ℕ)
    → x < 2
    → y < 2
    → z < 64
    → k < 16
    → put (put (put (put (put 0 12 13 x) 11 12 y) 5 11 z) 1 5 k) 0 1 0
      ≡ x * 4096 + y * 2048 + z * 32 + k * 2
branch_parts x y z k hx hy hz hk = omega arith

pub branch_word-lt :
    (target x y z k : ℕ)
    → target < 2 ^ 32
    → x < 2
    → y < 2
    → z < 64
    → k < 16
    → branch_word target x y z k < 2 ^ 32
branch_word-lt target x y z k ht hx hy hz hk =
    put_8_12_lt (put (put (put target 31 32 x) 7 8 y) 25 31 z) k
      (put_25_31_lt (put (put target 31 32 x) 7 8 y) z
        (put_7_8_lt (put target 31 32 x) y (put_31_32_lt target x ht hx) hy) hz)
      hk

-- The parts are read back and put together.
pub branch_word-read :
    (target x y z k : ℕ)
    → x < 2
    → y < 2
    → z < 64
    → k < 16
    → put
        (put
          (put
            (put
              (put 0 12 13 (slice (branch_word target x y z k) 31 32))
              11
              12
              (slice (branch_word target x y z k) 7 8))
            5
            11
            (slice (branch_word target x y z k) 25 31))
          1
          5
          (slice (branch_word target x y z k) 8 12))
        0
        1
        0
      ≡ x * 4096 + y * 2048 + z * 32 + k * 2
branch_word-read target x y z k hx hy hz hk =
    let ex : slice (branch_word target x y z k) 31 32 ≡ x =
      keep_31_32_at_8 (put (put (put target 31 32 x) 7 8 y) 25 31 z) k hk
      ∙ keep_31_32_at_25 (put (put target 31 32 x) 7 8 y) z hz
      ∙ keep_31_32_at_7 (put target 31 32 x) y hy
      ∙ put_31_32 target x hx in
    let ey : slice (branch_word target x y z k) 7 8 ≡ y =
      keep_7_8_at_8 (put (put (put target 31 32 x) 7 8 y) 25 31 z) k hk
      ∙ keep_7_8_at_25 (put (put target 31 32 x) 7 8 y) z hz
      ∙ put_7_8 (put target 31 32 x) y hy in
    let ez : slice (branch_word target x y z k) 25 31 ≡ z =
      keep_25_31_at_8 (put (put (put target 31 32 x) 7 8 y) 25 31 z) k hk
      ∙ put_25_31 (put (put target 31 32 x) 7 8 y) z hz in
    let ek : slice (branch_word target x y z k) 8 12 ≡ k =
      put_8_12 (put (put (put target 31 32 x) 7 8 y) 25 31 z) k hk in
    rw (ex, ey, ez, ek) (branch_parts x y z k hx hy hz hk)

keep_31_32_at_12 : (a v : ℕ) → v < 256 → slice (put a 12 20 v) 31 32 ≡ slice a 31 32
keep_31_32_at_12 a v h = omega arith

keep_31_32_at_20 : (a v : ℕ) → v < 2 → slice (put a 20 21 v) 31 32 ≡ slice a 31 32
keep_31_32_at_20 a v h = omega arith

keep_31_32_at_21 : (a v : ℕ) → v < 1024 → slice (put a 21 31 v) 31 32 ≡ slice a 31 32
keep_31_32_at_21 a v h = omega arith

put_12_20 : (a v : ℕ) → v < 256 → slice (put a 12 20 v) 12 20 ≡ v
put_12_20 a v h = omega arith

put_12_20_lt : (a v : ℕ) → a < 2 ^ 32 → v < 256 → put a 12 20 v < 2 ^ 32
put_12_20_lt a v ha h = omega arith

keep_12_20_at_20 : (a v : ℕ) → v < 2 → slice (put a 20 21 v) 12 20 ≡ slice a 12 20
keep_12_20_at_20 a v h = omega arith

keep_12_20_at_21 : (a v : ℕ) → v < 1024 → slice (put a 21 31 v) 12 20 ≡ slice a 12 20
keep_12_20_at_21 a v h = omega arith

put_20_21 : (a v : ℕ) → v < 2 → slice (put a 20 21 v) 20 21 ≡ v
put_20_21 a v h = omega arith

put_20_21_lt : (a v : ℕ) → a < 2 ^ 32 → v < 2 → put a 20 21 v < 2 ^ 32
put_20_21_lt a v ha h = omega arith

keep_20_21_at_21 : (a v : ℕ) → v < 1024 → slice (put a 21 31 v) 20 21 ≡ slice a 20 21
keep_20_21_at_21 a v h = omega arith

put_21_31 : (a v : ℕ) → v < 1024 → slice (put a 21 31 v) 21 31 ≡ v
put_21_31 a v h = omega arith

put_21_31_lt : (a v : ℕ) → a < 2 ^ 32 → v < 1024 → put a 21 31 v < 2 ^ 32
put_21_31_lt a v ha h = omega arith

-- The word with the parts of the offset of a jump
abbrev pub jump_word : ℕ → ℕ → ℕ → ℕ → ℕ → ℕ
jump_word target x y z k = put (put (put (put target 31 32 x) 12 20 y) 20 21 z) 21 31 k

pub jump_parts :
    (x y z k : ℕ)
    → x < 2
    → y < 256
    → z < 2
    → k < 1024
    → put (put (put (put (put 0 20 21 x) 12 20 y) 11 12 z) 1 11 k) 0 1 0
      ≡ x * 1048576 + y * 4096 + z * 2048 + k * 2
jump_parts x y z k hx hy hz hk = omega arith

pub jump_word-lt :
    (target x y z k : ℕ)
    → target < 2 ^ 32
    → x < 2
    → y < 256
    → z < 2
    → k < 1024
    → jump_word target x y z k < 2 ^ 32
jump_word-lt target x y z k ht hx hy hz hk =
    put_21_31_lt (put (put (put target 31 32 x) 12 20 y) 20 21 z) k
      (put_20_21_lt (put (put target 31 32 x) 12 20 y) z
        (put_12_20_lt (put target 31 32 x) y (put_31_32_lt target x ht hx) hy) hz)
      hk

-- The parts are read back and put together.
pub jump_word-read :
    (target x y z k : ℕ)
    → x < 2
    → y < 256
    → z < 2
    → k < 1024
    → put
        (put
          (put
            (put
              (put 0 20 21 (slice (jump_word target x y z k) 31 32))
              12
              20
              (slice (jump_word target x y z k) 12 20))
            11
            12
            (slice (jump_word target x y z k) 20 21))
          1
          11
          (slice (jump_word target x y z k) 21 31))
        0
        1
        0
      ≡ x * 1048576 + y * 4096 + z * 2048 + k * 2
jump_word-read target x y z k hx hy hz hk =
    let ex : slice (jump_word target x y z k) 31 32 ≡ x =
      keep_31_32_at_21 (put (put (put target 31 32 x) 12 20 y) 20 21 z) k hk
      ∙ keep_31_32_at_20 (put (put target 31 32 x) 12 20 y) z hz
      ∙ keep_31_32_at_12 (put target 31 32 x) y hy
      ∙ put_31_32 target x hx in
    let ey : slice (jump_word target x y z k) 12 20 ≡ y =
      keep_12_20_at_21 (put (put (put target 31 32 x) 12 20 y) 20 21 z) k hk
      ∙ keep_12_20_at_20 (put (put target 31 32 x) 12 20 y) z hz
      ∙ put_12_20 (put target 31 32 x) y hy in
    let ez : slice (jump_word target x y z k) 20 21 ≡ z =
      keep_20_21_at_21 (put (put (put target 31 32 x) 12 20 y) 20 21 z) k hk
      ∙ put_20_21 (put (put target 31 32 x) 12 20 y) z hz in
    let ek : slice (jump_word target x y z k) 21 31 ≡ k =
      put_21_31 (put (put (put target 31 32 x) 12 20 y) 20 21 z) k hk in
    rw (ex, ey, ez, ek) (jump_parts x y z k hx hy hz hk)
