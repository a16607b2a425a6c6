-- ===== src/Isa/Fields.antt =====
-- The round trip of `FieldSpec.assemble` and `FieldSpec.disassemble` on the fields of rv64g.py.
use lizard.Prelude.{◌*◌, ◌/◌, ◌%◌, ◌-◌, ◌==◌, true, ℕ, ◌+◌, ◌^◌, ◌<◌, ◌≡◌, refl, ◌∙◌, arith}
use lizard.Prelude.{some, List, [], ◌∷◌}
use lizard.Pymtl.{Pymtl}
use lizard.Pymtl.Standard.{standard}
use lizard.Isa.{
  FieldSpec, Part, copied, fixed, assemble, disassemble_parts, disassemble, fields, Field, b_imm,
  j_imm,
}
use lizard.Isa.Offsets.{branch_word-lt, branch_word-read, jump_word-lt, jump_word-read}
use lizard.Isa.Table.Decode.{assemble-standard}

-- The offsets of branches and jumps are even.
abbrev pub IsEncodable : Field → ℕ → Type 0
IsEncodable b_imm v = v % 2 ≡ 0
IsEncodable j_imm v = v % 2 ≡ 0
IsEncodable _ v = Unit

-- `v` is assembled into `target` and read back from the 32-bit result.
abbrev pub RoundTrips : ⦃p : Pymtl⦄ → Field → ℕ → ℕ → Type 0
RoundTrips ⦃p⦄ f target v =
    (word : ℕ) × (assemble ⦃p = p⦄ (fields f) target v ≡ some word)
    × (word < 2 ^ 32)
    × (disassemble ⦃p = p⦄ (fields f) word ≡ v)

even_13 : (v : ℕ) → v % 2 ≡ 0 → (v % 2 ^ 13 / 1 % 2 == 0) ≡ true
even_13 v h = ground arith

even_21 : (v : ℕ) → v % 2 ≡ 0 → (v % 2 ^ 21 / 1 % 2 == 0) ≡ true
even_21 v h = ground arith

standard-RoundTrips :
    (f : Field) (target v : ℕ)
    → target < 2 ^ 32
    → v < 2 ^ (fields f).width
    → IsEncodable f v
    → RoundTrips ⦃p = standard⦄ f target v
unfolding assemble disassemble fields
standard-RoundTrips b_imm target v ht hv he =
    let x = v % 2 ^ 13 / 2 ^ 12 % 2 ^ (13 - 12) in
    let y = v % 2 ^ 13 / 2 ^ 11 % 2 ^ (12 - 11) in
    let z = v % 2 ^ 13 / 2 ^ 5 % 2 ^ (11 - 5) in
    let k = v % 2 ^ 13 / 2 ^ 1 % 2 ^ (5 - 1) in
    let whole : x * 4096 + y * 2048 + z * 32 + k * 2 ≡ v = omega arith in
    rw (even_13 v he) (
      _,
      refl,
      branch_word-lt target x y z k ht (omega arith) (omega arith) (omega arith) (omega arith),
      branch_word-read target x y z k (omega arith) (omega arith) (omega arith) (omega arith)
          ∙ whole,
    )
standard-RoundTrips j_imm target v ht hv he =
    let x = v % 2 ^ 21 / 2 ^ 20 % 2 ^ (21 - 20) in
    let y = v % 2 ^ 21 / 2 ^ 12 % 2 ^ (20 - 12) in
    let z = v % 2 ^ 21 / 2 ^ 11 % 2 ^ (12 - 11) in
    let k = v % 2 ^ 21 / 2 ^ 1 % 2 ^ (11 - 1) in
    let whole : x * 1048576 + y * 4096 + z * 2048 + k * 2 ≡ v = omega arith in
    rw (even_21 v he) (
      _,
      refl,
      jump_word-lt target x y z k ht (omega arith) (omega arith) (omega arith) (omega arith),
      jump_word-read target x y z k (omega arith) (omega arith) (omega arith) (omega arith) ∙ whole,
    )
standard-RoundTrips _ target v ht hv he = (_, refl, omega arith, omega arith)

module _ ⦃p : Pymtl⦄ where
  disassemble_parts-standard :
      (parts : List Part) (source result : ℕ)
      → disassemble_parts ⦃p = p⦄ parts source result
        ≡ disassemble_parts ⦃p = standard⦄ parts source result
  unfolding disassemble_parts
  disassemble_parts-standard [] source result = refl
  disassemble_parts-standard (copied high low field_high field_low ∷ rest) source result =
      rw (p.slice_law source low (high + 1), p.put_law result field_low (field_high + 1) _)
        (disassemble_parts-standard rest source _)
  disassemble_parts-standard (fixed wanted field_high field_low ∷ rest) source result =
      rw (p.put_law result field_low (field_high + 1) wanted)
        (disassemble_parts-standard rest source _)

  pub disassemble-standard :
      (spec : FieldSpec) (source : ℕ)
      → disassemble ⦃p = p⦄ spec source ≡ disassemble ⦃p = standard⦄ spec source
  unfolding disassemble
  disassemble-standard spec source = disassemble_parts-standard spec.parts source 0

  -- Every field of the table, the split ones of the S, SB and UJ formats included, reads back the value
  -- that was assembled into a 32-bit word, when the value fits and a branch or jump offset is even;
  -- assembling it raises no ValueError and gives a 32-bit word.
  pub assemble-RoundTrips :
      (f : Field) (target v : ℕ)
      → target < 2 ^ 32
      → v < 2 ^ (fields f).width
      → IsEncodable f v
      → RoundTrips ⦃p = p⦄ f target v
  assemble-RoundTrips f target v ht hv he =
      let (word, e, below, back) = standard-RoundTrips f target v ht hv he in
      (
        word,
        assemble-standard ⦃p = p⦄ (fields f) target v hv ∙ e,
        below,
        disassemble-standard (fields f) word ∙ back,
      )
