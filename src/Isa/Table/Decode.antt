-- ===== src/Isa/Table/Decode.antt =====
-- The table is unambiguous: what `decode_inst_name` finds does not depend on the order of the rows.
use lizard.Prelude.{
  ◌>>=◌, ℕ, ◌+◌, ◌^◌, ◌<◌, ◌≡◌, refl, sym, ap, ◌∙◌, arith, ◌==◌, Bool, true, false, not, ◌&&◌,
}
use lizard.Prelude.{if◌then◌else◌, Option, none, some, List, [], ◌∷◌, bit_and, ==_ne, inl, inr, ◌⊎◌}
use mathlib.Core.List.{Memᴰ}
use mathlib.Core.List.Memᴰ
use native.Mathlib.Decide.{ℕ_discrete}
use lizard.BitLaws.Digits.{bit-bit_and, bit_ext_below}
use lizard.BitLaws.Masks.{bit_and-lt, lt_two_pow}
use lizard.Prelude.Int.{pos}
use lizard.Pymtl.{Pymtl}
use lizard.Pymtl.Standard.{standard}
use lizard.Isa.{FieldSpec, Part, copied, fixed, assemble_parts, assemble, fields, aq, rl, funct3}
use lizard.Isa.Table.{
  AmoRow, AmoWidth, AmoOrder, w, d, plain, acquire, release, acquire_release, consistency_variant,
  gen_amo_consistency_variants, gen_amo_width_variants, Name, Row, encoding_table, expand_amo,
  amo_table, decode_inst_name,
}

-- Two rows that no word matches both of.
abbrev clash : Row → Row → Bool
clash a b = not (bit_and a.opcode_mask b.opcode == bit_and b.opcode_mask a.opcode)

abbrev all_clash : Row → List Row → Bool
all_clash a [] = true
all_clash a (b ∷ rest) = clash a b && all_clash a rest

abbrev pairwise_clash : List Row → Bool
pairwise_clash [] = true
pairwise_clash (a ∷ rest) = all_clash a rest && pairwise_clash rest

abbrev rows_of : Option (List Row) → List Row
rows_of none = []
rows_of (some rows) = rows

standard_clash : pairwise_clash (rows_of encoding_table) ≡ true
unfolding encoding_table assemble fields
standard_clash = refl

-- The table of any functions that satisfy the laws is that of the standard ones.
bind_cong :
    {A B : Type 0} {m m' : Option A} {f g : A → Option B}
    → m ≡ m'
    → ((a : A) → f a ≡ g a)
    → (m >>= f) ≡ (m' >>= g)
bind_cong {m} {m'} {f} {g} e h = same m h ∙ ap (λ x. x >>= g) e
  where
    same :
        {A B : Type 0} {f g : A → Option B} (m : Option A)
        → ((a : A) → f a ≡ g a)
        → (m >>= f) ≡ (m >>= g)
    same none h = refl
    same (some a) h = h a

module _ ⦃p : Pymtl⦄ where
  assemble_parts-standard :
      (parts : List Part) (target value : ℕ)
      → assemble_parts ⦃p = p⦄ parts target value ≡ assemble_parts ⦃p = standard⦄ parts target value
  unfolding assemble_parts
  assemble_parts-standard [] target value = refl
  assemble_parts-standard (copied high low field_high field_low ∷ rest) target value =
      rw (p.slice_law value field_low (field_high + 1), p.put_law target low (high + 1) _)
        (assemble_parts-standard rest _ value)
  assemble_parts-standard (fixed wanted field_high field_low ∷ rest) target value =
      rw (p.slice_law value field_low (field_high + 1), assemble_parts-standard rest target value)
        refl

  pub assemble-standard :
      (spec : FieldSpec) (target value : ℕ)
      → value < 2 ^ spec.width
      → assemble ⦃p = p⦄ spec target value ≡ assemble ⦃p = standard⦄ spec target value
  unfolding assemble
  assemble-standard spec target value h =
      rw (assemble, p.construct_law spec.width (pos value) h)
        (assemble_parts-standard spec.parts target _)

  consistency-standard :
      (r : AmoRow) (width : AmoWidth) (code : ℕ) (order : AmoOrder) (a l : ℕ)
      → a < 2
      → l < 2
      → consistency_variant ⦃p = p⦄ r width code order a l
        ≡ consistency_variant ⦃p = standard⦄ r width code order a l
  unfolding consistency_variant fields
  consistency-standard r width code order a l ha hl =
      bind_cong (assemble-standard (fields aq) code a ha)
        (λ x. bind_cong (assemble-standard (fields rl) x l hl) (λ y. refl))

  variants-standard :
      (r : AmoRow) (width : AmoWidth) (code : ℕ)
      → gen_amo_consistency_variants ⦃p = p⦄ r width code
        ≡ gen_amo_consistency_variants ⦃p = standard⦄ r width code
  unfolding gen_amo_consistency_variants
  variants-standard r width code =
      bind_cong (consistency-standard r width code plain 0 0 (omega arith) (omega arith)) (λ w1.
        bind_cong (consistency-standard r width code acquire 1 0 (omega arith) (omega arith)) (λ w2.
          bind_cong (consistency-standard r width code release 0 1 (omega arith) (omega arith))
            (λ w3.
              bind_cong
                (consistency-standard r width code acquire_release 1 1 (omega arith) (omega arith))
                (λ w4. refl))))

  widths-standard :
      (r : AmoRow) → gen_amo_width_variants ⦃p = p⦄ r ≡ gen_amo_width_variants ⦃p = standard⦄ r
  unfolding gen_amo_width_variants fields
  widths-standard r =
      bind_cong (assemble-standard (fields funct3) r.opcode 0b010 (omega arith)) (λ word.
        bind_cong (assemble-standard (fields funct3) r.opcode 0b011 (omega arith)) (λ double.
          bind_cong (variants-standard r w word)
            (λ words. bind_cong (variants-standard r d double) (λ doubles. refl))))

  expand-standard : (rs : List AmoRow) → expand_amo ⦃p = p⦄ rs ≡ expand_amo ⦃p = standard⦄ rs
  unfolding expand_amo
  expand-standard [] = refl
  expand-standard (r ∷ rs) =
      bind_cong (widths-standard r) (λ vs. bind_cong (expand-standard rs) (λ rest. refl))

  table-standard : encoding_table ⦃p = p⦄ ≡ encoding_table ⦃p = standard⦄
  unfolding encoding_table
  table-standard = bind_cong (expand-standard amo_table) (λ amos. refl)

  -- No word matches two rows of the table.
  table_clash : pairwise_clash (rows_of (encoding_table ⦃p = p⦄)) ≡ true
  table_clash = ap (λ o. pairwise_clash (rows_of o)) table-standard ∙ standard_clash

eqb_self : (n : ℕ) → (n == n) ≡ true
eqb_self n = ground arith

swap_masks : (x ma mb : ℕ) → bit_and ma (bit_and x mb) ≡ bit_and mb (bit_and x ma)
swap_masks x ma mb =
    bit_ext_below n _ _
      (bit_and-lt n ma (bit_and x mb) (below_ma) (bit_and-lt n x mb below_w below_mb))
      (bit_and-lt n mb (bit_and x ma) (below_mb) (bit_and-lt n x ma below_w below_ma))
      (λ i h. ground (
        arith,
        bit-bit_and ma (bit_and x mb) i,
        bit-bit_and x mb i,
        bit-bit_and mb (bit_and x ma) i,
        bit-bit_and x ma i,
      ))
  where
    n : ℕ
    n = x + ma + mb

    below_w : x < 2 ^ n
    below_w = omega (arith, lt_two_pow n)

    below_ma : ma < 2 ^ n
    below_ma = omega (arith, lt_two_pow n)

    below_mb : mb < 2 ^ n
    below_mb = omega (arith, lt_two_pow n)

-- A word matches a row.
abbrev pub Matches : Row → ℕ → Type 0
Matches r inst_bits = bit_and inst_bits r.opcode_mask ≡ r.opcode

not_both : (a b : Row) (word : ℕ) → Matches a word → Matches b word → clash a b ≡ true → ⊥
not_both a b word ha hb e =
    let agree : bit_and a.opcode_mask b.opcode ≡ bit_and b.opcode_mask a.opcode =
      ap (bit_and a.opcode_mask) (sym hb)
      ∙ swap_masks word a.opcode_mask b.opcode_mask
      ∙ ap (bit_and b.opcode_mask) ha in
    ground (arith, agree, e)

and-true : (a b : Bool) → (a && b) ≡ true → (a ≡ true) × (b ≡ true)
and-true true b e = (refl, e)
and-true false b e = ground (arith, e)

not_with_rest :
    (a b : Row) (rows : List Row) (word : ℕ)
    → Memᴰ b rows
    → Matches a word
    → Matches b word
    → all_clash a rows ≡ true
    → ⊥
not_with_rest a b [] word m ha hb e = elim m [ ]
not_with_rest a b (r ∷ rows) word (Memᴰ.head eb) ha hb e =
    let (now, later) = and-true (clash a r) (all_clash a rows) e in
    not_both a b word ha hb (ap (clash a) eb ∙ now)
not_with_rest a b (r ∷ rows) word (Memᴰ.tail m) ha hb e =
    let (now, later) = and-true (clash a r) (all_clash a rows) e in
    not_with_rest a b rows word m ha hb later

unique :
    (rows : List Row) (a b : Row) (word : ℕ)
    → pairwise_clash rows ≡ true
    → Memᴰ a rows
    → Memᴰ b rows
    → Matches a word
    → Matches b word
    → a ≡ b
unique [] a b word e ma mb ha hb = elim ma [ ]
unique (r ∷ rows) a b word e (Memᴰ.head ea) (Memᴰ.head eb) ha hb = ea ∙ sym eb
unique (r ∷ rows) a b word e (Memᴰ.head ea) (Memᴰ.tail mb) ha hb =
    let (now, later) = and-true (all_clash r rows) (pairwise_clash rows) e in
    absurd (not_with_rest a b rows word mb ha hb (ap (λ x. all_clash x rows) ea ∙ now))
unique (r ∷ rows) a b word e (Memᴰ.tail ma) (Memᴰ.head eb) ha hb =
    let (now, later) = and-true (all_clash r rows) (pairwise_clash rows) e in
    absurd (not_with_rest b a rows word ma hb ha (ap (λ x. all_clash x rows) eb ∙ now))
unique (r ∷ rows) a b word e (Memᴰ.tail ma) (Memᴰ.tail mb) ha hb =
    let (now, later) = and-true (all_clash r rows) (pairwise_clash rows) e in
    unique rows a b word later ma mb ha hb

module _ ⦃p : Pymtl⦄ where
  -- The instruction of the table whose row a word matches is the one that `decode_inst_name` finds,
  -- in whatever order the dictionary gives the rows.
  pub decode_inst_name_unique :
      (table : List Row) (order : List Row) (r : Row) (inst_bits : ℕ)
      → encoding_table ⦃p = p⦄ ≡ some table
      → ((x : Row) → Memᴰ x order → Memᴰ x table)
      → Memᴰ r table
      → Memᴰ r order
      → Matches r inst_bits
      → decode_inst_name ⦃p = p⦄ order inst_bits ≡ r.name
  unfolding decode_inst_name
  decode_inst_name_unique table [] r inst_bits et sub mt m h = elim m [ ]
  decode_inst_name_unique table (x ∷ order) r inst_bits et sub mt m h =
      elim (ℕ_discrete (bit_and inst_bits x.opcode_mask) x.opcode) [
        | yes hx ↦ found (unique table x r inst_bits clashes (sub x (Memᴰ.head refl)) mt hx h) hx
        | no nx ↦ next nx (Memᴰ.cases_cons m) (λ m'.
            decode_inst_name_unique table order r inst_bits et (λ y my. sub y (Memᴰ.tail my)) mt m'
              h)
      ]
    where
      clashes : pairwise_clash table ≡ true
      clashes = ap (λ o. pairwise_clash (rows_of o)) (sym et) ∙ table_clash ⦃p = p⦄

      result : Bool → Name
      result b = if b then x.name else decode_inst_name ⦃p = p⦄ order inst_bits

      found :
          x ≡ r → Matches x inst_bits → result (p.band inst_bits x.opcode_mask == x.opcode) ≡ r.name
      found e hx =
          rw (p.band_law inst_bits x.opcode_mask, hx, eqb_self x.opcode) (ap (λ y. y.name) e)

      next :
          (Matches x inst_bits → ⊥)
          → (r ≡ x) ⊎ Memᴰ r order
          → (Memᴰ r order → decode_inst_name ⦃p = p⦄ order inst_bits ≡ r.name)
          → result (p.band inst_bits x.opcode_mask == x.opcode) ≡ r.name
      next nx (inl e) rest =
          absurd (nx (ap (λ y. bit_and inst_bits y.opcode_mask) (sym e) ∙ h ∙ ap (λ y. y.opcode) e))
      next nx (inr m') rest = rw (p.band_law inst_bits x.opcode_mask, ==_ne _ _ nx) (rest m')
