-- ===== src/Isa/Tests.antt =====
-- The encodings at concrete words, with the standard functions for the package pymtl.
use lizard.Prelude.{◌^◌, ◌<◌, ◌≡◌, refl, arith, Option, none, some, List, [], ◌∷◌}
use mathlib.Core.List.{Memᴰ}
use lizard.Pymtl.Standard.{standard}
use lizard.Isa.{b_imm, rd, u_imm, fields, assemble}
use lizard.Isa.Fields.{RoundTrips, assemble-RoundTrips}
use lizard.Isa.Table.{lui, row, Row, encoding_table, decode_inst_name}
use lizard.Isa.Table.Decode.{decode_inst_name_unique}

b_imm_fits : 0x1FFC < 2 ^ (fields b_imm).width
unfolding fields
b_imm_fits = omega arith

assemble-RoundTrips_example : RoundTrips b_imm 0x63 0x1FFC
assemble-RoundTrips_example = assemble-RoundTrips b_imm 0x63 0x1FFC (omega arith) b_imm_fits refl

abbrev rows_of : Option (List Row) → List Row
rows_of none = []
rows_of (some rows) = rows

abbrev lui_row : Row
lui_row = row lui (rd ∷ u_imm ∷ []) 0x7F 0x37

table_is_some : encoding_table ≡ some (rows_of encoding_table)
unfolding encoding_table assemble fields
table_is_some = refl

lui_is_there : Memᴰ lui_row (rows_of encoding_table)
unfolding encoding_table assemble fields
lui_is_there = Memᴰ.head refl

decode_inst_name_unique_example : decode_inst_name (rows_of encoding_table) 0x123450B7 ≡ lui
decode_inst_name_unique_example =
    decode_inst_name_unique (rows_of encoding_table) (rows_of encoding_table) lui_row 0x123450B7
      table_is_some (λ x m. m) lui_is_there lui_is_there refl
