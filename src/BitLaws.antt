-- ===== src/BitLaws.antt =====
-- Facts about the bits of a number: its digits, `&`, `|` and `^` at every width.
pub mod Step
pub mod Digits
pub mod Masks
