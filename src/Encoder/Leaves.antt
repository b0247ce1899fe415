-- ===== src/Encoder/Leaves.antt =====
-- The pieces of each leaf of df-derive-macros/src/codegen/encoder against what is required of them, and
-- the emission of a field for each.
pub mod Bits
pub mod Numeric
pub mod View
pub mod Booleans
pub mod Nested
