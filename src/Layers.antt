-- ===== src/Layers.antt =====
-- Proofs on the wrapper shapes of df-derive-macros/src/ir/wrappers.rs: what
-- df-derive-macros/src/lower/wrappers.rs keeps of the wrappers, and that an option count and the
-- access chain beside it agree on whether a layer has a validity bitmap.
pub mod RoundTrip
pub mod Validity
pub mod Analyzed
