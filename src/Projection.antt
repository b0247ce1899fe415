-- ===== src/Projection.antt =====
-- Proofs on df-derive-macros/src/lower/projection.rs: what lowering lets through can be projected,
-- and what the projection makes of it.
pub mod Validated
pub mod Elements
pub mod Overrides
pub mod Lowering
pub mod Safety
pub mod Shapes
pub mod Order
