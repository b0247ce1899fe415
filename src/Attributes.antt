-- ===== src/Attributes.antt =====
-- Proofs on df-derive-macros/src/attrs: what an accepted attribute is known to satisfy.
pub mod Decimals
pub mod Disposition
pub mod Runtime
