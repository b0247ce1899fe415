-- ===== src/Schema.antt =====
-- df-derive-macros/src/codegen: the schema of a struct and the columns of its empty data frame.
pub mod Types
pub mod Entries
pub mod Agreement
pub mod Unique
unfoldable pub use Types.*
unfoldable pub use Entries.*
