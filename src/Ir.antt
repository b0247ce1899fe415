-- ===== src/Ir.antt =====
-- df-derive-macros/src/ir: the vocabulary in which the macro plans its columns.
mod Access
mod Wrappers
mod Leaf
mod Columns
unfoldable pub use Access.*
unfoldable pub use Wrappers.*
unfoldable pub use Leaf.*
unfoldable pub use Columns.*
