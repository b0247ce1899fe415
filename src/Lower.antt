-- ===== src/Lower.antt =====
-- df-derive-macros/src/lower: from analyzed fields and attributes to fields, and from fields to the
-- columns of the generated frame.
mod Wrappers
mod Tuple
mod Leaf
mod Validation
mod Field
mod Projection
unfoldable pub use Wrappers.*
unfoldable pub use Tuple.*
unfoldable pub use Leaf.*
unfoldable pub use Validation.*
unfoldable pub use Field.*
unfoldable pub use Projection.*
