-- ===== src/Attrs.antt =====
-- df-derive-macros/src/attrs: the `#[df_derive(...)]` attributes of a field and of a struct.
mod Items
mod Decimal
mod Conflicts
mod Field
pub mod Container
unfoldable pub use Items.*
unfoldable pub use Decimal.*
unfoldable pub use Conflicts.*
unfoldable pub use Field.*
unfoldable pub use Container.*
