-- ===== src/Encoder.antt =====
-- df-derive-macros/src/codegen/encoder: what the generated code does with the values of a field.
pub mod Access
pub mod Following
pub mod Outcome
pub mod Leaf
pub mod Scan
pub mod Lists
pub mod Decoding
pub mod LayerPush
pub mod Emission
pub mod Column
pub mod Assembly
pub mod Leaves
pub mod Scalar
pub mod VecBool
unfoldable pub use Access.*
unfoldable pub use Outcome.*
unfoldable pub use Leaf.*
unfoldable pub use Scan.*
