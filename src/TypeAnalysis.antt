-- ===== src/TypeAnalysis.antt =====
-- df-derive-macros/src/type_analysis: from the syntax of a field's type to its analyzed base and
-- wrappers. `analyze_type` recurs on fuel; Termination shows how much is enough.
pub mod PathMatch
mod KnownTypes
mod Wrappers
mod Rejections
mod Analyze
unfoldable pub use PathMatch.*
unfoldable pub use KnownTypes.*
unfoldable pub use Wrappers.*
unfoldable pub use Rejections.*
unfoldable pub use Analyze.*
