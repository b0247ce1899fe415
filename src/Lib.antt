-- ===== src/Lib.antt =====
-- df-derive: the derive macro that turns a Rust struct into code that builds a Polars data frame.
--
-- The macro runs in stages, and each has its modules here:
--   Syn           the syntax of types, what the code reads of `syn::Type`
--   Ir            df-derive-macros/src/ir: access chains, wrapper shapes, leaves, columns
--   Errors        the diagnostics of the macro as values, and the result type of every stage
--   TypeAnalysis  df-derive-macros/src/type_analysis: a field's type to its base and its wrappers
--                 (`analyze_type`, `peel_type_wrappers`, `classify_known_base`)
--   Attrs         df-derive-macros/src/attrs: the attributes of a field (`parse_field_disposition`,
--                 `parse_decimal_attr`, `set_override`), and in Attrs.Container those of the struct
--                 (`parse_container_attrs`, `mixed_builtin_runtime_override`)
--   Lower         df-derive-macros/src/lower: an analyzed type and its attributes to a leaf and a
--                 wrapper shape (`lower_field`, `normalize_wrappers`), and the columns of a field,
--                 tuples flattened (`project_fields_to_columns`)
--   Parser        df-derive-macros/src/parser.rs: `parse_to_ir`, which runs the stages on a struct
--   Encoder       df-derive-macros/src/codegen/encoder: the access expressions of wrapper_access.rs,
--                 what the generated loops of shape_walk.rs do for the leaves of vec.rs and emit.rs
--                 (Scan, Leaf), the series that is made of the buffers (Assembly, with support.rs),
--                 the leaves of leaf.rs that are under no `Vec` (Scalar; Scalar.Text has the
--                 dispatch of ctx.rs and option.rs for text and bytes), and the two bodies of a
--                 Boolean `Vec` (VecBool, and VecBool.Finish for the series:
--                 `try_build_vec_encoder`, `vec_encoder_bool_bare`, `bool_bare_depth1_body`)
--   Nested        df-derive-macros/src/codegen/encoder/nested_columns.rs and the checks of
--                 df-derive-macros/src/codegen/support.rs: the columns of an inner type
--   Stored        df-derive-macros/src/codegen/type_registry: the value that is stored for a leaf
--                 (`map_primitive_expr`, `numeric_stored_value`); in Stored.Plan the buffer and type that
--                 each leaf gets in the encoders (`vec_leaf_plan`, `build_leaf`)
--   Columnar      df-derive-macros/src/codegen: columnar_impl.rs and column_emit.rs, the body of
--                 `columnar_to_dataframe` (`columnar_method_body`, `build_column_emit`)
--   Config        df-derive-macros/src/codegen/config.rs: the trait paths and the roots of Polars
--                 (`build_macro_config`)
--   Schema        df-derive-macros/src/codegen: the generated `schema` and the columns of the generated
--                 `empty_dataframe`, with the schemas of inner types as a parameter
--   Decimal128    df-derive-core/src/lib.rs: `try_to_i128_mantissa` of `rust_decimal::Decimal`
-- Proofs stand in modules of their own: Termination, Attributes, Layers, Projection, in Encoder the
-- modules Following, Lists, Decoding, LayerPush, Emission, Column and Leaves, with Scalar.Rows,
-- Scalar.Fields, Scalar.Text.Columns, VecBool.BareScan, VecBool.Agreement, VecBool.Finish.Finished
-- and Assembly.Finished, in Nested the module Takes, Stored.Ranges and Stored.Plan.Physical, in
-- Columnar the modules Policy and Names, in Config the module Runtime, in Schema the modules
-- Agreement and Unique, and in Decimal128 the modules Rounding and Bounds. Examples holds the
-- theorems at concrete inputs.
--
-- The encoders are one development for all leaves: Encoder.Leaf has what a leaf adds to the loops as a
-- record (what is declared, pushed and counted), Encoder.Scan the loops over it, Encoder.Decoding the laws
-- (`IsLeaf`) from which Encoder.Column proves the loops correct, and Encoder.Leaves the laws of each leaf.
--
-- Each function of the source is a function here by the same name, with its early returns as branches.
-- A diagnostic is a constructor of `Error` with the values that its text shows; spans are left out. A
-- panic of the projection (`expect`, `debug_assert!`) is `none`. An attribute is the list of items that
-- `parse_nested_meta` hands over, and the parser of tokens itself is not modelled. Strings are compared,
-- joined and built as the source does. Rust's fixed-width integers occur as counts, which no operation
-- here wraps, and as the `i128` mantissa of a decimal; the checks on `u8`, `i64` and `i128` are written
-- out.
--
-- The loop that peels wrappers and the recursion on tuple elements take fuel. `analyze` gives the size
-- of the type, which counts its constructors; Termination shows that it is enough.
--
-- The generated code is modelled by what it does. An access expression is a term with an evaluator, in
-- which the references are erased. The scan of a field runs on values typed by the shape of the field,
-- and its outcome says whether the code compiles, fails with an error of the generated code, or
-- returns its buffers. Their meaning is Arrow's layout of nested lists, in Encoder.Lists. How one leaf
-- is stored, which may fail, is an argument of the encoders, and Stored has it for temporal and
-- decimal values. What an inner type's own code returns, the arrays of polars-arrow, and the values of
-- chrono, `std::time` and the decimal backend, are parameters. The limit of `IdxSize` is one too,
-- since it depends on a feature of Polars.
--
-- Not modelled: the projection of tuple elements under a `Vec` (encoder/projected.rs and
-- `LayerProjection` of shape_walk.rs), the choice of references and copies in encoder/option.rs, the
-- rows that the builders of the columnar body make of the buffers, which are parameters there, the
-- trait bounds and paths of df-derive-macros/src/codegen, the other traits of df-derive-core, and
-- Polars, of which nothing is used but the layout of its arrays, the names of its data types, and how
-- a frame looks up and takes rows.
mod Prelude
pub mod Syn
pub mod Ir
pub mod Errors
pub mod TypeAnalysis
pub mod Attrs
pub mod Lower
pub mod Parser
pub mod Decimal128
pub mod Schema
pub mod Encoder
pub mod Nested
pub mod Stored
pub mod Columnar
pub mod Config
pub mod Attributes
pub mod Layers
pub mod Projection
pub mod Termination
pub mod Examples
