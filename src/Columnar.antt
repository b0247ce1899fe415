-- ===== src/Columnar.antt =====
-- df-derive-macros/src/codegen/columnar_impl.rs and column_emit.rs: the body of `columnar_to_dataframe`
-- and `columnar_from_refs`. The rows that the encoders make of a column are parameters; here it is which
-- columns are made, when, and under which names.
pub mod Policy
pub mod Names
use df_derive.Prelude.{
  ℕ, Bool, true, false, Option, none, some, String, List, [], ◌∷◌, ◌++◌, length, is_empty, any,
  if◌then◌else◌,
}
use df_derive.Ir.{
  NestedNamePolicy, field, WrapperShape, NestedLeaf, TerminalLeafRoute, primitive, nested, ColumnIr,
  field_column, common, column_name,
}
use df_derive.Encoder.{Checked, fits, refused, ComputeError, ◌>>=◌}
use df_derive.Schema.{
  DataType, PolarsResult, built, failed, SchemaError, inner_error, duplicate_column, SchemaFields,
  needs_unique_name_validation, validate_unique_column_names,
}
use df_derive.Nested.{Columns, consume_each}

pub data ColumnEmit : Type 0 where
  row_wise whole_column : ColumnEmit

-- `build_primitive_emit`, by the encoder that the shape gets
abbrev pub primitive_emit : WrapperShape → ColumnEmit
primitive_emit (WrapperShape.leaf shape) = row_wise
primitive_emit (WrapperShape.vec layers) = whole_column

abbrev pub field_emit : TerminalLeafRoute → WrapperShape → ColumnEmit
field_emit (nested leaf) shape = whole_column
field_emit (primitive leaf) shape = primitive_emit shape

-- `build_column_emit`, up to the kind of its result
unfoldable pub build_column_emit : ColumnIr → ColumnEmit
build_column_emit (field_column c source shape) = field_emit c.leaf_spec.route shape
build_column_emit _ = whole_column

-- the policy that the builder of a nested column is given: the column's own in `build_nested_emit`, and
-- `Field` in `build_nested_emit_with_access` and `emit_projected_vec_nested`
unfoldable pub emitted_policy : ColumnIr → NestedNamePolicy
emitted_policy (field_column c source shape) = c.nested_name_policy
emitted_policy _ = field

-- the errors of Polars as those of the generated code
abbrev pub checked {ℓ} : {A : Type ℓ} → PolarsResult A → Checked A
checked (built a) = fits a
checked (failed (inner_error text)) = refused ComputeError.inner_error
checked (failed (duplicate_column name)) = refused (ComputeError.duplicate_column name)

-- One turn of the loop: the pushes in order, as statements on one scope, with all locals that the
-- declarations bring.
unfoldable pub push_all :
    {I Scope : Type 0} → List (I → Scope → Checked Scope) → I → Scope → Checked Scope
push_all [] it scope = fits scope
push_all (push ∷ pushes) it scope = push it scope >>= push_all pushes it

-- `for it in items { #(#pushes)* }`; without a push there is no loop, which does the same
unfoldable pub push_loop :
    {I Scope : Type 0} → List (I → Scope → Checked Scope) → List I → Scope → Checked Scope
unfolding push_all
push_loop pushes [] scope = fits scope
push_loop pushes (it ∷ items) scope = push_all pushes it scope >>= push_loop pushes items

abbrev pub names_of {ℓ} : {R : Type ℓ} → List (String × R) → List String
names_of [] = []
names_of ((name, r) ∷ rest) = name ∷ names_of rest

pub record DataFrame (X : Type 0) : Type 0 where
  pub num_rows : ℕ
  pub columns : Columns X

-- `DataFrame::new_infer_height`, of the first column
abbrev pub infer_height : {X : Type 0} → Columns X → DataFrame X
infer_height [] = record { num_rows = 0; columns = [] }
infer_height ((name, rows) ∷ rest) = record {
  num_rows = length rows;
  columns = (name, rows) ∷ rest;
}

abbrev pub validate_names : Bool → List String → Checked (Unit {0})
validate_names true names = checked (validate_unique_column_names names)
validate_names false names = fits tt

-- The rows of a column are what its encoder makes of the scope after the loop.
module _ {X Scope : Type 0} (inner_schema : NestedLeaf → PolarsResult SchemaFields)
    (primitive_rows : Scope → ColumnIr → Checked (List (Option X)))
    (nested_rows : Scope → ColumnIr → String → DataType → Checked (List (Option X))) where
  -- the builders of one column: the series named after the column, or the columns of the inner type
  unfoldable pub build_columns : Scope → ColumnIr → TerminalLeafRoute → Checked (Columns X)
  unfolding column_name emitted_policy consume_each
  build_columns scope c (primitive leaf) =
      primitive_rows scope c >>= λ rows. fits ((column_name c, rows) ∷ [])
  build_columns scope c (nested leaf) =
      checked (inner_schema leaf)
      >>= consume_each {V = ℕ} (fits []) (λ refs. refused ComputeError.inner_error) (λ a b. true)
          (emitted_policy c) (column_name c) (nested_rows scope c)

  -- `#(#builders)*`, each of which pushes to the columns
  unfoldable pub all_builders : Scope → List ColumnIr → Checked (Columns X)
  unfolding build_columns common
  all_builders scope [] = fits []
  all_builders scope (c ∷ cs) = build_columns scope c (common c).leaf_spec.route >>= λ first.
      all_builders scope cs >>= λ rest. fits (first ++ rest)

  -- `columnar_method_body`, with the scope that the declarations make
  unfoldable pub columnar_method_body :
      {I : Type 0}
      → Checked (DataFrame X)
      → Scope
      → List (I → Scope → Checked Scope)
      → List ColumnIr
      → List I
      → Checked (DataFrame X)
  unfolding push_loop all_builders needs_unique_name_validation validate_unique_column_names
  columnar_method_body empty_dataframe decls pushes columns items =
      let filled = push_loop pushes items decls >>= λ scope. all_builders scope columns >>= λ cols.
      validate_names (needs_unique_name_validation columns) (names_of cols) >>= λ _. fits (
        if is_empty cols
        then record { num_rows = length items; columns = [] }
        else infer_height cols) in
      if is_empty items then empty_dataframe else filled
