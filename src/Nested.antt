-- ===== src/Nested.antt =====
-- df-derive-macros/src/codegen/encoder/nested_columns.rs: how the columns of a nested struct are made of
-- the frame of the collected references, with the checks of df-derive-macros/src/codegen/support.rs. The
-- code of the inner type is a parameter: its schema, and its frame of a list of references.
pub mod Takes
use df_derive.Prelude.{
  ℕ, Bool, true, false, Option, none, some, String, List, [], ◌∷◌, length, replicate, is_empty,
  get_elem?, eqb, if◌then◌else◌, ◌==◌,
}
use df_derive.Ir.{NestedNamePolicy, WrapperShape, LeafShape, has_inner_option}
use df_derive.Encoder.{Checked, fits, refused, ComputeError, ◌>>=◌}
use df_derive.Schema.{DataType, SchemaFields, compose_nested_name}

pub record Series (X : Type 0) : Type 0 where
  pub dtype : DataType
  pub rows : List (Option X)

pub record Frame (X : Type 0) : Type 0 where
  pub height : ℕ
  pub columns : List (String × Series X)

unfoldable pub validate_nested_frame : {X : Type 0} → Frame X → ℕ → Checked (Unit {0})
validate_nested_frame df expected =
    if eqb df.height expected
    then fits tt
    else refused (ComputeError.nested_height df.height expected)

-- `df.column(name)?`
unfoldable pub find_column : {X : Type 0} → List (String × Series X) → String → Checked (Series X)
find_column [] name = refused (ComputeError.column_not_found name)
find_column ((n, s) ∷ rest) name = if n == name then fits s else find_column rest name

-- the equality of data types is Polars'
unfoldable pub validate_nested_column_dtype :
    {X : Type 0} → (DataType → DataType → Bool) → Series X → String → DataType → Checked (Unit {0})
validate_nested_column_dtype same s name declared =
    if same s.dtype declared
    then fits tt
    else refused (ComputeError.nested_dtype name s.dtype declared)

-- Polars' `take`: the rows at the positions, a null at a null
unfoldable pub take_rows :
    {X : Type 0} → List (Option X) → List (Option ℕ) → Checked (List (Option X))
take_rows rows [] = fits []
take_rows rows (none ∷ ps) = take_rows rows ps >>= λ rest. fits (none ∷ rest)
take_rows rows (some i ∷ ps) = elim (get_elem? rows i) [
  | none ↦ refused ComputeError.take_out_of_bounds
  | some x ↦ take_rows rows ps >>= λ rest. fits (x ∷ rest)
]

pub data NestedMaterializeKind : Type 0 where
  leaf_bare leaf_optional : NestedMaterializeKind
  vec : Bool → NestedMaterializeKind

-- the `match` on the wrapper in `ctb_materialize` and `materialize_nested_columns`
unfoldable pub materialize_kind : WrapperShape → NestedMaterializeKind
unfolding has_inner_option
materialize_kind (WrapperShape.leaf LeafShape.bare) = leaf_bare
materialize_kind (WrapperShape.leaf (LeafShape.optional n access)) = leaf_optional
materialize_kind (WrapperShape.vec shape) = vec (has_inner_option shape)

abbrev pub Columns : Type 0 → Type 0
Columns X = List (String × List (Option X))

module _ {V X : Type 0} (inner_schema : Checked SchemaFields)
    (columnar_from_refs : List V → Checked (Frame X)) (same : DataType → DataType → Bool)
    (policy : NestedNamePolicy) (parent_name : String) where
  -- `consume_nested_columns`, with the rows of one column as `inner_col`
  unfoldable pub consume_each :
      (String → DataType → Checked (List (Option X))) → SchemaFields → Checked (Columns X)
  unfolding compose_nested_name
  consume_each inner_col [] = fits []
  consume_each inner_col ((name, dtype) ∷ fields) = inner_col name dtype >>= λ rows.
      consume_each inner_col fields >>= λ rest.
      fits ((compose_nested_name policy parent_name name, rows) ∷ rest)

  unfoldable pub consume_nested_columns :
      (String → DataType → Checked (List (Option X))) → Checked (Columns X)
  unfolding consume_each
  consume_nested_columns inner_col = inner_schema >>= consume_each inner_col

  unfoldable pub nested_df_decl : List V → Checked (Frame X)
  unfolding validate_nested_frame
  nested_df_decl flat =
      columnar_from_refs flat >>= λ df. validate_nested_frame df (length flat) >>= λ _. fits df

  unfoldable pub build_inner_col_direct : Frame X → String → DataType → Checked (List (Option X))
  unfolding find_column validate_nested_column_dtype
  build_inner_col_direct df name dtype = find_column df.columns name >>= λ s.
      validate_nested_column_dtype same s name dtype >>= λ _. fits s.rows

  unfoldable pub build_inner_col_take :
      Frame X → List (Option ℕ) → String → DataType → Checked (List (Option X))
  unfolding find_column validate_nested_column_dtype take_rows
  build_inner_col_take df positions name dtype = find_column df.columns name >>= λ s.
      validate_nested_column_dtype same s name dtype >>= λ _. take_rows s.rows positions

  -- `nested_materialize_dispatch`; `total` is the number of rows below the lists
  unfoldable pub materialize_nested_columns :
      NestedMaterializeKind → List V → List (Option ℕ) → ℕ → Checked (Columns X)
  unfolding consume_nested_columns nested_df_decl build_inner_col_direct build_inner_col_take
  materialize_nested_columns kind flat positions total =
      let direct =
        nested_df_decl flat >>= λ df. consume_nested_columns (build_inner_col_direct df) in
      let take =
        nested_df_decl flat >>= λ df. consume_nested_columns (build_inner_col_take df positions) in
      let empty = consume_nested_columns (λ name dtype. fits []) in
      let all_absent = consume_nested_columns (λ name dtype. fits (replicate total none)) in
      elim kind [
        | leaf_bare ↦ direct
        | leaf_optional ↦
            if is_empty flat then all_absent else if eqb (length flat) total then direct else take
        | vec true ↦
            if eqb total 0
            then empty
            else if is_empty flat
            then all_absent
            else if eqb (length flat) total
            then direct
            else take
        | vec false ↦ if is_empty flat then empty else direct
      ]
