-- ===== src/Schema/Entries.antt =====
-- df-derive-macros/src/codegen/schema.rs, schema_nested.rs, nested_names.rs and trait_impl.rs: what the
-- generated `schema` and `empty_dataframe` compute, up to the call of Polars' constructor.
use df_derive.Prelude.{
  ℕ, Bool, true, false, String, List, [], ◌∷◌, ◌++◌, any, contains, dotted, if◌then◌else◌,
}
use df_derive.Ir.{
  NestedNamePolicy, field, flatten, prefix, requires_unique_name_validation, NestedLeaf,
  TerminalLeafRoute, primitive, nested, ColumnIr, common, column_name, column_vec_depth,
}
use df_derive.Schema.Types.{DataType, leaf_dtype, wrap_list_layers}

-- `PolarsResult`: an error of the inner type's own `schema`, or a name that occurs twice
pub data SchemaError : Type 0 where
  inner_error : String → SchemaError
  duplicate_column : String → SchemaError

pub data PolarsResult {ℓ} (A : Type ℓ) : Type ℓ where
  built : A → PolarsResult A
  failed : SchemaError → PolarsResult A

abbrev pub and_then_built {ℓ κ} :
    {A : Type ℓ} {B : Type κ} → PolarsResult A → (A → PolarsResult B) → PolarsResult B
and_then_built (built a) f = f a
and_then_built (failed e) f = failed e

abbrev pub SchemaFields : Type 0
SchemaFields = List (String × DataType)

-- a column without rows: `Series::new_empty(name, &dtype)`
pub record EmptyColumn : Type 0 where
  pub column_name : String
  pub column_dtype : DataType

unfoldable pub compose_nested_name : NestedNamePolicy → String → String → String
unfolding dotted
compose_nested_name field parent_name inner_name = dotted parent_name inner_name
compose_nested_name flatten parent_name inner_name = inner_name
compose_nested_name (prefix p) parent_name inner_name = dotted p inner_name

-- the loop over `T::schema()?` of `generate_for_struct`, in its two modes
unfoldable pub nested_schema_entries : NestedNamePolicy → String → ℕ → SchemaFields → SchemaFields
unfolding compose_nested_name wrap_list_layers
nested_schema_entries policy name layers [] = []
nested_schema_entries policy name layers ((inner_name, inner_dtype) ∷ rest) =
    (compose_nested_name policy name inner_name, wrap_list_layers inner_dtype layers)
    ∷ nested_schema_entries policy name layers rest

unfoldable pub nested_empty_series : NestedNamePolicy → String → ℕ → SchemaFields → List EmptyColumn
unfolding compose_nested_name wrap_list_layers
nested_empty_series policy name layers [] = []
nested_empty_series policy name layers ((inner_name, inner_dtype) ∷ rest) =
    record {
      column_name = compose_nested_name policy name inner_name;
      column_dtype = wrap_list_layers inner_dtype layers;
    }
    ∷ nested_empty_series policy name layers rest

-- `validate_unique_column_names`, with the set of the names so far
unfoldable pub validate_from : List String → List String → PolarsResult (Unit {0})
validate_from seen [] = built tt
validate_from seen (name ∷ names) =
    let rest = validate_from (name ∷ seen) names in
    if contains seen name then failed (duplicate_column name) else rest

unfoldable pub validate_unique_column_names : List String → PolarsResult (Unit {0})
unfolding validate_from
validate_unique_column_names names = validate_from [] names

unfoldable pub needs_unique_name_validation : List ColumnIr → Bool
unfolding requires_unique_name_validation common
needs_unique_name_validation columns =
    any (λ c. requires_unique_name_validation (common c).nested_name_policy) columns

abbrev pub validated {ℓ} : {A : Type ℓ} → Bool → List String → A → PolarsResult A
validated true names a = and_then_built (validate_unique_column_names names) (λ _. built a)
validated false names a = built a

abbrev pub field_names : SchemaFields → List String
field_names [] = []
field_names ((name, dtype) ∷ rest) = name ∷ field_names rest

abbrev pub column_names : List EmptyColumn → List String
column_names [] = []
column_names (c ∷ rest) = c.column_name ∷ column_names rest

-- `schema` of the types that the struct holds is a parameter: it is their own implementation.
module _ (inner_schema : NestedLeaf → PolarsResult SchemaFields) where
  unfoldable pub schema_of_route : ColumnIr → TerminalLeafRoute → PolarsResult SchemaFields
  unfolding common column_name column_vec_depth leaf_dtype wrap_list_layers nested_schema_entries
  schema_of_route c (primitive leaf) =
      built ((column_name c, wrap_list_layers (leaf_dtype leaf) (column_vec_depth c)) ∷ [])
  schema_of_route c (nested leaf) = and_then_built (inner_schema leaf) (λ fields. built (
      nested_schema_entries (common c).nested_name_policy (column_name c) (column_vec_depth c)
        fields))

  -- `build_schema_entries`
  unfoldable pub build_schema_entries : ColumnIr → PolarsResult SchemaFields
  unfolding schema_of_route common
  build_schema_entries c = schema_of_route c (common c).leaf_spec.route

  unfoldable pub series_of_route : ColumnIr → TerminalLeafRoute → PolarsResult (List EmptyColumn)
  unfolding common column_name column_vec_depth leaf_dtype wrap_list_layers nested_empty_series
  series_of_route c (primitive leaf) = built (
      record {
        column_name = column_name c;
        column_dtype = wrap_list_layers (leaf_dtype leaf) (column_vec_depth c);
      }
      ∷ [])
  series_of_route c (nested leaf) = and_then_built (inner_schema leaf) (λ fields. built (
      nested_empty_series (common c).nested_name_policy (column_name c) (column_vec_depth c)
        fields))

  -- `build_empty_series`
  unfoldable pub build_empty_series : ColumnIr → PolarsResult (List EmptyColumn)
  unfolding series_of_route common
  build_empty_series c = series_of_route c (common c).leaf_spec.route

  -- `extend` with the entries of each column, up to an error
  unfoldable pub all_fields : List ColumnIr → PolarsResult SchemaFields
  unfolding build_schema_entries
  all_fields [] = built []
  all_fields (c ∷ cs) =
      and_then_built (build_schema_entries c)
        (λ first. and_then_built (all_fields cs) (λ rest. built (first ++ rest)))

  unfoldable pub all_series : List ColumnIr → PolarsResult (List EmptyColumn)
  unfolding build_empty_series
  all_series [] = built []
  all_series (c ∷ cs) =
      and_then_built (build_empty_series c)
        (λ first. and_then_built (all_series cs) (λ rest. built (first ++ rest)))

  -- The generated `schema`.
  unfoldable pub schema : List ColumnIr → PolarsResult SchemaFields
  unfolding all_fields needs_unique_name_validation validate_unique_column_names
  schema columns =
      and_then_built (all_fields columns)
        (λ fields. validated (needs_unique_name_validation columns) (field_names fields) fields)

  -- The columns that the generated `empty_dataframe` hands to `DataFrame::new_infer_height`.
  unfoldable pub empty_dataframe_columns : List ColumnIr → PolarsResult (List EmptyColumn)
  unfolding all_series needs_unique_name_validation validate_unique_column_names
  empty_dataframe_columns columns =
      and_then_built (all_series columns)
        (λ series. validated (needs_unique_name_validation columns) (column_names series) series)
