-- ===== src/Schema/Agreement.antt =====
-- The generated `schema` against the generated `empty_dataframe`.
use df_derive.Prelude.{ℕ, Bool, true, false, ◌≡◌, refl, sym, ap, String, List, [], ◌∷◌, ◌++◌}
use df_derive.Ir.{
  NestedNamePolicy, NestedLeaf, TerminalLeafRoute, primitive, nested, ColumnIr, common, column_name,
  column_vec_depth,
}
use df_derive.Schema.Types.{wrap_list_layers}
use df_derive.Schema.Entries.{
  PolarsResult, built, failed, and_then_built, SchemaFields, EmptyColumn, compose_nested_name,
  nested_schema_entries, nested_empty_series, validated, validate_unique_column_names,
  needs_unique_name_validation, field_names, column_names, schema_of_route, build_schema_entries,
  series_of_route, build_empty_series, all_fields, all_series, schema, empty_dataframe_columns,
}

-- the name and type of each column
unfoldable pub fields_of : List EmptyColumn → SchemaFields
fields_of [] = []
fields_of (c ∷ cs) = (c.column_name, c.column_dtype) ∷ fields_of cs

abbrev pub map_built {ℓ κ} : {A : Type ℓ} {B : Type κ} → (A → B) → PolarsResult A → PolarsResult B
map_built f (built a) = built (f a)
map_built f (failed e) = failed e

fields_of-append : (xs ys : List EmptyColumn) → fields_of (xs ++ ys) ≡ fields_of xs ++ fields_of ys
unfolding fields_of
fields_of-append [] ys = refl
fields_of-append (x ∷ xs) ys = ap ((x.column_name, x.column_dtype) ∷◌) (fields_of-append xs ys)

field_names-fields_of : (xs : List EmptyColumn) → field_names (fields_of xs) ≡ column_names xs
unfolding fields_of
field_names-fields_of [] = refl
field_names-fields_of (x ∷ xs) = ap (x.column_name ∷◌) (field_names-fields_of xs)

nested-agree :
    (policy : NestedNamePolicy) (name : String) (layers : ℕ) (inner : SchemaFields)
    → nested_schema_entries policy name layers inner
      ≡ fields_of (nested_empty_series policy name layers inner)
unfolding nested_schema_entries nested_empty_series fields_of
nested-agree policy name layers [] = refl
nested-agree policy name layers ((inner_name, inner_dtype) ∷ rest) =
    ap ((compose_nested_name policy name inner_name, wrap_list_layers inner_dtype layers) ∷◌)
      (nested-agree policy name layers rest)

nested-built :
    (policy : NestedNamePolicy) (name : String) (layers : ℕ) (r : PolarsResult SchemaFields)
    → and_then_built r (λ fields. built (nested_schema_entries policy name layers fields))
      ≡ map_built fields_of
          (and_then_built r (λ fields. built (nested_empty_series policy name layers fields)))
nested-built policy name layers (built fields) = ap built (nested-agree policy name layers fields)
nested-built policy name layers (failed e) = refl

append-built :
    (a : PolarsResult SchemaFields) (b : PolarsResult (List EmptyColumn))
    (c : PolarsResult SchemaFields) (d : PolarsResult (List EmptyColumn))
    → a ≡ map_built fields_of b
    → c ≡ map_built fields_of d
    → and_then_built a (λ x. and_then_built c (λ y. built (x ++ y)))
      ≡ map_built fields_of (and_then_built b (λ x. and_then_built d (λ y. built (x ++ y))))
append-built a (built x) c (built y) h k = rw (h, k) (ap built (sym (fields_of-append x y)))
append-built a (built x) c (failed e) h k = rw (h, k) refl
append-built a (failed e) c d h k = rw h refl

bind-agree :
    (r : PolarsResult (Unit {0})) (xs : List EmptyColumn)
    → and_then_built r (λ _. built (fields_of xs))
      ≡ map_built fields_of (and_then_built r (λ _. built xs))
bind-agree (built u) xs = refl
bind-agree (failed e) xs = refl

validated-agree :
    (b : Bool) (a : PolarsResult SchemaFields) (s : PolarsResult (List EmptyColumn))
    → a ≡ map_built fields_of s
    → and_then_built a (λ fields. validated b (field_names fields) fields)
      ≡ map_built fields_of (and_then_built s (λ series. validated b (column_names series) series))
validated-agree b a (failed e) h = rw h refl
validated-agree false a (built xs) h = rw h refl
validated-agree true a (built xs) h =
    rw (h, field_names-fields_of xs)
      (bind-agree (validate_unique_column_names (column_names xs)) xs)

module _ (inner_schema : NestedLeaf → PolarsResult SchemaFields) where
  route-agree :
      (c : ColumnIr) (r : TerminalLeafRoute)
      → schema_of_route inner_schema c r ≡ map_built fields_of (series_of_route inner_schema c r)
  unfolding schema_of_route series_of_route fields_of
  route-agree c (primitive leaf) = refl
  route-agree c (nested leaf) =
      nested-built (common c).nested_name_policy (column_name c) (column_vec_depth c)
        (inner_schema leaf)

  all-agree :
      (cs : List ColumnIr)
      → all_fields inner_schema cs ≡ map_built fields_of (all_series inner_schema cs)
  unfolding all_fields all_series build_schema_entries build_empty_series fields_of
  all-agree [] = refl
  all-agree (c ∷ cs) =
      append-built _ _ _ _ (route-agree c (common c).leaf_spec.route) (all-agree cs)

  -- Whatever the inner types report, the generated `schema` lists the names and types of the columns of
  -- the generated empty data frame, in their order, and fails with the same error where that fails.
  pub schema-empty_dataframe :
      (columns : List ColumnIr)
      → schema inner_schema columns
        ≡ map_built fields_of (empty_dataframe_columns inner_schema columns)
  unfolding schema empty_dataframe_columns
  schema-empty_dataframe columns =
      validated-agree (needs_unique_name_validation columns) (all_fields inner_schema columns)
        (all_series inner_schema columns) (all-agree columns)
