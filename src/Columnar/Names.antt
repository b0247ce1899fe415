-- ===== src/Columnar/Names.antt =====
-- df-derive-macros/src/codegen/columnar_impl.rs against the generated schema of codegen/schema.rs.
use df_derive.Prelude.{
  some, ℕ, Bool, true, false, ◌≡◌, ◌∙◌, refl, sym, ap, subst, Option, String, List, [], ◌∷◌, ◌++◌,
  All, is_empty, if◌then◌else◌, length,
}
use df_derive.Ir.{
  NestedNamePolicy, NestedLeaf, TerminalLeafRoute, primitive, nested, ColumnIr, FieldIr, common,
  column_name, column_vec_depth,
}
use df_derive.Encoder.{Checked, fits, refused, ComputeError, ◌>>=◌}
use df_derive.Encoder.Outcome.{>>=-eq-fits, both-eq-fits}
use df_derive.Schema.{
  DataType, PolarsResult, built, failed, SchemaFields, compose_nested_name, nested_schema_entries,
  all_fields, field_names, and_then_built, schema_of_route, build_schema_entries, SchemaError,
  wrap_list_layers, leaf_dtype, validated, schema, needs_unique_name_validation,
  validate_unique_column_names,
}
use df_derive.Nested.{Columns, consume_each}
use df_derive.Lower.{project_fields_to_columns}
use df_derive.Columnar.Policy.{HasPolicy, project_fields_to_columns-HasPolicy}
use df_derive.Columnar.{
  checked, validate_names, infer_height, names_of, build_columns, push_loop, all_builders,
  columnar_method_body, DataFrame,
}

names_of-append :
    {X : Type 0} (xs ys : Columns X) → names_of (xs ++ ys) ≡ names_of xs ++ names_of ys
names_of-append [] ys = refl
names_of-append ((name, rows) ∷ xs) ys = ap (name ∷◌) (names_of-append xs ys)

field_names-append :
    (xs ys : SchemaFields) → field_names (xs ++ ys) ≡ field_names xs ++ field_names ys
field_names-append [] ys = refl
field_names-append ((name, t) ∷ xs) ys = ap (name ∷◌) (field_names-append xs ys)

fits-injective : {A : Type 0} {a b : A} → fits a ≡ fits b → a ≡ b
fits-injective h = cc h

module _ {X : Type 0} where
  consume_each-names :
      (inner : Checked SchemaFields) (policy : NestedNamePolicy) (name : String) (layers : ℕ)
      (rows : String → DataType → Checked (List (Option X))) (fields : SchemaFields)
      (cols : Columns X)
      → consume_each {V = ℕ} inner
          (λ refs. refused ComputeError.inner_error)
          (λ a b. true)
          policy
          name
          rows
          fields
        ≡ fits cols
      → names_of cols ≡ field_names (nested_schema_entries policy name layers fields)
  unfolding consume_each nested_schema_entries
  consume_each-names inner policy name layers rows [] [] h = refl
  consume_each-names inner policy name layers rows [] (c ∷ cols) h = cc
  consume_each-names inner policy name layers rows ((n, t) ∷ fields) cols h =
      let both =
        both-eq-fits (rows n t)
          (consume_each {V = ℕ} inner (λ refs. refused ComputeError.inner_error) (λ a b. true)
            policy name rows fields)
          (λ r rest. (compose_nested_name policy name n, r) ∷ rest) cols h in
      let tail = consume_each-names inner policy name layers rows fields both.1 both.3 in
      ap names_of (sym both.4) ∙ ap (compose_nested_name policy name n ∷◌) tail

  nested-names :
      (r : PolarsResult SchemaFields) (policy : NestedNamePolicy) (name : String) (layers : ℕ)
      (rows : String → DataType → Checked (List (Option X))) (cols : Columns X)
      → (checked r
          >>= consume_each {V = ℕ}
              (fits [])
              (λ refs. refused ComputeError.inner_error)
              (λ a b. true)
              policy
              name
              rows)
        ≡ fits cols
      → (fields : SchemaFields) × (and_then_built r
            (λ fs. built (nested_schema_entries policy name layers fs))
          ≡ built fields)
        × (names_of cols ≡ field_names fields)
  nested-names (built fs) policy name layers rows cols h = (
    nested_schema_entries policy name layers fs,
    refl,
    consume_each-names (fits []) policy name layers rows fs cols h,
  )
  nested-names (failed (SchemaError.inner_error text)) policy name layers rows cols h = cc
  nested-names (failed (SchemaError.duplicate_column n)) policy name layers rows cols h = cc

checked-built :
    (r : PolarsResult (Unit {0})) (fields : SchemaFields)
    → checked r ≡ fits tt
    → and_then_built r (λ _. built fields) ≡ built fields
checked-built (built u) fields h = refl
checked-built (failed (SchemaError.inner_error text)) fields h = cc
checked-built (failed (SchemaError.duplicate_column n)) fields h = cc

validated-names :
    (b : Bool) (fields : SchemaFields) (names : List String)
    → validate_names b names ≡ fits tt
    → names ≡ field_names fields
    → validated b (field_names fields) fields ≡ built fields
validated-names false fields names h e = refl
validated-names true fields names h e =
    checked-built (validate_unique_column_names (field_names fields)) fields
      (subst (λ n. checked (validate_unique_column_names n) ≡ fits tt) e h)

frame-columns :
    {X : Type 0} (n : ℕ) (cols : Columns X)
    → (if is_empty cols then record { num_rows = n; columns = [] } else infer_height cols).columns
      ≡ cols
frame-columns n [] = refl
frame-columns n ((name, rows) ∷ cols) = refl

module _ {X Scope : Type 0} (inner_schema : NestedLeaf → PolarsResult SchemaFields)
    (primitive_rows : Scope → ColumnIr → Checked (List (Option X)))
    (nested_rows : Scope → ColumnIr → String → DataType → Checked (List (Option X))) where
  build_columns-names :
      (scope : Scope) (c : ColumnIr) (r : TerminalLeafRoute) (cols : Columns X)
      → HasPolicy c
      → build_columns inner_schema primitive_rows nested_rows scope c r ≡ fits cols
      → (fields : SchemaFields) × (schema_of_route inner_schema c r ≡ built fields)
        × (names_of cols ≡ field_names fields)
  unfolding build_columns schema_of_route HasPolicy
  build_columns-names scope c (primitive leaf) cols p h =
      let rows =
        >>=-eq-fits (primitive_rows scope c) (λ rows. fits ((column_name c, rows) ∷ [])) cols h in
      (
        (column_name c, wrap_list_layers (leaf_dtype leaf) (column_vec_depth c)) ∷ [],
        refl,
        ap names_of (sym (fits-injective rows.2)),
      )
  build_columns-names scope c (nested leaf) cols p h =
      nested-names (inner_schema leaf) (common c).nested_name_policy (column_name c)
        (column_vec_depth c) (nested_rows scope c) cols (rw (sym p) h)

  all_builders-names :
      (scope : Scope) (cs : List ColumnIr) (cols : Columns X)
      → All HasPolicy cs
      → all_builders inner_schema primitive_rows nested_rows scope cs ≡ fits cols
      → (fields : SchemaFields) × (all_fields inner_schema cs ≡ built fields)
        × (names_of cols ≡ field_names fields)
  unfolding all_builders all_fields build_schema_entries
  all_builders-names scope [] cols p h = ([], refl, ap names_of (sym (fits-injective h)))
  all_builders-names scope (c ∷ cs) cols p h =
      let both =
        both-eq-fits
          (build_columns inner_schema primitive_rows nested_rows scope c (common c).leaf_spec.route)
          (all_builders inner_schema primitive_rows nested_rows scope cs) (◌++◌) cols h in
      let first = build_columns-names scope c (common c).leaf_spec.route both.0 p.0 both.2 in
      let rest = all_builders-names scope cs both.1 p.1 both.3 in
      (
        first.0 ++ rest.0,
        rw (first.1, rest.1) refl,
        ap names_of (sym both.4)
            ∙ names_of-append both.0 both.1
            ∙ (rw (first.2, rest.2) (sym (field_names-append first.0 rest.0))),
      )

  -- For the columns of the fields of a struct, when the generated `columnar_to_dataframe` returns a
  -- frame for one or more items, `schema` succeeds too, and the columns of the frame have the names of
  -- the schema, in its order.
  pub columnar_method_body-names :
      {I : Type 0} (empty : Checked (DataFrame X)) (decls : Scope)
      (pushes : List (I → Scope → Checked Scope)) (fs : List FieldIr) (columns : List ColumnIr)
      (item : I) (items : List I) (df : DataFrame X)
      → project_fields_to_columns fs ≡ some columns
      → columnar_method_body inner_schema primitive_rows nested_rows empty decls pushes columns
          (item ∷ items)
        ≡ fits df
      → (fields : SchemaFields) × (schema inner_schema columns ≡ built fields)
        × (names_of df.columns ≡ field_names fields)
  unfolding columnar_method_body schema
  columnar_method_body-names empty decls pushes fs columns item items df p h =
      let pushed = >>=-eq-fits (push_loop pushes (item ∷ items) decls) _ df h in
      let all =
        >>=-eq-fits (all_builders inner_schema primitive_rows nested_rows pushed.0 columns) _ df
          pushed.2 in
      let unique =
        >>=-eq-fits (validate_names (needs_unique_name_validation columns) (names_of all.0)) _ df
          all.2 in
      let named =
        all_builders-names pushed.0 columns all.0 (project_fields_to_columns-HasPolicy fs columns p)
          all.1 in
      let frame = ap (λ (d : DataFrame X). d.columns) (sym (fits-injective unique.2)) in
      let cols = frame ∙ frame-columns (length (item ∷ items)) all.0 in
      (
        named.0,
        rw named.1 (
            validated-names (needs_unique_name_validation columns) named.0 (names_of all.0) unique.1
              named.2),
        ap names_of cols ∙ named.2,
      )
