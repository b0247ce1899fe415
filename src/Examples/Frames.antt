-- ===== src/Examples/Frames.antt =====
-- The theorems on nested columns and on the generated data frame, at concrete inputs.
use df_derive.Prelude.{
  map, ℕ, Bool, true, false, ◌≡◌, refl, subst, Option, none, some, List, [], ◌∷◌, String, ltb,
  if◌then◌else◌,
}
use df_derive.Ir.{field, flatten, ColumnIr, FieldIr, LeafSpec, WrapperShape, LeafShape}
use df_derive.Syn.{named}
use df_derive.Encoder.{Checked, fits, refused, ComputeError}
use df_derive.Encoder.Leaves.Nested.{Enumerates}
use df_derive.Schema.{DataType, built, SchemaFields, schema, field_names}
use df_derive.Lower.{project_fields_to_columns}
use df_derive.Nested.{Frame, leaf_optional, materialize_nested_columns}
use df_derive.Nested.Takes.{Rectangular, taken_columns, materialize_nested_columns-taken}
use df_derive.Columnar.{columnar_method_body, DataFrame, names_of}
use df_derive.Columnar.Names.{columnar_method_body-names}
use df_derive.Examples.Structs.{pair_fields, inner_columns, inner_fields}

abbrev two_values : List ℕ
two_values = 7 ∷ 8 ∷ []

abbrev two_rows : Frame ℕ
two_rows = record {
  height = 2;
  columns = ("x", record { dtype = DataType.int64; rows = some 7 ∷ some 8 ∷ [] }) ∷ [];
}

abbrev inner_frame : List ℕ → Checked (Frame ℕ)
inner_frame refs = fits two_rows

abbrev same_type : DataType → DataType → Bool
same_type DataType.int64 DataType.int64 = true
same_type _ _ = false

abbrev three_positions : List (Option ℕ)
three_positions = some 0 ∷ none ∷ some 1 ∷ []

three_positions-ok : Enumerates 0 three_positions 2
unfolding Enumerates
three_positions-ok = (refl, (refl, refl))

frame_of : (a b : Frame ℕ) → fits a ≡ fits b → a ≡ b
frame_of a b h = cc h

two_rows-Rectangular : (df : Frame ℕ) → inner_frame two_values ≡ fits df → Rectangular df
two_rows-Rectangular df h =
    subst (λ (d : Frame ℕ). Rectangular d) (frame_of two_rows df h) (refl, tt)

materialize_nested_columns-taken_example :
    materialize_nested_columns
      (fits (("x", DataType.int64) ∷ []))
      inner_frame
      same_type
      field
      "inner"
      leaf_optional
      two_values
      three_positions
      3
    ≡ taken_columns
        (fits (("x", DataType.int64) ∷ []))
        inner_frame
        same_type
        field
        "inner"
        two_values
        three_positions
materialize_nested_columns-taken_example =
    materialize_nested_columns-taken (fits (("x", DataType.int64) ∷ [])) inner_frame same_type field
      "inner" leaf_optional two_values three_positions tt three_positions-ok two_rows-Rectangular

-- a push that fails on large items, and one that does not
abbrev two_pushes : List (ℕ → List ℕ → Checked (List ℕ))
two_pushes =
    (λ it scope. fits (it ∷ scope))
    ∷ (λ it scope. if ltb it 128 then fits scope else refused (ComputeError.decimal_rescale 2))
    ∷ []

abbrev inner_struct_fields : List FieldIr
inner_struct_fields =
    record {
      name = "inner";
      field_index = none;
      leaf_spec = LeafSpec.struct (named "Inner");
      wrapper_shape = WrapperShape.leaf LeafShape.bare;
      outer_smart_ptr_depth = 0;
      nested_name_policy = flatten;
    }
    ∷ pair_fields

inner_struct_fields-ok : project_fields_to_columns inner_struct_fields ≡ some inner_columns
unfolding project_fields_to_columns
inner_struct_fields-ok = refl

abbrev no_rows : Checked (DataFrame ℕ)
no_rows = fits (record { num_rows = 0; columns = [] })

abbrev two_primitive_rows : List ℕ → ColumnIr → Checked (List (Option ℕ))
two_primitive_rows scope c = fits (map some scope)

abbrev two_nested_rows : List ℕ → ColumnIr → String → DataType → Checked (List (Option ℕ))
two_nested_rows scope c name dtype = fits (some 3 ∷ some 4 ∷ [])

abbrev two_row_frame : DataFrame ℕ
two_row_frame = record {
  num_rows = 2;
  columns =
      ("x", some 3 ∷ some 4 ∷ [])
      ∷ ("pair.field_0", some 8 ∷ some 7 ∷ [])
      ∷ ("pair.field_1", some 8 ∷ some 7 ∷ [])
      ∷ [];
}

two_row_frame-ok :
    columnar_method_body inner_fields two_primitive_rows two_nested_rows no_rows [] two_pushes
      inner_columns two_values
    ≡ fits two_row_frame
unfolding columnar_method_body
two_row_frame-ok = refl

columnar_method_body-names_example :
    (fields : SchemaFields) × (schema inner_fields inner_columns ≡ built fields)
    × (names_of two_row_frame.columns ≡ field_names fields)
columnar_method_body-names_example =
    columnar_method_body-names inner_fields two_primitive_rows two_nested_rows no_rows [] two_pushes
      inner_struct_fields inner_columns 7 (8 ∷ []) two_row_frame inner_struct_fields-ok
      two_row_frame-ok
