-- ===== src/Examples/Structs.antt =====
-- The theorems on types, structs and schemas, at concrete inputs.
use df_derive.Prelude.{
  map, ℕ, ◌≡◌, ◌≢◌, ◌↔◌, refl, true, false, none, some, is_some, String, List, [], ◌∷◌, All,
}
use df_derive.Syn.{
  SynType, named, no_types, and_type, segment, no_segments, angle_bracketed, and_generic,
  no_generics, type_argument,
}
use df_derive.Ir.{
  WrapperShape, LeafShape, ColumnIr, FieldIr, element, no_elements, tuple_static, field_column,
  flatten, TerminalLeafRoute, NestedLeaf, LeafSpec, PrimitiveLeaf, primitive, NumericKind, field,
}
use df_derive.Errors.{ok, err, out_of_fuel}
use df_derive.TypeAnalysis.{vec, analyze, AnalyzedBase, analyzed}
use df_derive.Lower.{normalize_wrappers}
use df_derive.Parser.{DeriveInput, Data, Fields, StructIr, parse_to_ir}
use df_derive.Layers.RoundTrip.{wrappers_of}
use df_derive.Lower.{project_fields_to_columns}
use df_derive.Projection.Order.{column_leaf, all_leaves, project_fields_to_columns-all_leaves}
use df_derive.Projection.Shapes.{ColumnAgrees, parse_to_ir-ColumnAgrees}
use df_derive.Projection.Safety.{parse_to_ir-is_some}
use df_derive.Layers.Analyzed.{analyze-wrappers_of}
use df_derive.Schema.{
  DataType, PolarsResult, built, SchemaFields, schema, empty_dataframe_columns,
  needs_unique_name_validation, validate_unique_column_names, field_names,
}
use df_derive.Schema.Agreement.{map_built, fields_of, schema-empty_dataframe}
use df_derive.Schema.Unique.{Distinct, schema-Distinct, validate_unique_column_names-Distinct}
use df_derive.Termination.{analyze-ne-out_of_fuel}

abbrev pair_type : SynType
pair_type = SynType.tuple (and_type (named "String") (and_type (named "u8") no_types))

analyze-ne-out_of_fuel_example : analyze pair_type [] ≢ err out_of_fuel
analyze-ne-out_of_fuel_example = analyze-ne-out_of_fuel pair_type []

abbrev pair_input : DeriveInput
pair_input = record {
  ident = "Row";
  type_params = [];
  body = Data.struct_data (Fields.named (("pair", record { attrs = []; ty = pair_type }) ∷ []));
}

abbrev pair_column : String → ℕ → LeafSpec → PrimitiveLeaf → ColumnIr
pair_column name index leaf_spec route =
    tuple_static
      (record {
        name = name;
        leaf_spec = record { spec = leaf_spec; route = primitive route };
        nested_name_policy = field;
      })
      (record { name = "pair"; field_index = none; outer_smart_ptr_depth = 0 })
      (record { first = record { index = index; outer_smart_ptr_depth = 0 }; rest = [] })
      (WrapperShape.leaf LeafShape.bare)

abbrev pair_columns : List ColumnIr
pair_columns =
    pair_column "pair.field_0" 0 LeafSpec.string PrimitiveLeaf.string
    ∷ pair_column "pair.field_1" 1 (LeafSpec.numeric NumericKind.u8)
        (PrimitiveLeaf.numeric NumericKind.u8)
    ∷ []

abbrev pair_ir : StructIr
pair_ir = record { name = "Row"; generic_params = []; columns = some pair_columns }

pair_input-ok : parse_to_ir pair_input ≡ ok pair_ir
unfolding parse_to_ir
pair_input-ok = refl

parse_to_ir-is_some_example : is_some pair_ir.columns ≡ true
parse_to_ir-is_some_example = parse_to_ir-is_some pair_input pair_ir pair_input-ok

parse_to_ir-ColumnAgrees_example :
    (columns : List ColumnIr) × (pair_ir.columns ≡ some columns) × All ColumnAgrees columns
parse_to_ir-ColumnAgrees_example = parse_to_ir-ColumnAgrees pair_input pair_ir pair_input-ok

abbrev list_type : SynType
list_type = SynType.path false (
    segment "Vec" (angle_bracketed (and_generic (type_argument (named "u32")) no_generics))
      no_segments)

list_type-ok :
    analyze list_type []
    ≡ ok (analyzed (AnalyzedBase.numeric NumericKind.u32) (vec ∷ []) list_type 0)
unfolding analyze
list_type-ok = refl

analyze-wrappers_of_example : wrappers_of (normalize_wrappers (vec ∷ [])) ≡ vec ∷ []
analyze-wrappers_of_example =
    analyze-wrappers_of list_type [] (AnalyzedBase.numeric NumericKind.u32) (vec ∷ []) list_type 0
      list_type-ok

abbrev pub inner_fields : NestedLeaf → PolarsResult SchemaFields
inner_fields leaf = built (("x", DataType.int64) ∷ [])

-- `#[df_derive(flatten)] inner: Inner`
abbrev pub inner_columns : List ColumnIr
inner_columns =
    field_column
      (record {
        name = "inner";
        leaf_spec = record {
          spec = LeafSpec.struct (named "Inner");
          route = TerminalLeafRoute.nested (NestedLeaf.struct (named "Inner"));
        };
        nested_name_policy = flatten;
      })
      (record { name = "inner"; field_index = none; outer_smart_ptr_depth = 0 })
      (WrapperShape.leaf LeafShape.bare)
    ∷ pair_columns

schema-empty_dataframe_example :
    schema inner_fields inner_columns
    ≡ map_built fields_of (empty_dataframe_columns inner_fields inner_columns)
schema-empty_dataframe_example = schema-empty_dataframe inner_fields inner_columns

inner_columns-needed : needs_unique_name_validation inner_columns ≡ true
unfolding needs_unique_name_validation
inner_columns-needed = refl

abbrev inner_schema_fields : SchemaFields
inner_schema_fields =
    ("x", DataType.int64)
    ∷ ("pair.field_0", DataType.string)
    ∷ ("pair.field_1", DataType.uint8)
    ∷ []

inner_columns-ok : schema inner_fields inner_columns ≡ built inner_schema_fields
unfolding schema
inner_columns-ok = refl

schema-Distinct_example : Distinct (field_names inner_schema_fields)
schema-Distinct_example =
    schema-Distinct inner_fields inner_columns inner_schema_fields inner_columns-needed
      inner_columns-ok

validate_unique_column_names-Distinct_example :
    (validate_unique_column_names ("a" ∷ "b" ∷ []) ≡ built tt) ↔ Distinct ("a" ∷ "b" ∷ [])
validate_unique_column_names-Distinct_example =
    validate_unique_column_names-Distinct ("a" ∷ "b" ∷ [])

abbrev pub pair_fields : List FieldIr
pair_fields =
    record {
      name = "pair";
      field_index = none;
      leaf_spec = LeafSpec.tuple (
          element LeafSpec.string (WrapperShape.leaf LeafShape.bare) 0 (
            element (LeafSpec.numeric NumericKind.u8) (WrapperShape.leaf LeafShape.bare) 0
              no_elements));
      wrapper_shape = WrapperShape.leaf LeafShape.bare;
      outer_smart_ptr_depth = 0;
      nested_name_policy = field;
    }
    ∷ []

pair_fields-ok : project_fields_to_columns pair_fields ≡ some pair_columns
unfolding project_fields_to_columns
pair_fields-ok = refl

project_fields_to_columns-all_leaves_example : map column_leaf pair_columns ≡ all_leaves pair_fields
project_fields_to_columns-all_leaves_example =
    project_fields_to_columns-all_leaves pair_fields pair_columns pair_fields-ok
