-- ===== src/Parser.antt =====
-- df-derive-macros/src/parser.rs: from the derive input to the columns.
use df_derive.Prelude.{ℕ, suc, Option, none, some, String, List, [], ◌∷◌, positional_name}
use df_derive.Ir.{FieldIr, ColumnIr}
use df_derive.Errors.{Result, ok, err, derive_on_enum, derive_on_union, ◌>>=◌}
use df_derive.Lower.{SynField, lower_field, project_fields_to_columns}

pub data Fields : Type 0 where
  named : List (String × SynField) → Fields
  unit : Fields
  unnamed : List SynField → Fields

pub data Data : Type 0 where
  struct_data : Fields → Data
  enum_data union_data : Data

-- `syn::DeriveInput`: name, type parameters and body
pub record DeriveInput : Type 0 where
  pub ident : String
  pub type_params : List String
  pub body : Data

-- `StructIR`; `none` in place of the columns is a panic of the projection
pub record StructIr : Type 0 where
  pub name : String
  pub generic_params : List String
  pub columns : Option (List ColumnIr)

unfoldable pub validate_struct_input : Data → Result Fields
validate_struct_input (struct_data fields) = ok fields
validate_struct_input enum_data = err derive_on_enum
validate_struct_input union_data = err derive_on_union

abbrev pub push_field : Option FieldIr → List FieldIr → List FieldIr
push_field none fs = fs
push_field (some f) fs = f ∷ fs

unfoldable pub lower_named : String → List String → List (String × SynField) → Result (List FieldIr)
unfolding lower_field
lower_named struct_name generic_params [] = ok []
lower_named struct_name generic_params ((name, f) ∷ fs) = do
  ir ← lower_field f name none struct_name generic_params
  rest ← lower_named struct_name generic_params fs
  ok (push_field ir rest)

unfoldable pub lower_unnamed : String → List String → ℕ → List SynField → Result (List FieldIr)
unfolding lower_field positional_name
lower_unnamed struct_name generic_params index [] = ok []
lower_unnamed struct_name generic_params index (f ∷ fs) = do
  ir ← lower_field f (positional_name index) (some index) struct_name generic_params
  rest ← lower_unnamed struct_name generic_params (suc index) fs
  ok (push_field ir rest)

unfoldable pub lower_fields : String → List String → Fields → Result (List FieldIr)
unfolding lower_named lower_unnamed
lower_fields name params (named fs) = lower_named name params fs
lower_fields name params unit = ok []
lower_fields name params (unnamed fs) = lower_unnamed name params 0 fs

unfoldable pub parse_to_ir : DeriveInput → Result StructIr
unfolding validate_struct_input lower_fields project_fields_to_columns
parse_to_ir input = do
  fields ← validate_struct_input input.body
  irs ← lower_fields input.ident input.type_params fields
  ok (record {
    name = input.ident;
    generic_params = input.type_params;
    columns = project_fields_to_columns irs;
  })
