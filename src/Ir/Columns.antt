-- ===== src/Ir/Columns.antt =====
-- df-derive-macros/src/ir/columns.rs, names.rs and structs.rs
use Prim.Native.Char.{Char}
use df_derive.Prelude.{ℕ, Bool, true, false, Option, String, ◌==◌, if◌then◌else◌}
use df_derive.Ir.Access.{AccessChain}
use df_derive.Ir.Wrappers.{NonEmpty, VecLayers, WrapperShape, vec_depth, depth}
use df_derive.Ir.Leaf.{LeafSpec, TerminalLeafSpec}

pub data NestedNamePolicy : Type 0 where
  field flatten : NestedNamePolicy
  prefix : String → NestedNamePolicy

unfoldable pub requires_unique_name_validation : NestedNamePolicy → Bool
requires_unique_name_validation field = false
requires_unique_name_validation _ = true

pub record FieldSource : Type 0 where
  pub name : String
  pub field_index : Option ℕ
  pub outer_smart_ptr_depth : ℕ

pub record TupleProjectionStep : Type 0 where
  pub index : ℕ
  pub outer_smart_ptr_depth : ℕ

pub record ColumnCommon : Type 0 where
  pub name : String
  pub leaf_spec : TerminalLeafSpec
  pub nested_name_policy : NestedNamePolicy

pub data ColumnIr : Type 0 where
  field_column : ColumnCommon → FieldSource → WrapperShape → ColumnIr
  tuple_static : ColumnCommon → FieldSource → NonEmpty TupleProjectionStep → WrapperShape → ColumnIr
  tuple_parent_option :
      ColumnCommon
      → FieldSource
      → NonEmpty TupleProjectionStep
      → AccessChain
      → WrapperShape
      → ColumnIr
  -- the terminal step, the projection layer and the parent's inner access
  tuple_parent_vec :
      ColumnCommon → FieldSource → TupleProjectionStep → ℕ → AccessChain → VecLayers → ColumnIr

unfoldable pub common : ColumnIr → ColumnCommon
common (field_column c _ _) = c
common (tuple_static c _ _ _) = c
common (tuple_parent_option c _ _ _ _) = c
common (tuple_parent_vec c _ _ _ _ _) = c

unfoldable pub column_name : ColumnIr → String
unfolding common
column_name c = (common c).name

unfoldable pub column_vec_depth : ColumnIr → ℕ
unfolding vec_depth depth
column_vec_depth (field_column _ _ w) = vec_depth w
column_vec_depth (tuple_static _ _ _ w) = vec_depth w
column_vec_depth (tuple_parent_option _ _ _ _ w) = vec_depth w
column_vec_depth (tuple_parent_vec _ _ _ _ _ v) = depth v

pub record FieldIr : Type 0 where
  pub name : String
  pub field_index : Option ℕ
  pub leaf_spec : LeafSpec
  pub wrapper_shape : WrapperShape
  pub outer_smart_ptr_depth : ℕ
  pub nested_name_policy : NestedNamePolicy

-- `column_name_for_ident`: a raw identifier loses its `r#`
abbrev strip_raw : String → Char → Char → String → String
strip_raw name c d rest = if String.◌∷◌ c (String.◌∷◌ d String.[]) == "r#" then rest else name

unfoldable pub column_name_for_ident : String → String
column_name_for_ident String.[] = ""
column_name_for_ident (String.◌∷◌ c String.[]) = String.◌∷◌ c String.[]
column_name_for_ident (String.◌∷◌ c (String.◌∷◌ d rest)) =
    strip_raw (String.◌∷◌ c (String.◌∷◌ d rest)) c d rest
