-- ===== src/Lower/Projection.antt =====
-- df-derive-macros/src/lower/projection.rs: the columns of a field. `none` stands for a panic, of an
-- `expect` or of a `debug_assert!`; Projection.Safety shows that validated fields meet none.
use df_derive.Prelude.{
  ℕ, suc, ◌+◌, Bool, true, false, Option, none, some, String, List, [], ◌∷◌, ◌++◌, ltb, eqb, length,
  if◌then◌else◌, dotted, positional_name,
}
use df_derive.Ir.{
  AccessChain, option, option_layers, FieldIr, FieldSource, TupleProjectionStep, bare, optional,
  from_option_access, VecLayerSpec, VecLayers, depth, WrapperShape, leaf, vec, from_vec, extend,
  LeafSpec, TupleElements, no_elements, element, new_terminal, TerminalLeafSpec, NestedNamePolicy,
  ColumnIr, ColumnCommon, field_column, tuple_static, tuple_parent_option, tuple_parent_vec,
  column_name_for_ident,
}

unfoldable pub prepend_option_access : AccessChain → AccessChain
prepend_option_access access = option ∷ access

unfoldable pub concat_access_chains : AccessChain → AccessChain → AccessChain
concat_access_chains left right = left ++ right

unfoldable pub prepend_parent_option_access : AccessChain → AccessChain → AccessChain
unfolding option_layers prepend_option_access
prepend_parent_option_access parent access =
    if ltb 0 (option_layers parent) then prepend_option_access access else access

-- The first layer of a shape under one more `Option`.
unfoldable pub compose_option_with_element : WrapperShape → WrapperShape
unfolding from_option_access prepend_option_access
compose_option_with_element (leaf bare) = leaf (from_option_access 1 (prepend_option_access []))
compose_option_with_element (leaf (optional n access)) =
    leaf (from_option_access (1 + n) (prepend_option_access access))
compose_option_with_element (vec v) =
    let first = v.layers.first in
    vec (record v {
      layers = record (v.layers) {
        first = record {
          option_layers_above = first.option_layers_above + 1;
          access = prepend_option_access first.access;
        };
      };
    })

-- the layers of an element's shape, its first under the options that the parent carries
unfoldable pub carried_layers : VecLayers → VecLayers → List VecLayerSpec
unfolding prepend_parent_option_access
carried_layers parent v =
    let first = v.layers.first in
    record {
      option_layers_above = first.option_layers_above + parent.inner_option_layers;
      access = prepend_parent_option_access parent.inner_access first.access;
    }
    ∷ v.layers.rest

unfoldable pub compose_vec_parent_with_element : VecLayers → WrapperShape → VecLayers
unfolding carried_layers extend concat_access_chains
compose_vec_parent_with_element parent (vec v) = record {
  layers = extend parent.layers (carried_layers parent v);
  inner_option_layers = v.inner_option_layers;
  inner_access = v.inner_access;
}
compose_vec_parent_with_element parent (leaf bare) = record {
  layers = parent.layers;
  inner_option_layers = parent.inner_option_layers + 0;
  inner_access = parent.inner_access;
}
compose_vec_parent_with_element parent (leaf (optional n access)) = record {
  layers = parent.layers;
  inner_option_layers = parent.inner_option_layers + n;
  inner_access = concat_access_chains parent.inner_access access;
}

pub data ProjectedColumnContext : Type 0 where
  static : WrapperShape → ProjectedColumnContext
  parent_option : WrapperShape → AccessChain → ProjectedColumnContext
  parent_vec : VecLayers → ℕ → AccessChain → ProjectedColumnContext

unfoldable pub compose_parent_with_element : WrapperShape → WrapperShape → ProjectedColumnContext
unfolding compose_option_with_element compose_vec_parent_with_element depth
compose_parent_with_element (leaf bare) w = static w
compose_parent_with_element (leaf (optional n access)) w =
    parent_option (compose_option_with_element w) access
compose_parent_with_element (vec parent) w =
    parent_vec (compose_vec_parent_with_element parent w) (depth parent) parent.inner_access

abbrev pub field_policy : String → TerminalLeafSpec → ColumnCommon
field_policy name t = record {
  name = name;
  leaf_spec = t;
  nested_name_policy = NestedNamePolicy.field;
}

-- the column of an element whose leaf is terminal, at the path to it
unfoldable pub column_of_context :
    ColumnCommon
    → FieldSource
    → List TupleProjectionStep
    → TupleProjectionStep
    → ProjectedColumnContext
    → Option ColumnIr
unfolding from_vec
column_of_context c root path step (static w) = elim (from_vec (path ++ step ∷ [])) [
  | none ↦ none
  | some steps ↦ some (tuple_static c root steps w)
]
column_of_context c root path step (parent_option w access) = elim (from_vec (path ++ step ∷ [])) [
  | none ↦ none
  | some steps ↦ some (tuple_parent_option c root steps access w)
]
column_of_context c root path step (parent_vec v projection_layer access) =
    if eqb (length (path ++ step ∷ [])) 1
    then some (tuple_parent_vec c root step projection_layer access v)
    else none

unfoldable pub is_vec_shape : WrapperShape → Bool
is_vec_shape (vec _) = true
is_vec_shape _ = false

abbrev pub concat_columns : Option (List ColumnIr) → Option (List ColumnIr) → Option (List ColumnIr)
concat_columns (some xs) (some ys) = some (xs ++ ys)
concat_columns _ _ = none

abbrev pub one_column : Option ColumnIr → Option (List ColumnIr)
one_column (some c) = some (c ∷ [])
one_column none = none

unfoldable pub project_leaf :
    FieldSource
    → String
    → WrapperShape
    → List TupleProjectionStep
    → TupleProjectionStep
    → LeafSpec
    → WrapperShape
    → Option (List ColumnIr)
unfolding new_terminal column_of_context compose_parent_with_element
project_leaf root name parent path step l w = elim (new_terminal l) [
  | none ↦ none
  | some t ↦ one_column (
      column_of_context (field_policy name t) root path step (compose_parent_with_element parent w))
]

-- the elements from `index` on
unfoldable pub project_tuple_elements :
    FieldSource
    → String
    → WrapperShape
    → ℕ
    → List TupleProjectionStep
    → TupleElements
    → Option (List ColumnIr)
unfolding project_leaf is_vec_shape dotted positional_name
project_tuple_elements root column_prefix parent index path no_elements = some []
project_tuple_elements root column_prefix parent index path
      (element (LeafSpec.tuple inner) w d rest) =
    let step : TupleProjectionStep = record { index = index; outer_smart_ptr_depth = d } in
    let name = dotted column_prefix (positional_name index) in
    if is_vec_shape parent
    then none
    else concat_columns (project_tuple_elements root name (leaf bare) 0 (path ++ step ∷ []) inner)
        (project_tuple_elements root column_prefix parent (suc index) path rest)
project_tuple_elements root column_prefix parent index path (element l w d rest) =
    let step : TupleProjectionStep = record { index = index; outer_smart_ptr_depth = d } in
    let name = dotted column_prefix (positional_name index) in
    concat_columns (project_leaf root name parent path step l w)
      (project_tuple_elements root column_prefix parent (suc index) path rest)

abbrev pub source_of : FieldIr → FieldSource
source_of f = record {
  name = f.name;
  field_index = f.field_index;
  outer_smart_ptr_depth = f.outer_smart_ptr_depth;
}

abbrev pub field_of_terminal : FieldIr → Option TerminalLeafSpec → Option (List ColumnIr)
field_of_terminal f none = none
field_of_terminal f (some t) = some (
    field_column
      (record {
        name = column_name_for_ident f.name;
        leaf_spec = t;
        nested_name_policy = f.nested_name_policy;
      })
      (source_of f) f.wrapper_shape
    ∷ [])

abbrev pub project_field_leaf : FieldIr → LeafSpec → Option (List ColumnIr)
project_field_leaf f (LeafSpec.tuple elements) =
    project_tuple_elements (source_of f) (column_name_for_ident f.name) f.wrapper_shape 0 []
      elements
project_field_leaf f l = field_of_terminal f (new_terminal l)

unfoldable pub project_field : FieldIr → Option (List ColumnIr)
unfolding project_tuple_elements column_name_for_ident new_terminal
project_field f = project_field_leaf f f.leaf_spec

unfoldable pub project_fields_to_columns : List FieldIr → Option (List ColumnIr)
unfolding project_field
project_fields_to_columns [] = some []
project_fields_to_columns (f ∷ fs) = concat_columns (project_field f) (project_fields_to_columns fs)
