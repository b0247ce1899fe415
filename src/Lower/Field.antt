-- ===== src/Lower/Field.antt =====
-- df-derive-macros/src/lower/field.rs
use df_derive.Prelude.{ℕ, Bool, true, false, ◌&&◌, Option, none, some, String, List, if◌then◌else◌}
use df_derive.Syn.{SynType}
use df_derive.Ir.{
  FieldIr, LeafSpec, NestedNamePolicy, field, flatten, prefix, WrapperShape, leaf, bare,
}
use df_derive.Errors.{Result, ok, err, invalid_flatten_field, ◌>>=◌, ◌>>◌}
use df_derive.Attrs.{
  Attribute, FlattenConfig, FieldConversion, FieldDisposition, include, parse_field_disposition,
}
use df_derive.TypeAnalysis.{AnalyzedBase, AnalyzedType, analyzed, RawWrapper, analyze}
use df_derive.Lower.Wrappers.{normalize_wrappers, parse_as_binary_shape}
use df_derive.Lower.Tuple.{
  FieldAttrRef, is_tuple_base, reject_attrs_on_tuple, reject_unsupported_wrapped_nested_tuples,
}
use df_derive.Lower.Leaf.{parse_leaf_spec}
use df_derive.Lower.Validation.{reject_direct_self_reference}

-- `syn::Field`: its attributes and its type
pub record SynField : Type 0 where
  pub attrs : List Attribute
  pub ty : SynType

unfoldable pub flatten_name_policy : FlattenConfig → NestedNamePolicy
flatten_name_policy none = flatten
flatten_name_policy (some p) = prefix p

abbrev is_nested_base : AnalyzedBase → Bool
is_nested_base (AnalyzedBase.struct _) = true
is_nested_base (AnalyzedBase.generic _) = true
is_nested_base _ = false

abbrev is_bare_shape : WrapperShape → Bool
is_bare_shape (leaf bare) = true
is_bare_shape _ = false

unfoldable pub reject_invalid_flatten_field :
    String → AnalyzedBase → WrapperShape → Result (Unit {0})
reject_invalid_flatten_field name base shape =
    if is_nested_base base && is_bare_shape shape then ok tt else err (invalid_flatten_field name)

-- the leaf and shape of a field, and the policy for its nested names
pub record Lowered : Type 0 where
  pub leaf_spec : LeafSpec
  pub wrapper_shape : WrapperShape
  pub nested_name_policy : NestedNamePolicy

abbrev plain : LeafSpec → WrapperShape → Lowered
plain l w = record { leaf_spec = l; wrapper_shape = w; nested_name_policy = field }

unfoldable pub lower_conversion :
    String → FieldConversion → AnalyzedBase → List RawWrapper → Result Lowered
unfolding normalize_wrappers reject_invalid_flatten_field flatten_name_policy is_tuple_base
    reject_attrs_on_tuple parse_as_binary_shape parse_leaf_spec
lower_conversion name (FieldConversion.flatten config) base ws = do
  reject_invalid_flatten_field name base (normalize_wrappers ws)
  l ← parse_leaf_spec name none base
  ok (record {
    leaf_spec = l;
    wrapper_shape = normalize_wrappers ws;
    nested_name_policy = flatten_name_policy config;
  })
lower_conversion name FieldConversion.binary base ws = do
  if is_tuple_base base then reject_attrs_on_tuple name (some FieldAttrRef.binary) else ok tt
  r ← parse_as_binary_shape name base ws
  ok (plain r.0 (normalize_wrappers r.1))
lower_conversion name FieldConversion.default base ws = do
  l ← parse_leaf_spec name none base
  ok (plain l (normalize_wrappers ws))
lower_conversion name (FieldConversion.leaf_override o) base ws = do
  l ← parse_leaf_spec name (some o) base
  ok (plain l (normalize_wrappers ws))

-- the field once its type is analyzed, with the checks that come first
unfoldable pub lower_analyzed :
    String → Option ℕ → String → FieldConversion → AnalyzedType → Result FieldIr
unfolding reject_direct_self_reference reject_unsupported_wrapped_nested_tuples lower_conversion
lower_analyzed name index struct_name conversion (analyzed base ws ty d) = do
  reject_direct_self_reference name struct_name (analyzed base ws ty d)
  reject_unsupported_wrapped_nested_tuples name (analyzed base ws ty d)
  low ← lower_conversion name conversion base ws
  ok (record {
    name = name;
    field_index = index;
    leaf_spec = low.leaf_spec;
    wrapper_shape = low.wrapper_shape;
    outer_smart_ptr_depth = d;
    nested_name_policy = low.nested_name_policy;
  })

abbrev pub lower_included :
    SynField → String → Option ℕ → String → List String → FieldDisposition → Result (Option FieldIr)
lower_included f name index struct_name generic_params FieldDisposition.skip = ok none
lower_included f name index struct_name generic_params (include conversion) = do
  a ← analyze f.ty generic_params
  ir ← lower_analyzed name index struct_name conversion a
  ok (some ir)

unfoldable pub lower_field :
    SynField → String → Option ℕ → String → List String → Result (Option FieldIr)
unfolding parse_field_disposition analyze lower_analyzed
lower_field f name index struct_name generic_params = do
  disposition ← parse_field_disposition f.attrs name
  lower_included f name index struct_name generic_params disposition
