-- ===== src/Lower/Tuple.antt =====
-- df-derive-macros/src/lower/tuple.rs: what a tuple-typed field may not have.
use df_derive.Prelude.{
  Bool, true, false, not, ◌&&◌, ◌||◌, Option, none, some, String, List, is_empty, if◌then◌else◌,
}
use df_derive.Errors.{
  Result, ok, err, FieldOverrideKey, unsupported_tuple_attr, unsupported_wrapped_nested_tuple, ◌>>◌,
}
use df_derive.Attrs.{LeafOverride, as_str, as_string, decimal, time_unit}
use df_derive.TypeAnalysis.{
  RawWrapper, AnalyzedBase, AnalyzedType, AnalyzedTypes, analyzed, no_elems, and_elem,
}

pub data FieldAttrRef : Type 0 where
  binary : FieldAttrRef
  leaf : LeafOverride → FieldAttrRef

unfoldable pub reject_attrs_on_tuple : String → Option FieldAttrRef → Result (Unit {0})
reject_attrs_on_tuple name none = ok tt
reject_attrs_on_tuple name (some binary) =
    err (unsupported_tuple_attr name FieldOverrideKey.as_binary)
reject_attrs_on_tuple name (some (leaf as_str)) =
    err (unsupported_tuple_attr name FieldOverrideKey.as_str)
reject_attrs_on_tuple name (some (leaf as_string)) =
    err (unsupported_tuple_attr name FieldOverrideKey.as_string)
reject_attrs_on_tuple name (some (leaf (decimal _ _))) =
    err (unsupported_tuple_attr name FieldOverrideKey.decimal)
reject_attrs_on_tuple name (some (leaf (time_unit _))) =
    err (unsupported_tuple_attr name FieldOverrideKey.time_unit)

unfoldable pub is_tuple_base : AnalyzedBase → Bool
is_tuple_base (AnalyzedBase.tuple _) = true
is_tuple_base _ = false

unfoldable pub has_semantic_wrappers : List RawWrapper → Bool
has_semantic_wrappers ws = not (is_empty ws)

-- The loop over the elements of a tuple, and the call on each element's own base.
unfoldable mutual
  unfolding is_tuple_base has_semantic_wrappers

  pub reject_wrapped_in : String → Bool → AnalyzedBase → Result (Unit {0})
  reject_wrapped_in name parent_wrapped (AnalyzedBase.tuple elements) =
      reject_wrapped_elems name parent_wrapped elements
  reject_wrapped_in name parent_wrapped _ = ok tt

  pub reject_wrapped_elems : String → Bool → AnalyzedTypes → Result (Unit {0})
  reject_wrapped_elems name parent_wrapped no_elems = ok tt
  reject_wrapped_elems name parent_wrapped (and_elem (analyzed base ws ty d) rest) =
      if is_tuple_base base && (parent_wrapped || has_semantic_wrappers ws)
      then err (unsupported_wrapped_nested_tuple name)
      else reject_wrapped_in name (has_semantic_wrappers ws) base
        >> reject_wrapped_elems name parent_wrapped rest

unfoldable pub reject_unsupported_wrapped_nested_tuples : String → AnalyzedType → Result (Unit {0})
unfolding reject_wrapped_in has_semantic_wrappers
reject_unsupported_wrapped_nested_tuples name (analyzed base ws ty d) =
    reject_wrapped_in name (has_semantic_wrappers ws) base
