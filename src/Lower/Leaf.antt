-- ===== src/Lower/Leaf.antt =====
-- df-derive-macros/src/lower/leaf.rs, with `analyzed_to_tuple_element` of lower/tuple.rs
use df_derive.Prelude.{ℕ, Bool, true, false, Option, none, some, String}
use df_derive.Ir.{
  DateTimeUnit, std, chrono, StringyBase, DisplayBase, DecimalBackend, LeafSpec, TupleElements,
  no_elements, element,
}
use df_derive.Errors.{
  Result, ok, err, unannotated_borrowed_bytes, unannotated_cow_bytes, as_str_wrong_base,
  as_string_std_duration, as_string_bytes, as_string_slice, as_string_tuple, decimal_wrong_base,
  time_unit_naive_date, time_unit_naive_time, time_unit_wrong_base, ◌>>=◌, ◌>>◌,
}
use df_derive.Errors
use df_derive.Attrs.{LeafOverride, as_str, as_string, decimal, time_unit}
use df_derive.TypeAnalysis.{
  AnalyzedBase, AnalyzedTypes, analyzed, no_elems, and_elem, default_datetime_unit,
  default_duration_unit, default_decimal_precision, default_decimal_scale,
}
use df_derive.Lower.Wrappers.{normalize_wrappers}
use df_derive.Lower.Tuple.{leaf, reject_attrs_on_tuple, is_tuple_base}

unfoldable mutual
  unfolding normalize_wrappers

  pub default_leaf_for_base : String → Bool → AnalyzedBase → Result LeafSpec
  default_leaf_for_base name add (AnalyzedBase.numeric kind) = ok (LeafSpec.numeric kind)
  default_leaf_for_base name add AnalyzedBase.string = ok LeafSpec.string
  default_leaf_for_base name add AnalyzedBase.borrowed_str =
      ok (LeafSpec.as_str StringyBase.borrowed_str)
  default_leaf_for_base name add AnalyzedBase.cow_str = ok (LeafSpec.as_str StringyBase.cow_str)
  default_leaf_for_base name add AnalyzedBase.borrowed_bytes =
      err (unannotated_borrowed_bytes name add)
  default_leaf_for_base name add AnalyzedBase.cow_bytes = err (unannotated_cow_bytes name add)
  default_leaf_for_base name add AnalyzedBase.borrowed_slice = err (Errors.borrowed_slice name)
  default_leaf_for_base name add AnalyzedBase.cow_slice = err (Errors.cow_slice name)
  default_leaf_for_base name add AnalyzedBase.bool = ok LeafSpec.bool
  default_leaf_for_base name add AnalyzedBase.date_time_tz =
      ok (LeafSpec.date_time default_datetime_unit)
  default_leaf_for_base name add AnalyzedBase.naive_date = ok LeafSpec.naive_date
  default_leaf_for_base name add AnalyzedBase.naive_time = ok LeafSpec.naive_time
  default_leaf_for_base name add AnalyzedBase.naive_date_time =
      ok (LeafSpec.naive_date_time default_datetime_unit)
  default_leaf_for_base name add AnalyzedBase.std_duration =
      ok (LeafSpec.duration default_duration_unit std)
  default_leaf_for_base name add AnalyzedBase.chrono_duration =
      ok (LeafSpec.duration default_duration_unit chrono)
  default_leaf_for_base name add AnalyzedBase.decimal = ok (
      LeafSpec.decimal default_decimal_precision default_decimal_scale DecimalBackend.runtime_known)
  default_leaf_for_base name add (AnalyzedBase.struct ty) = ok (LeafSpec.struct ty)
  default_leaf_for_base name add (AnalyzedBase.generic ident) = ok (LeafSpec.generic ident)
  default_leaf_for_base name add (AnalyzedBase.tuple elements) =
      tuple_elements name elements >>= λ lowered. ok (LeafSpec.tuple lowered)

  -- `analyzed_to_tuple_element` on each element, collected up to the first error
  pub tuple_elements : String → AnalyzedTypes → Result TupleElements
  tuple_elements name no_elems = ok no_elements
  tuple_elements name (and_elem (analyzed base ws ty d) rest) =
      default_leaf_for_base name false base >>= λ leaf_spec.
      tuple_elements name rest >>= λ others. ok (element leaf_spec (normalize_wrappers ws) d others)

unfoldable pub parse_leaf_as_str : String → AnalyzedBase → Result LeafSpec
parse_leaf_as_str name AnalyzedBase.string = ok (LeafSpec.as_str StringyBase.string)
parse_leaf_as_str name AnalyzedBase.borrowed_str = ok (LeafSpec.as_str StringyBase.borrowed_str)
parse_leaf_as_str name AnalyzedBase.cow_str = ok (LeafSpec.as_str StringyBase.cow_str)
parse_leaf_as_str name (AnalyzedBase.struct ty) = ok (LeafSpec.as_str (StringyBase.struct ty))
parse_leaf_as_str name (AnalyzedBase.generic ident) =
    ok (LeafSpec.as_str (StringyBase.generic ident))
parse_leaf_as_str name _ = err (as_str_wrong_base name)

unfoldable pub display_base_for_as_string : String → AnalyzedBase → Result DisplayBase
display_base_for_as_string name (AnalyzedBase.struct ty) = ok (DisplayBase.struct ty)
display_base_for_as_string name (AnalyzedBase.generic ident) = ok (DisplayBase.generic ident)
display_base_for_as_string name AnalyzedBase.std_duration = err (as_string_std_duration name)
display_base_for_as_string name AnalyzedBase.borrowed_bytes = err (as_string_bytes name)
display_base_for_as_string name AnalyzedBase.cow_bytes = err (as_string_bytes name)
display_base_for_as_string name AnalyzedBase.borrowed_slice = err (as_string_slice name)
display_base_for_as_string name AnalyzedBase.cow_slice = err (as_string_slice name)
display_base_for_as_string name (AnalyzedBase.tuple _) = err (as_string_tuple name)
display_base_for_as_string name _ = ok DisplayBase.inherent

unfoldable pub parse_leaf_as_string : String → AnalyzedBase → Result LeafSpec
unfolding display_base_for_as_string
parse_leaf_as_string name base = do
  display ← display_base_for_as_string name base
  ok (LeafSpec.as_string display)

unfoldable pub parse_leaf_decimal : String → AnalyzedBase → ℕ → ℕ → Result LeafSpec
parse_leaf_decimal name AnalyzedBase.decimal p s =
    ok (LeafSpec.decimal p s DecimalBackend.runtime_known)
parse_leaf_decimal name (AnalyzedBase.struct ty) p s =
    ok (LeafSpec.decimal p s (DecimalBackend.struct ty))
parse_leaf_decimal name (AnalyzedBase.generic ident) p s =
    ok (LeafSpec.decimal p s (DecimalBackend.generic ident))
parse_leaf_decimal name _ p s = err (decimal_wrong_base name)

unfoldable pub parse_leaf_time_unit : String → AnalyzedBase → DateTimeUnit → Result LeafSpec
parse_leaf_time_unit name AnalyzedBase.date_time_tz unit = ok (LeafSpec.date_time unit)
parse_leaf_time_unit name AnalyzedBase.naive_date_time unit = ok (LeafSpec.naive_date_time unit)
parse_leaf_time_unit name AnalyzedBase.std_duration unit = ok (LeafSpec.duration unit std)
parse_leaf_time_unit name AnalyzedBase.chrono_duration unit = ok (LeafSpec.duration unit chrono)
parse_leaf_time_unit name AnalyzedBase.naive_date unit = err (time_unit_naive_date name)
parse_leaf_time_unit name AnalyzedBase.naive_time unit = err (time_unit_naive_time name)
parse_leaf_time_unit name _ unit = err (time_unit_wrong_base name)

-- the tuple check that stands before the dispatch
abbrev tuple_check : String → Option LeafOverride → Bool → Result (Unit {0})
tuple_check name (some o) true = reject_attrs_on_tuple name (some (leaf o))
tuple_check name _ _ = ok tt

abbrev leaf_of_override : String → Option LeafOverride → AnalyzedBase → Result LeafSpec
leaf_of_override name none base = default_leaf_for_base name true base
leaf_of_override name (some as_string) base = parse_leaf_as_string name base
leaf_of_override name (some as_str) base = parse_leaf_as_str name base
leaf_of_override name (some (decimal p s)) base = parse_leaf_decimal name base p s
leaf_of_override name (some (time_unit unit)) base = parse_leaf_time_unit name base unit

unfoldable pub parse_leaf_spec : String → Option LeafOverride → AnalyzedBase → Result LeafSpec
unfolding is_tuple_base reject_attrs_on_tuple default_leaf_for_base parse_leaf_as_string
    parse_leaf_as_str parse_leaf_decimal parse_leaf_time_unit
parse_leaf_spec name override base = do
  tuple_check name override (is_tuple_base base)
  leaf_of_override name override base
