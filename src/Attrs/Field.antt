-- ===== src/Attrs/Field.antt =====
-- df-derive-macros/src/attrs/field.rs
use df_derive.Prelude.{Option, none, some, String, List, ◌==◌, if◌then◌else◌}
use df_derive.Ir.{DateTimeUnit, milliseconds, microseconds, nanoseconds}
use df_derive.Errors.{
  Result, ok, err, syn_error, invalid_time_unit, empty_prefix, unknown_flatten_key,
  unknown_field_key, duplicate_prefix, ◌>>=◌, ◌>>◌,
}
use df_derive.Attrs.Items.{
  SubMeta, MetaValue, assigned, nested, no_value, Meta, Attribute, literal_text, assigned_text,
  for_each,
}
use df_derive.Attrs.Decimal.{parse_decimal_attr}
use df_derive.Attrs.Conflicts.{
  LeafOverride, FlattenConfig, FieldAttr, FieldConversion, FieldDisposition, include,
  into_disposition, set_override,
}

unfoldable pub parse_time_unit_attr : MetaValue → Result DateTimeUnit
unfolding assigned_text
parse_time_unit_attr value = do
  lit ← assigned_text value
  if lit == "ms"
      then ok milliseconds
      else if lit == "us"
      then ok microseconds
      else if lit == "ns"
      then ok nanoseconds
      else err (invalid_time_unit lit)

abbrev set_prefix : Option String → String → Result (Option String)
set_prefix (some existing) value = err (duplicate_prefix existing value)
set_prefix none value = ok (some value)

unfoldable pub flatten_key : Option String → SubMeta → Result (Option String)
unfolding literal_text
flatten_key found sub =
    if sub.key == "prefix"
    then (do
      value ← literal_text sub.value
      if value == "" then err empty_prefix else set_prefix found value)
    else err unknown_flatten_key

-- without parentheses there is no prefix
unfoldable pub parse_flatten_attr : MetaValue → Result FlattenConfig
unfolding flatten_key for_each
parse_flatten_attr (nested subs) = for_each flatten_key none subs
parse_flatten_attr no_value = ok none
parse_flatten_attr (assigned _) = err syn_error

-- the attribute that an item stands for
unfoldable pub parse_meta : Meta → Result FieldAttr
unfolding parse_decimal_attr parse_time_unit_attr parse_flatten_attr
parse_meta meta =
    if meta.key == "skip"
    then ok FieldAttr.skip
    else if meta.key == "as_string"
    then ok (FieldAttr.leaf LeafOverride.as_string)
    else if meta.key == "as_str"
    then ok (FieldAttr.leaf LeafOverride.as_str)
    else if meta.key == "as_binary"
    then ok FieldAttr.binary
    else if meta.key == "decimal"
    then (do d ← parse_decimal_attr meta.value; ok (FieldAttr.leaf (LeafOverride.decimal d.0 d.1)))
    else if meta.key == "time_unit"
    then (do
      unit ← parse_time_unit_attr meta.value
      ok (FieldAttr.leaf (LeafOverride.time_unit unit)))
    else if meta.key == "flatten"
    then (do config ← parse_flatten_attr meta.value; ok (FieldAttr.flatten config))
    else err unknown_field_key

-- What follows the key of a flag is left to `syn`, which then asks for a comma.
abbrev pub no_trailing_value : FieldAttr → MetaValue → Result (Unit {0})
no_trailing_value attr no_value = ok tt
no_trailing_value (FieldAttr.leaf (LeafOverride.decimal _ _)) value = ok tt
no_trailing_value (FieldAttr.leaf (LeafOverride.time_unit _)) value = ok tt
no_trailing_value (FieldAttr.flatten _) value = ok tt
no_trailing_value attr value = err syn_error

-- the closure of the loop: the slot is the variable `override_`
unfoldable pub field_meta : String → Option FieldAttr → Meta → Result (Option FieldAttr)
unfolding parse_meta set_override
field_meta name slot meta = do
  attr ← parse_meta meta
  slot' ← set_override name slot attr
  no_trailing_value attr meta.value
  ok slot'

unfoldable pub field_attribute : String → Option FieldAttr → Attribute → Result (Option FieldAttr)
unfolding field_meta for_each
field_attribute name slot attr =
    if attr.name == "df_derive" then for_each (field_meta name) slot attr.metas else ok slot

abbrev pub disposition_of : Option FieldAttr → FieldDisposition
disposition_of none = include FieldConversion.default
disposition_of (some attr) = into_disposition attr

unfoldable pub parse_field_disposition : List Attribute → String → Result FieldDisposition
unfolding field_attribute for_each into_disposition
parse_field_disposition attrs name = do
  slot ← for_each (field_attribute name) none attrs
  ok (disposition_of slot)
