-- ===== src/Attrs/Conflicts.antt =====
-- df-derive-macros/src/attrs/field_conflicts.rs: at most one conversion attribute for a field.
use df_derive.Prelude.{ℕ, Bool, not, ◌||◌, Option, none, some, String, eqb, if◌then◌else◌}
use df_derive.Ir.{DateTimeUnit, milliseconds, microseconds, nanoseconds}
use df_derive.Errors.{
  Error, Result, ok, err, FieldOverrideKey, duplicate_override, duplicate_decimal,
  duplicate_time_unit, override_conflict,
}

pub data LeafOverride : Type 0 where
  as_str as_string : LeafOverride
  decimal : ℕ → ℕ → LeafOverride
  time_unit : DateTimeUnit → LeafOverride

-- `FlattenConfig`, by its one field, the prefix
abbrev pub FlattenConfig : Type 0
FlattenConfig = Option String

pub data FieldAttr : Type 0 where
  skip binary : FieldAttr
  leaf : LeafOverride → FieldAttr
  flatten : FlattenConfig → FieldAttr

pub data FieldConversion : Type 0 where
  default : FieldConversion
  leaf_override : LeafOverride → FieldConversion
  binary : FieldConversion
  flatten : FlattenConfig → FieldConversion

pub data FieldDisposition : Type 0 where
  skip : FieldDisposition
  include : FieldConversion → FieldDisposition

unfoldable pub key : FieldAttr → FieldOverrideKey
key FieldAttr.skip = FieldOverrideKey.skip
key FieldAttr.binary = FieldOverrideKey.as_binary
key (leaf as_str) = FieldOverrideKey.as_str
key (leaf as_string) = FieldOverrideKey.as_string
key (leaf (decimal _ _)) = FieldOverrideKey.decimal
key (leaf (time_unit _)) = FieldOverrideKey.time_unit
key (FieldAttr.flatten _) = FieldOverrideKey.flatten

-- `==` on the keys, by their position in the enumeration
abbrev key_index : FieldOverrideKey → ℕ
key_index FieldOverrideKey.skip = 0
key_index FieldOverrideKey.as_binary = 1
key_index FieldOverrideKey.as_str = 2
key_index FieldOverrideKey.as_string = 3
key_index FieldOverrideKey.decimal = 4
key_index FieldOverrideKey.time_unit = 5
key_index FieldOverrideKey.flatten = 6

abbrev pub same_key : FieldOverrideKey → FieldOverrideKey → Bool
same_key a b = eqb (key_index a) (key_index b)

abbrev unit_index : DateTimeUnit → ℕ
unit_index milliseconds = 0
unit_index microseconds = 1
unit_index nanoseconds = 2

abbrev same_unit : DateTimeUnit → DateTimeUnit → Bool
same_unit a b = eqb (unit_index a) (unit_index b)

unfoldable pub into_disposition : FieldAttr → FieldDisposition
into_disposition FieldAttr.skip = FieldDisposition.skip
into_disposition FieldAttr.binary = include FieldConversion.binary
into_disposition (leaf o) = include (leaf_override o)
into_disposition (FieldAttr.flatten config) = include (FieldConversion.flatten config)

unfoldable pub duplicate_override_conflict : String → FieldAttr → FieldAttr → Error
unfolding key
duplicate_override_conflict name (leaf (decimal p s)) (leaf (decimal p' s')) =
    if not (eqb p p') || not (eqb s s')
    then duplicate_decimal name p s p' s'
    else duplicate_override name FieldOverrideKey.decimal
duplicate_override_conflict name (leaf (time_unit u)) (leaf (time_unit u')) =
    if not (same_unit u u')
    then duplicate_time_unit name u u'
    else duplicate_override name FieldOverrideKey.time_unit
duplicate_override_conflict name existing incoming = duplicate_override name (key incoming)

-- The text of a conflict, by its kind.
pub data ConflictMessage : Type 0 where
  both_string_forms decimal_with_string time_unit_with_string decimal_with_time_unit :
      ConflictMessage
  skip_with_other flatten_with_other binary_with_other incompatible : ConflictMessage

unfoldable pub conflict_message : FieldOverrideKey → FieldOverrideKey → ConflictMessage
conflict_message FieldOverrideKey.as_str FieldOverrideKey.as_string = both_string_forms
conflict_message FieldOverrideKey.as_string FieldOverrideKey.as_str = both_string_forms
conflict_message FieldOverrideKey.decimal FieldOverrideKey.as_str = decimal_with_string
conflict_message FieldOverrideKey.decimal FieldOverrideKey.as_string = decimal_with_string
conflict_message FieldOverrideKey.as_str FieldOverrideKey.decimal = decimal_with_string
conflict_message FieldOverrideKey.as_string FieldOverrideKey.decimal = decimal_with_string
conflict_message FieldOverrideKey.time_unit FieldOverrideKey.as_str = time_unit_with_string
conflict_message FieldOverrideKey.time_unit FieldOverrideKey.as_string = time_unit_with_string
conflict_message FieldOverrideKey.as_str FieldOverrideKey.time_unit = time_unit_with_string
conflict_message FieldOverrideKey.as_string FieldOverrideKey.time_unit = time_unit_with_string
conflict_message FieldOverrideKey.decimal FieldOverrideKey.time_unit = decimal_with_time_unit
conflict_message FieldOverrideKey.time_unit FieldOverrideKey.decimal = decimal_with_time_unit
conflict_message FieldOverrideKey.skip _ = skip_with_other
conflict_message _ FieldOverrideKey.skip = skip_with_other
conflict_message FieldOverrideKey.flatten _ = flatten_with_other
conflict_message _ FieldOverrideKey.flatten = flatten_with_other
conflict_message FieldOverrideKey.as_binary _ = binary_with_other
conflict_message _ FieldOverrideKey.as_binary = binary_with_other
conflict_message _ _ = incompatible

-- the slot after the call, or the error
unfoldable pub set_override : String → Option FieldAttr → FieldAttr → Result (Option FieldAttr)
unfolding key duplicate_override_conflict
set_override name none incoming = ok (some incoming)
set_override name (some existing) incoming =
    if same_key (key existing) (key incoming)
    then err (duplicate_override_conflict name existing incoming)
    else err (override_conflict name (key existing) (key incoming))
