-- ===== src/Examples/Attributes.antt =====
-- The theorems on attributes and on decimals, at concrete inputs.
use df_derive.Prelude.{ℕ, ◌≡◌, ◌≢◌, ◌≤◌, ◌<◌, ◌^◌, ◌-◌, refl, true, some, List, [], ◌∷◌}
use df_derive.Errors.{ok, FieldOverrideKey}
use df_derive.Attrs.{
  MetaValue, Attribute, nested, no_value, int, FieldConversion, LeafOverride, FieldDisposition,
  include, parse_decimal_attr, parse_field_disposition, conflict_message, incompatible,
}
use df_derive.Attributes.Decimals.{parse_decimal_attr-bounds}
use df_derive.Attributes.Disposition.{
  items_of, Disposed, parse_field_disposition-Disposed, conflict_message-ne-incompatible,
  conflict_message_comm,
}
use df_derive.Decimal128.{
  pos, negsuc, unsigned_abs, is_negative, with_sign, in_i128, try_to_i128_mantissa,
}
use df_derive.Decimal128.Rounding.{
  NearestEven, try_to_i128_mantissa-NearestEven, try_to_i128_mantissa-roundtrip,
}
use df_derive.Decimal128.Bounds.{try_to_i128_mantissa-in_i128}
use native.Mathlib.Omega.{arith}

abbrev decimal_value : MetaValue
decimal_value =
    nested
      (record { key = "scale"; value = int 4 } ∷ record { key = "precision"; value = int 18 } ∷ [])

decimal_value-ok : parse_decimal_attr decimal_value ≡ ok (18, 4)
unfolding parse_decimal_attr
decimal_value-ok = refl

parse_decimal_attr-bounds_example : (1 ≤ 18) × (18 ≤ 38) × (4 ≤ 18)
parse_decimal_attr-bounds_example = parse_decimal_attr-bounds decimal_value 18 4 decimal_value-ok

abbrev two_attributes : List Attribute
two_attributes =
    record { name = "serde"; metas = record { key = "rename"; value = no_value } ∷ [] }
    ∷ record { name = "df_derive"; metas = record { key = "as_str"; value = no_value } ∷ [] }
    ∷ []

abbrev as_str_disposition : FieldDisposition
as_str_disposition = include (FieldConversion.leaf_override LeafOverride.as_str)

two_attributes-ok : parse_field_disposition two_attributes "id" ≡ ok as_str_disposition
unfolding parse_field_disposition
two_attributes-ok = refl

parse_field_disposition-Disposed_example : Disposed (items_of two_attributes) as_str_disposition
parse_field_disposition-Disposed_example =
    parse_field_disposition-Disposed two_attributes "id" as_str_disposition two_attributes-ok

conflict_message-ne-incompatible_example :
    conflict_message FieldOverrideKey.decimal FieldOverrideKey.time_unit ≢ incompatible
conflict_message-ne-incompatible_example =
    conflict_message-ne-incompatible FieldOverrideKey.decimal FieldOverrideKey.time_unit refl

conflict_message_comm_example :
    conflict_message FieldOverrideKey.as_str FieldOverrideKey.decimal
    ≡ conflict_message FieldOverrideKey.decimal FieldOverrideKey.as_str
conflict_message_comm_example =
    conflict_message_comm FieldOverrideKey.as_str FieldOverrideKey.decimal

-- -1.25 at scale 1: -1.2
try_to_i128_mantissa-NearestEven_example :
    (10 ^ (2 - 1) < 2 ^ 127)
    × ((k : ℕ) × (try_to_i128_mantissa 2 (negsuc 124) 1
          ≡ some (with_sign (is_negative (negsuc 124)) k))
        × NearestEven (unsigned_abs (negsuc 124)) (10 ^ (2 - 1)) k)
try_to_i128_mantissa-NearestEven_example =
    try_to_i128_mantissa-NearestEven 2 (negsuc 124) 1 (omega arith) (omega arith)

two_up : try_to_i128_mantissa 0 (pos 2) 3 ≡ some (pos 2000)
unfolding try_to_i128_mantissa
two_up = refl

try_to_i128_mantissa-roundtrip_example : try_to_i128_mantissa 3 (pos 2000) 0 ≡ some (pos 2)
try_to_i128_mantissa-roundtrip_example =
    try_to_i128_mantissa-roundtrip 0 (pos 2) 3 (pos 2000) (omega arith) two_up

two-in_i128 : in_i128 (pos 2) ≡ true
unfolding in_i128
two-in_i128 = refl

try_to_i128_mantissa-in_i128_example : in_i128 (pos 2000) ≡ true
try_to_i128_mantissa-in_i128_example =
    try_to_i128_mantissa-in_i128 0 (pos 2) 3 (pos 2000) two-in_i128 two_up
