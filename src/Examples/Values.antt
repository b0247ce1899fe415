-- ===== src/Examples/Values.antt =====
-- The theorems on stored values, at concrete inputs.
use df_derive.Prelude.{
  ℕ, ◌*◌, ◌^◌, ◌<◌, ◌≤◌, Bool, true, false, ◌≡◌, ◌↔◌, refl, none, some, if◌then◌else◌,
}
use df_derive.Ir.{NumericKind, nanoseconds, std, storage_kind}
use df_derive.Decimal128.{ℤ, pos, negsuc, unsigned_abs}
use df_derive.Encoder.{fits}
use df_derive.Stored.{
  Values, ScalarTransform, map_primitive_expr, IntType, signed, in_type, native_type, source_type,
  numeric_stored_value,
}
use df_derive.Stored.Ranges.{
  Documented, buffer_type, map_primitive_expr-decimal, map_primitive_expr-in_type,
  numeric_stored_value-same,
}
use native.Mathlib.Omega.{arith}

-- two values of each type, and durations in seconds
abbrev some_values : Values
some_values = record {
  DateTime = Bool;
  NaiveDateTime = Bool;
  NaiveDate = Bool;
  NaiveTime = Bool;
  StdDuration = ℕ;
  ChronoDuration = Bool;
  Decimal = Bool;
  timestamp_millis = λ x. if x then pos 1700000000000 else negsuc 0;
  timestamp_micros = λ x. if x then pos 1700000000000000 else negsuc 0;
  timestamp_nanos_opt = λ x. if x then some (pos 1700000000000000000) else none;
  and_utc = λ x. x;
  num_days_from_ce = λ x. if x then pos 738000 else negsuc 0;
  num_seconds_from_midnight = λ x. if x then 86399 else 0;
  nanosecond = λ x. if x then 1999999999 else 0;
  as_millis = λ x. x * 1000;
  as_micros = λ x. x * 1000000;
  as_nanos = λ x. x * 1000000000;
  num_milliseconds = λ x. if x then pos 5000 else negsuc 0;
  num_microseconds = λ x. if x then some (pos 5000000) else none;
  num_nanoseconds = λ x. if x then some (pos 5000000000) else none;
  try_to_i128_mantissa = λ x scale. if x then some (pos 12345) else none;
}

some-in_type : (t : IntType) (a z : ℤ) → in_type t a ≡ true → some a ≡ some z → in_type t z ≡ true
some-in_type t a z h e = cc

each_value : (P : Bool → Type 0) → P true → P false → (x : Bool) → P x
each_value P h k true = h
each_value P h k false = k

none-some : {A : Type 0} (z : ℤ) → none ≡ some z → A
none-some z h = cc

some_values-Documented : Documented some_values
unfolding in_type unsigned_abs
some_values-Documented = record {
  millis = each_value (λ x. in_type (signed 64) (some_values.timestamp_millis x) ≡ true) refl refl;
  micros = each_value (λ x. in_type (signed 64) (some_values.timestamp_micros x) ≡ true) refl refl;
  nanos =
      each_value
        (λ x. (z : ℤ) → some_values.timestamp_nanos_opt x ≡ some z → in_type (signed 64) z ≡ true)
        (λ z h. some-in_type (signed 64) (pos 1700000000000000000) z refl h) (λ z h. none-some z h);
  days =
      each_value (λ x. unsigned_abs (some_values.num_days_from_ce x) ≤ 96000000) (omega arith)
        (omega arith);
  seconds =
      each_value (λ x. some_values.num_seconds_from_midnight x < 86400) (omega arith) (omega arith);
  fraction = each_value (λ x. some_values.nanosecond x < 2000000000) (omega arith) (omega arith);
  duration_millis =
      each_value (λ x. in_type (signed 64) (some_values.num_milliseconds x) ≡ true) refl refl;
  duration_micros =
      each_value
        (λ x. (z : ℤ) → some_values.num_microseconds x ≡ some z → in_type (signed 64) z ≡ true)
        (λ z h. some-in_type (signed 64) (pos 5000000) z refl h) (λ z h. none-some z h);
  duration_nanos =
      each_value
        (λ x. (z : ℤ) → some_values.num_nanoseconds x ≡ some z → in_type (signed 64) z ≡ true)
        (λ z h. some-in_type (signed 64) (pos 5000000000) z refl h) (λ z h. none-some z h);
  mantissas = λ x scale.
      each_value
        (λ d.
          (z : ℤ)
          → some_values.try_to_i128_mantissa d scale ≡ some z
          → in_type (signed 128) z ≡ true)
        (λ z h. some-in_type (signed 128) (pos 12345) z refl h) (λ z h. none-some z h) x;
}

map_primitive_expr-decimal_example :
    (map_primitive_expr some_values (ScalarTransform.decimal 5 2) true ≡ fits (pos 12345)) ↔ (
      (some_values.try_to_i128_mantissa true 2 ≡ some (pos 12345))
      × (unsigned_abs (pos 12345) < 10 ^ 5))
map_primitive_expr-decimal_example = map_primitive_expr-decimal some_values 5 2 true (pos 12345)

five_seconds-ok :
    map_primitive_expr some_values (ScalarTransform.duration nanoseconds std) 5
    ≡ fits (pos 5000000000)
unfolding map_primitive_expr
five_seconds-ok = refl

map_primitive_expr-in_type_example :
    in_type (buffer_type (ScalarTransform.duration nanoseconds std)) (pos 5000000000) ≡ true
map_primitive_expr-in_type_example =
    map_primitive_expr-in_type some_values (ScalarTransform.duration nanoseconds std) 5
      (pos 5000000000) some_values-Documented five_seconds-ok

isize-ok : source_type 32 (storage_kind NumericKind.isize) ≡ some (signed 32)
unfolding source_type storage_kind
isize-ok = refl

minus_seven-ok : in_type (signed 32) (negsuc 6) ≡ true
unfolding in_type
minus_seven-ok = refl

isize_column-ok : native_type (storage_kind NumericKind.isize) ≡ some (signed 64)
unfolding native_type storage_kind
isize_column-ok = refl

numeric_stored_value-same_example :
    (numeric_stored_value NumericKind.isize (negsuc 6) ≡ negsuc 6)
    × (in_type (signed 64) (negsuc 6) ≡ true)
numeric_stored_value-same_example =
    numeric_stored_value-same 32 NumericKind.isize (signed 32) (signed 64) (negsuc 6) (omega arith)
      isize-ok isize_column-ok minus_seven-ok
