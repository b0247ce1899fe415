-- ===== src/Stored.antt =====
-- df-derive-macros/src/codegen/type_registry: scalar_transform.rs and numeric.rs, the value that the
-- generated code stores for a leaf. The chrono crate, `std::time::Duration` and the decimal backend are
-- parameters; their values are integers here, before the bounds of their types.
pub mod Ranges
pub mod Plan
use df_derive.Prelude.{
  ℕ, zero, suc, ◌+◌, ◌-◌, ◌*◌, ◌^◌, ◌%◌, Bool, true, false, Option, none, some, ltb, leb,
  if◌then◌else◌,
}
use df_derive.Ir.{
  DateTimeUnit, milliseconds, microseconds, nanoseconds, DurationSource, std, chrono, NumericKind,
  StorageNumericKind, storage_kind, is_widened,
}
use df_derive.Decimal128.{ℤ, pos, negsuc, unsigned_abs}
use df_derive.Encoder.{Checked, fits, refused, ComputeError, ◌>>=◌}

pub data ScalarTransform : Type 0 where
  date_time naive_date_time : DateTimeUnit → ScalarTransform
  naive_date naive_time : ScalarTransform
  duration : DateTimeUnit → DurationSource → ScalarTransform
  decimal : ℕ → ℕ → ScalarTransform

-- The methods of other crates that the generated code calls.
pub record Values : Type 1 where
  pub DateTime : Type 0
  pub NaiveDateTime : Type 0
  pub NaiveDate : Type 0
  pub NaiveTime : Type 0
  pub StdDuration : Type 0
  pub ChronoDuration : Type 0
  pub Decimal : Type 0
  pub timestamp_millis : DateTime → ℤ
  pub timestamp_micros : DateTime → ℤ
  pub timestamp_nanos_opt : DateTime → Option ℤ
  pub and_utc : NaiveDateTime → DateTime
  pub num_days_from_ce : NaiveDate → ℤ
  pub num_seconds_from_midnight : NaiveTime → ℕ
  pub nanosecond : NaiveTime → ℕ
  pub as_millis : StdDuration → ℕ
  pub as_micros : StdDuration → ℕ
  pub as_nanos : StdDuration → ℕ
  pub num_milliseconds : ChronoDuration → ℤ
  pub num_microseconds : ChronoDuration → Option ℤ
  pub num_nanoseconds : ChronoDuration → Option ℤ
  pub try_to_i128_mantissa : Decimal → ℕ → Option ℤ

-- `z - n`
unfoldable pub sub_ℕ : ℤ → ℕ → ℤ
sub_ℕ (pos a) n = if leb n a then pos (a - n) else negsuc (n - a - 1)
sub_ℕ (negsuc a) n = negsuc (a + n)

-- `ok_or_else(…)?`
abbrev pub ok_or : Option ℤ → ComputeError → Checked ℤ
ok_or none e = refused e
ok_or (some z) e = fits z

-- `i64::try_from` of a `u128`
unfoldable pub try_i64 : ℕ → ComputeError → Checked ℤ
try_i64 n e = if ltb n (2 ^ 63) then fits (pos n) else refused e

module _ (v : Values) where
  open v use {
    DateTime, NaiveDateTime, NaiveDate, NaiveTime, StdDuration, ChronoDuration, Decimal,
    timestamp_millis, timestamp_micros, timestamp_nanos_opt, and_utc, num_days_from_ce,
    num_seconds_from_midnight, nanosecond, as_millis, as_micros, as_nanos, num_milliseconds,
    num_microseconds, num_nanoseconds, try_to_i128_mantissa,
  }

  abbrev pub Input : ScalarTransform → Type 0
  Input (date_time unit) = DateTime
  Input (naive_date_time unit) = NaiveDateTime
  Input naive_date = NaiveDate
  Input naive_time = NaiveTime
  Input (duration unit std) = StdDuration
  Input (duration unit chrono) = ChronoDuration
  Input (decimal precision scale) = Decimal

  abbrev check_precision : ℕ → ℕ → Option ℤ → Checked ℤ
  check_precision precision scale none = refused (ComputeError.decimal_rescale scale)
  check_precision precision scale (some m) =
      if leb (10 ^ precision) (unsigned_abs m)
      then refused (ComputeError.decimal_precision m precision scale)
      else fits m

  unfoldable pub map_primitive_expr : (t : ScalarTransform) → Input t → Checked ℤ
  unfolding sub_ℕ try_i64
  map_primitive_expr (date_time milliseconds) x = fits (timestamp_millis x)
  map_primitive_expr (date_time microseconds) x = fits (timestamp_micros x)
  map_primitive_expr (date_time nanoseconds) x =
      ok_or (timestamp_nanos_opt x) ComputeError.date_time_nanos
  map_primitive_expr (naive_date_time milliseconds) x = fits (timestamp_millis (and_utc x))
  map_primitive_expr (naive_date_time microseconds) x = fits (timestamp_micros (and_utc x))
  map_primitive_expr (naive_date_time nanoseconds) x =
      ok_or (timestamp_nanos_opt (and_utc x)) ComputeError.naive_date_time_nanos
  map_primitive_expr naive_date x = fits (sub_ℕ (num_days_from_ce x) 719163)
  map_primitive_expr naive_time x =
      fits (pos (num_seconds_from_midnight x * 1000000000 + nanosecond x))
  map_primitive_expr (duration nanoseconds std) x =
      try_i64 (as_nanos x) (ComputeError.std_duration nanoseconds)
  map_primitive_expr (duration microseconds std) x =
      try_i64 (as_micros x) (ComputeError.std_duration microseconds)
  map_primitive_expr (duration milliseconds std) x =
      try_i64 (as_millis x) (ComputeError.std_duration milliseconds)
  map_primitive_expr (duration nanoseconds chrono) x =
      ok_or (num_nanoseconds x) (ComputeError.chrono_duration nanoseconds)
  map_primitive_expr (duration microseconds chrono) x =
      ok_or (num_microseconds x) (ComputeError.chrono_duration microseconds)
  map_primitive_expr (duration milliseconds chrono) x = fits (num_milliseconds x)
  map_primitive_expr (decimal precision scale) x =
      check_precision precision scale (try_to_i128_mantissa x scale)

-- the integer types, by signedness and width
pub data IntType : Type 0 where
  signed unsigned : ℕ → IntType

unfoldable pub in_type : IntType → ℤ → Bool
in_type (signed w) (pos n) = ltb n (2 ^ (w - 1))
in_type (signed w) (negsuc n) = ltb n (2 ^ (w - 1))
in_type (unsigned w) (pos n) = ltb n (2 ^ w)
in_type (unsigned w) (negsuc n) = false

abbrev pub residue : ℕ → ℤ → ℕ
residue w (pos n) = n % 2 ^ w
residue w (negsuc n) = 2 ^ w - 1 - n % 2 ^ w

-- `as` between integer types
unfoldable pub cast_as : IntType → ℤ → ℤ
cast_as (signed w) z =
    if ltb (residue w z) (2 ^ (w - 1)) then pos (residue w z) else negsuc (2 ^ w - 1 - residue w z)
cast_as (unsigned w) z = pos (residue w z)

-- the integer type of a numeric leaf, none for a float; `pointer` is the width of `usize`
unfoldable pub source_type : ℕ → StorageNumericKind → Option IntType
source_type pointer StorageNumericKind.i8 = some (signed 8)
source_type pointer StorageNumericKind.i16 = some (signed 16)
source_type pointer StorageNumericKind.i32 = some (signed 32)
source_type pointer StorageNumericKind.i64 = some (signed 64)
source_type pointer StorageNumericKind.i128 = some (signed 128)
source_type pointer StorageNumericKind.u8 = some (unsigned 8)
source_type pointer StorageNumericKind.u16 = some (unsigned 16)
source_type pointer StorageNumericKind.u32 = some (unsigned 32)
source_type pointer StorageNumericKind.u64 = some (unsigned 64)
source_type pointer StorageNumericKind.u128 = some (unsigned 128)
source_type pointer StorageNumericKind.f32 = none
source_type pointer StorageNumericKind.f64 = none
source_type pointer StorageNumericKind.isize = some (signed pointer)
source_type pointer StorageNumericKind.usize = some (unsigned pointer)

-- `numeric_info_for`, its `native`
unfoldable pub native_type : StorageNumericKind → Option IntType
unfolding source_type
native_type StorageNumericKind.isize = some (signed 64)
native_type StorageNumericKind.usize = some (unsigned 64)
native_type kind = source_type 0 kind

abbrev pub cast_if_int : Option IntType → ℤ → ℤ
cast_if_int none z = z
cast_if_int (some t) z = cast_as t z

-- `get` of a `NonZero` gives its integer, so only the cast is left
unfoldable pub numeric_stored_value : NumericKind → ℤ → ℤ
unfolding native_type is_widened storage_kind cast_as
numeric_stored_value kind z =
    if is_widened kind then cast_if_int (native_type (storage_kind kind)) z else z
