-- ===== src/Stored/Ranges.antt =====
-- The stored values of df-derive-macros/src/codegen/type_registry against the integer types that hold
-- them.
use native.Mathlib.Nat.{pow-le-pow_right}
use df_derive.Prelude.{
  subst, ℕ, ◌+◌, ◌-◌, ◌*◌, ◌^◌, ◌≤◌, ◌<◌, true, ◌≡◌, ◌↔◌, refl, sym, ap, ◌∙◌, Option, none, some,
  ltb, leb, arith, if◌then◌else◌, Bool-cases, inl, inr,
}
use df_derive.Ir.{
  milliseconds, microseconds, nanoseconds, std, chrono, NumericKind, StorageNumericKind,
  storage_kind, is_widened_storage,
}
use df_derive.Decimal128.{ℤ, pos, negsuc, unsigned_abs}
use df_derive.Encoder.{fits, refused, ComputeError}
use df_derive.Stored.{
  ScalarTransform, date_time, naive_date_time, naive_date, naive_time, duration, decimal, Values,
  sub_ℕ, ok_or, try_i64, Input, map_primitive_expr, IntType, signed, unsigned, in_type, cast_as,
  source_type, native_type, numeric_stored_value, cast_if_int,
}

-- What the documents of the crates say of the values: their integer types, the days of a date (the years
-- from -262143 to 262142), and a time of day with its leap second.
pub record Documented (v : Values) : Type 0 where
  pub millis : (x : v.DateTime) → in_type (signed 64) (v.timestamp_millis x) ≡ true
  pub micros : (x : v.DateTime) → in_type (signed 64) (v.timestamp_micros x) ≡ true
  pub nanos :
      (x : v.DateTime) (z : ℤ) → v.timestamp_nanos_opt x ≡ some z → in_type (signed 64) z ≡ true
  pub days : (x : v.NaiveDate) → unsigned_abs (v.num_days_from_ce x) ≤ 96000000
  pub seconds : (x : v.NaiveTime) → v.num_seconds_from_midnight x < 86400
  pub fraction : (x : v.NaiveTime) → v.nanosecond x < 2000000000
  pub duration_millis : (x : v.ChronoDuration) → in_type (signed 64) (v.num_milliseconds x) ≡ true
  pub duration_micros :
      (x : v.ChronoDuration) (z : ℤ) → v.num_microseconds x ≡ some z → in_type (signed 64) z ≡ true
  pub duration_nanos :
      (x : v.ChronoDuration) (z : ℤ) → v.num_nanoseconds x ≡ some z → in_type (signed 64) z ≡ true
  pub mantissas :
      (x : v.Decimal) (scale : ℕ) (z : ℤ)
      → v.try_to_i128_mantissa x scale ≡ some z
      → in_type (signed 128) z ≡ true

-- the type of the buffer: `i32` for dates, `i128` for decimals, else `i64`
unfoldable pub buffer_type : ScalarTransform → IntType
buffer_type naive_date = signed 32
buffer_type (decimal precision scale) = signed 128
buffer_type _ = signed 64

of_fits : (w : IntType) (a n : ℤ) → in_type w a ≡ true → fits a ≡ fits n → in_type w n ≡ true
of_fits w a n h e = cc

of_ok_or :
    (w : IntType) (o : Option ℤ) (e : ComputeError) (n : ℤ)
    → ((z : ℤ) → o ≡ some z → in_type w z ≡ true)
    → ok_or o e ≡ fits n
    → in_type w n ≡ true
of_ok_or w none e n h k = cc
of_ok_or w (some z) e n h k = of_fits w z n (h z refl) k

of_try_i64 :
    (m : ℕ) (e : ComputeError) (n : ℤ) → try_i64 m e ≡ fits n → in_type (signed 64) n ≡ true
unfolding try_i64 in_type
of_try_i64 m e n h = elim (Bool-cases (ltb m (2 ^ 63))) [
  | inl fine ↦ of_fits (signed 64) (pos m) n fine (rw fine at h)
  | inr large ↦ cc (rw large at h)
]

of_days : (d : ℤ) → unsigned_abs d ≤ 96000000 → in_type (signed 32) (sub_ℕ d 719163) ≡ true
unfolding in_type sub_ℕ unsigned_abs
of_days (pos n) h = ground arith
of_days (negsuc n) h = ground arith

of_time :
    (s f : ℕ) → s < 86400 → f < 2000000000 → in_type (signed 64) (pos (s * 1000000000 + f)) ≡ true
unfolding in_type
of_time s f h k = ground arith

of_precision :
    (p s : ℕ) (o : Option ℤ) (n : ℤ)
    → elim o [
      | none ↦ refused (ComputeError.decimal_rescale s)
      | some m ↦
          if leb (10 ^ p) (unsigned_abs m)
          then refused (ComputeError.decimal_precision m p s)
          else fits m
    ]
      ≡ fits n
    → (o ≡ some n) × (unsigned_abs n < 10 ^ p)
of_precision p s none n h = cc
of_precision p s (some m) n h = elim (Bool-cases (leb (10 ^ p) (unsigned_abs m))) [
  | inl large ↦ cc (rw large at h)
  | inr fine ↦
      let same : m ≡ n = cc (rw fine at h) in
      (ap some same, subst (λ k. unsigned_abs k < 10 ^ p) same (ground (arith, fine)))
]

module _ (v : Values) where
  -- A decimal is stored exactly where the backend rescales it and its mantissa has no more digits than
  -- the precision; it is then the backend's mantissa.
  pub map_primitive_expr-decimal :
      (p s : ℕ) (x : v.Decimal) (n : ℤ)
      → (map_primitive_expr v (decimal p s) x ≡ fits n)
        ↔ ((v.try_to_i128_mantissa x s ≡ some n) × (unsigned_abs n < 10 ^ p))
  unfolding map_primitive_expr
  map_primitive_expr-decimal p s x n =
      (λ h. of_precision p s (v.try_to_i128_mantissa x s) n h, λ h. rw h.0 (ground (arith, h.1)))

  -- Every temporal or decimal value that is stored fits the integer type of its buffer, whatever the
  -- transform: days need no more than an `i32`, a time of day with its leap second no more than an
  -- `i64`, and a duration that is longer is refused. The other crates keep to their documents.
  pub map_primitive_expr-in_type :
      (t : ScalarTransform) (x : Input v t) (n : ℤ)
      → Documented v
      → map_primitive_expr v t x ≡ fits n
      → in_type (buffer_type t) n ≡ true
  unfolding map_primitive_expr buffer_type
  map_primitive_expr-in_type (date_time milliseconds) x n d h =
      of_fits (signed 64) (v.timestamp_millis x) n (d.millis x) h
  map_primitive_expr-in_type (date_time microseconds) x n d h =
      of_fits (signed 64) (v.timestamp_micros x) n (d.micros x) h
  map_primitive_expr-in_type (date_time nanoseconds) x n d h =
      of_ok_or (signed 64) (v.timestamp_nanos_opt x) _ n (d.nanos x) h
  map_primitive_expr-in_type (naive_date_time milliseconds) x n d h =
      of_fits (signed 64) (v.timestamp_millis (v.and_utc x)) n (d.millis (v.and_utc x)) h
  map_primitive_expr-in_type (naive_date_time microseconds) x n d h =
      of_fits (signed 64) (v.timestamp_micros (v.and_utc x)) n (d.micros (v.and_utc x)) h
  map_primitive_expr-in_type (naive_date_time nanoseconds) x n d h =
      of_ok_or (signed 64) (v.timestamp_nanos_opt (v.and_utc x)) _ n (d.nanos (v.and_utc x)) h
  map_primitive_expr-in_type naive_date x n d h =
      of_fits (signed 32) (sub_ℕ (v.num_days_from_ce x) 719163) n
        (of_days (v.num_days_from_ce x) (d.days x)) h
  map_primitive_expr-in_type naive_time x n d h =
      of_fits (signed 64) (pos (v.num_seconds_from_midnight x * 1000000000 + v.nanosecond x)) n
        (of_time (v.num_seconds_from_midnight x) (v.nanosecond x) (d.seconds x) (d.fraction x)) h
  map_primitive_expr-in_type (duration milliseconds std) x n d h = of_try_i64 (v.as_millis x) _ n h
  map_primitive_expr-in_type (duration microseconds std) x n d h = of_try_i64 (v.as_micros x) _ n h
  map_primitive_expr-in_type (duration nanoseconds std) x n d h = of_try_i64 (v.as_nanos x) _ n h
  map_primitive_expr-in_type (duration milliseconds chrono) x n d h =
      of_fits (signed 64) (v.num_milliseconds x) n (d.duration_millis x) h
  map_primitive_expr-in_type (duration microseconds chrono) x n d h =
      of_ok_or (signed 64) (v.num_microseconds x) _ n (d.duration_micros x) h
  map_primitive_expr-in_type (duration nanoseconds chrono) x n d h =
      of_ok_or (signed 64) (v.num_nanoseconds x) _ n (d.duration_nanos x) h
  map_primitive_expr-in_type (decimal p s) x n d h =
      d.mantissas x s n (of_precision p s (v.try_to_i128_mantissa x s) n h).0

cast_64-same : (z : ℤ) → in_type (signed 64) z ≡ true → cast_as (signed 64) z ≡ z
unfolding cast_as in_type
cast_64-same (pos n) h = ground (arith, h)
cast_64-same (negsuc n) h = ground (arith, h)

cast_u64-same : (z : ℤ) → in_type (unsigned 64) z ≡ true → cast_as (unsigned 64) z ≡ z
unfolding cast_as in_type
cast_u64-same (pos n) h = ground (arith, h)
cast_u64-same (negsuc n) h = cc

pow_mono : (i j : ℕ) → i ≤ j → 2 ^ i ≤ 2 ^ j
pow_mono i j h = pow-le-pow_right (omega arith) h

ltb-wider : (n p q : ℕ) → p ≤ q → ltb n p ≡ true → ltb n q ≡ true
ltb-wider n p q h e = ground (arith, e)

signed-wider : (w : ℕ) (z : ℤ) → w ≤ 64 → in_type (signed w) z ≡ true → in_type (signed 64) z ≡ true
unfolding in_type
signed-wider w (pos n) l h =
    ltb-wider n (2 ^ (w - 1)) (2 ^ 63) (pow_mono (w - 1) 63 (omega arith)) h
signed-wider w (negsuc n) l h =
    ltb-wider n (2 ^ (w - 1)) (2 ^ 63) (pow_mono (w - 1) 63 (omega arith)) h

unsigned-wider :
    (w : ℕ) (z : ℤ) → w ≤ 64 → in_type (unsigned w) z ≡ true → in_type (unsigned 64) z ≡ true
unfolding in_type
unsigned-wider w (pos n) l h = ltb-wider n (2 ^ w) (2 ^ 64) (pow_mono w 64 l) h
unsigned-wider w (negsuc n) l h = cc

some-type : (t u : IntType) → some t ≡ some u → t ≡ u
some-type t u h = cc

kept :
    (z : ℤ) (t : IntType) (o o' : Option IntType)
    → o ≡ some t
    → o' ≡ o
    → in_type t z ≡ true
    → (u : IntType) → o' ≡ some u
    → in_type u z ≡ true
kept z t o o' e same h u k =
    subst (λ w. in_type w z ≡ true) (some-type t u (sym e ∙ sym same ∙ k)) h

stored-same :
    (pointer : ℕ) (k : StorageNumericKind) (t : IntType) (z : ℤ)
    → pointer ≤ 64
    → source_type pointer k ≡ some t
    → in_type t z ≡ true
    → ((if is_widened_storage k then cast_if_int (native_type k) z else z) ≡ z)
      × ((u : IntType) → native_type k ≡ some u → in_type u z ≡ true)
unfolding native_type source_type
stored-same pointer StorageNumericKind.isize t z l e h =
    let wide =
      signed-wider pointer z l
        (subst (λ w. in_type w z ≡ true) (some-type t (signed pointer) (sym e)) h) in
    (cast_64-same z wide, λ u k. subst (λ w. in_type w z ≡ true) (some-type (signed 64) u k) wide)
stored-same pointer StorageNumericKind.usize t z l e h =
    let wide =
      unsigned-wider pointer z l
        (subst (λ w. in_type w z ≡ true) (some-type t (unsigned pointer) (sym e)) h) in
    (
      cast_u64-same z wide,
      λ u k. subst (λ w. in_type w z ≡ true) (some-type (unsigned 64) u k) wide,
    )
stored-same pointer other t z l e h =
    (refl, kept z t (source_type pointer other) (native_type other) e refl h)

-- An integer of any numeric leaf is stored unchanged and fits the native type of its column, also where
-- a pointer-sized integer is cast to 64 bits, for pointers of at most 64 bits.
pub numeric_stored_value-same :
    (pointer : ℕ) (kind : NumericKind) (t u : IntType) (z : ℤ)
    → pointer ≤ 64
    → source_type pointer (storage_kind kind) ≡ some t
    → native_type (storage_kind kind) ≡ some u
    → in_type t z ≡ true
    → (numeric_stored_value kind z ≡ z) × (in_type u z ≡ true)
unfolding numeric_stored_value
numeric_stored_value-same pointer kind t u z l e k h =
    let same = stored-same pointer (storage_kind kind) t z l e h in (same.0, same.1 u k)
