-- ===== src/Stored/Plan.antt =====
-- df-derive-macros/src/codegen/encoder: `vec_leaf_plan` of vec.rs and `build_leaf` of vec.rs with leaf.rs,
-- the buffer that each leaf gets under a `Vec` and as a field of its own, with the transform of its
-- values, and df-derive-macros/src/codegen/type_registry: the data types of transforms and numbers.
pub mod Physical
use df_derive.Prelude.{ℕ, Option, none, some}
use df_derive.Ir.{DateTimeUnit, NumericKind, StorageNumericKind, storage_kind, PrimitiveLeaf}
use df_derive.Schema.Types.{DataType, LogicalPrimitive, logical_dtype, storage_dtype, leaf_dtype}
use df_derive.Stored.{
  ScalarTransform, date_time, naive_date_time, naive_date, naive_time, duration, decimal, IntType,
  signed, unsigned,
}

pub data Native : Type 0 where
  integer : IntType → Native
  float : ℕ → Native

-- `numeric_info_for`: the native type and the data type
pub record NumericInfo : Type 0 where
  pub native : Native
  pub dtype : DataType

abbrev pub storage_native : StorageNumericKind → Native
storage_native StorageNumericKind.i8 = integer (signed 8)
storage_native StorageNumericKind.i16 = integer (signed 16)
storage_native StorageNumericKind.i32 = integer (signed 32)
storage_native StorageNumericKind.i64 = integer (signed 64)
storage_native StorageNumericKind.i128 = integer (signed 128)
storage_native StorageNumericKind.u8 = integer (unsigned 8)
storage_native StorageNumericKind.u16 = integer (unsigned 16)
storage_native StorageNumericKind.u32 = integer (unsigned 32)
storage_native StorageNumericKind.u64 = integer (unsigned 64)
storage_native StorageNumericKind.u128 = integer (unsigned 128)
storage_native StorageNumericKind.f32 = float 32
storage_native StorageNumericKind.f64 = float 64
storage_native StorageNumericKind.isize = integer (signed 64)
storage_native StorageNumericKind.usize = integer (unsigned 64)

unfoldable pub numeric_info_for : NumericKind → NumericInfo
unfolding storage_kind storage_dtype
numeric_info_for kind = record {
  native = storage_native (storage_kind kind);
  dtype = storage_dtype (storage_kind kind);
}

-- `ScalarTransform::logical` and `ScalarTransform::dtype`
unfoldable pub transform_logical : ScalarTransform → LogicalPrimitive
transform_logical (date_time unit) = LogicalPrimitive.date_time unit
transform_logical (naive_date_time unit) = LogicalPrimitive.naive_date_time unit
transform_logical naive_date = LogicalPrimitive.naive_date
transform_logical naive_time = LogicalPrimitive.naive_time
transform_logical (duration unit source) = LogicalPrimitive.duration unit
transform_logical (decimal precision scale) = LogicalPrimitive.decimal precision scale

unfoldable pub transform_dtype : ScalarTransform → DataType
unfolding transform_logical logical_dtype
transform_dtype t = logical_dtype (transform_logical t)

pub data VecLeafSpec : Type 0 where
  numeric : Native → VecLeafSpec
  string_like binary_like bool : VecLeafSpec

-- the transform is that of `value_expr`, where it is a mapped value
pub record VecLeafPlan : Type 0 where
  pub spec : VecLeafSpec
  pub transform : Option ScalarTransform
  pub plan_dtype : DataType

unfoldable pub mapped_numeric_plan : ScalarTransform → Native → VecLeafPlan
unfolding transform_dtype
mapped_numeric_plan t native = record {
  spec = numeric native;
  transform = some t;
  plan_dtype = transform_dtype t;
}

abbrev plain_plan : VecLeafSpec → PrimitiveLeaf → VecLeafPlan
plain_plan spec l = record { spec = spec; transform = none; plan_dtype = leaf_dtype l }

unfoldable pub vec_leaf_plan : PrimitiveLeaf → VecLeafPlan
unfolding numeric_info_for mapped_numeric_plan leaf_dtype
vec_leaf_plan (PrimitiveLeaf.numeric kind) =
    plain_plan (numeric (numeric_info_for kind).native) (PrimitiveLeaf.numeric kind)
vec_leaf_plan PrimitiveLeaf.string = plain_plan string_like PrimitiveLeaf.string
vec_leaf_plan PrimitiveLeaf.binary = plain_plan binary_like PrimitiveLeaf.binary
vec_leaf_plan PrimitiveLeaf.bool = plain_plan bool PrimitiveLeaf.bool
vec_leaf_plan (PrimitiveLeaf.date_time unit) =
    mapped_numeric_plan (date_time unit) (integer (signed 64))
vec_leaf_plan (PrimitiveLeaf.naive_date_time unit) =
    mapped_numeric_plan (naive_date_time unit) (integer (signed 64))
vec_leaf_plan PrimitiveLeaf.naive_time = mapped_numeric_plan naive_time (integer (signed 64))
vec_leaf_plan (PrimitiveLeaf.duration unit source) =
    mapped_numeric_plan (duration unit source) (integer (signed 64))
vec_leaf_plan PrimitiveLeaf.naive_date = mapped_numeric_plan naive_date (integer (signed 32))
vec_leaf_plan (PrimitiveLeaf.decimal precision scale) =
    mapped_numeric_plan (decimal precision scale) (integer (signed 128))
vec_leaf_plan PrimitiveLeaf.as_string = plain_plan string_like PrimitiveLeaf.as_string
vec_leaf_plan (PrimitiveLeaf.as_str base) = plain_plan string_like (PrimitiveLeaf.as_str base)

-- The buffer of a field of its own and the type of its series: a chunked array of the native type, or a
-- cast to a data type at the end.
pub record LeafBuild : Type 0 where
  pub spec : VecLeafSpec
  pub transform : Option ScalarTransform
  pub series_dtype : DataType

unfoldable pub mapped_cast_leaf : ScalarTransform → Native → LeafBuild
unfolding transform_dtype
mapped_cast_leaf t native = record {
  spec = numeric native;
  transform = some t;
  series_dtype = transform_dtype t;
}

abbrev string_build : LeafBuild
string_build = record { spec = string_like; transform = none; series_dtype = DataType.string }

unfoldable pub build_leaf : PrimitiveLeaf → LeafBuild
unfolding numeric_info_for mapped_cast_leaf
build_leaf (PrimitiveLeaf.numeric kind) = record {
  spec = numeric (numeric_info_for kind).native;
  transform = none;
  series_dtype = (numeric_info_for kind).dtype;
}
build_leaf PrimitiveLeaf.string = string_build
build_leaf PrimitiveLeaf.bool = record {
  spec = bool;
  transform = none;
  series_dtype = DataType.boolean;
}
build_leaf PrimitiveLeaf.binary = record {
  spec = binary_like;
  transform = none;
  series_dtype = DataType.binary;
}
build_leaf (PrimitiveLeaf.date_time unit) = mapped_cast_leaf (date_time unit) (integer (signed 64))
build_leaf (PrimitiveLeaf.naive_date_time unit) =
    mapped_cast_leaf (naive_date_time unit) (integer (signed 64))
build_leaf PrimitiveLeaf.naive_date = mapped_cast_leaf naive_date (integer (signed 32))
build_leaf PrimitiveLeaf.naive_time = mapped_cast_leaf naive_time (integer (signed 64))
build_leaf (PrimitiveLeaf.duration unit source) =
    mapped_cast_leaf (duration unit source) (integer (signed 64))
-- `decimal_leaf`, which ends in `into_decimal_unchecked(precision, scale)`
build_leaf (PrimitiveLeaf.decimal precision scale) = record {
  spec = numeric (integer (signed 128));
  transform = some (decimal precision scale);
  series_dtype = DataType.decimal precision scale;
}
build_leaf PrimitiveLeaf.as_string = string_build
build_leaf (PrimitiveLeaf.as_str base) = string_build
