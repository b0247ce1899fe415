-- ===== src/Stored/Plan/Physical.antt =====
-- The buffers of df-derive-macros/src/codegen/encoder against the data types of the schema.
use df_derive.Prelude.{◌≡◌, refl, sym, ℕ}
use df_derive.Ir.{DateTimeUnit, StorageNumericKind, storage_kind, PrimitiveLeaf}
use df_derive.Schema.Types.{DataType, logical, logical_dtype, storage_dtype, leaf_dtype}
use df_derive.Stored.{signed, unsigned}
use df_derive.Stored.Plan.{
  integer, float, numeric_info_for, storage_native, transform_logical, transform_dtype, VecLeafSpec,
  numeric, string_like, binary_like, bool, mapped_numeric_plan, vec_leaf_plan, mapped_cast_leaf,
  build_leaf,
}

-- What the documents of Polars say of the physical types of its data types.
pub record Documented (physical : DataType → VecLeafSpec) : Type 0 where
  pub signed_types :
      (physical DataType.int8 ≡ numeric (integer (signed 8)))
      × (physical DataType.int16 ≡ numeric (integer (signed 16)))
      × (physical DataType.int32 ≡ numeric (integer (signed 32)))
      × (physical DataType.int64 ≡ numeric (integer (signed 64)))
      × (physical DataType.int128 ≡ numeric (integer (signed 128)))
  pub unsigned_types :
      (physical DataType.uint8 ≡ numeric (integer (unsigned 8)))
      × (physical DataType.uint16 ≡ numeric (integer (unsigned 16)))
      × (physical DataType.uint32 ≡ numeric (integer (unsigned 32)))
      × (physical DataType.uint64 ≡ numeric (integer (unsigned 64)))
      × (physical DataType.uint128 ≡ numeric (integer (unsigned 128)))
  pub float32 : physical DataType.float32 ≡ numeric (float 32)
  pub float64 : physical DataType.float64 ≡ numeric (float 64)
  pub string : physical DataType.string ≡ string_like
  pub binary : physical DataType.binary ≡ binary_like
  pub boolean : physical DataType.boolean ≡ bool
  pub date : physical DataType.date ≡ numeric (integer (signed 32))
  pub time : physical DataType.time ≡ numeric (integer (signed 64))
  pub datetime :
      (unit : DateTimeUnit) → physical (DataType.datetime unit) ≡ numeric (integer (signed 64))
  pub duration :
      (unit : DateTimeUnit) → physical (DataType.duration unit) ≡ numeric (integer (signed 64))
  pub decimal :
      (precision scale : ℕ)
      → physical (DataType.decimal precision scale) ≡ numeric (integer (signed 128))

module _ (physical : DataType → VecLeafSpec) (docs : Documented physical) where
  numeric-physical :
      (k : StorageNumericKind) → numeric (storage_native k) ≡ physical (storage_dtype k)
  unfolding storage_dtype
  numeric-physical StorageNumericKind.i8 = sym docs.signed_types.0
  numeric-physical StorageNumericKind.i16 = sym docs.signed_types.1
  numeric-physical StorageNumericKind.i32 = sym docs.signed_types.2
  numeric-physical StorageNumericKind.i64 = sym docs.signed_types.3
  numeric-physical StorageNumericKind.i128 = sym docs.signed_types.4
  numeric-physical StorageNumericKind.u8 = sym docs.unsigned_types.0
  numeric-physical StorageNumericKind.u16 = sym docs.unsigned_types.1
  numeric-physical StorageNumericKind.u32 = sym docs.unsigned_types.2
  numeric-physical StorageNumericKind.u64 = sym docs.unsigned_types.3
  numeric-physical StorageNumericKind.u128 = sym docs.unsigned_types.4
  numeric-physical StorageNumericKind.f32 = sym docs.float32
  numeric-physical StorageNumericKind.f64 = sym docs.float64
  numeric-physical StorageNumericKind.isize = sym docs.signed_types.3
  numeric-physical StorageNumericKind.usize = sym docs.unsigned_types.3

  -- the physical type of every primitive leaf
  leaf-physical : (l : PrimitiveLeaf) → (vec_leaf_plan l).spec ≡ physical (leaf_dtype l)
  unfolding vec_leaf_plan mapped_numeric_plan numeric_info_for leaf_dtype logical logical_dtype
  leaf-physical (PrimitiveLeaf.numeric kind) = numeric-physical (storage_kind kind)
  leaf-physical PrimitiveLeaf.string = sym docs.string
  leaf-physical PrimitiveLeaf.bool = sym docs.boolean
  leaf-physical PrimitiveLeaf.binary = sym docs.binary
  leaf-physical (PrimitiveLeaf.date_time unit) = sym (docs.datetime unit)
  leaf-physical (PrimitiveLeaf.naive_date_time unit) = sym (docs.datetime unit)
  leaf-physical PrimitiveLeaf.naive_date = sym docs.date
  leaf-physical PrimitiveLeaf.naive_time = sym docs.time
  leaf-physical (PrimitiveLeaf.duration unit source) = sym (docs.duration unit)
  leaf-physical (PrimitiveLeaf.decimal precision scale) = sym (docs.decimal precision scale)
  leaf-physical PrimitiveLeaf.as_string = sym docs.string
  leaf-physical (PrimitiveLeaf.as_str base) = sym docs.string

  -- For every primitive leaf, the type that the list encoder names for its values and the type of the
  -- series of a field of its own are the type that the schema has, both encoders fill the same kind of
  -- buffer through the same transform, and that buffer is Polars' physical form of the type.
  pub vec_leaf_plan-physical :
      (l : PrimitiveLeaf)
      → ((vec_leaf_plan l).plan_dtype ≡ leaf_dtype l)
        × ((build_leaf l).series_dtype ≡ leaf_dtype l)
        × ((build_leaf l).spec ≡ (vec_leaf_plan l).spec)
        × ((build_leaf l).transform ≡ (vec_leaf_plan l).transform)
        × ((vec_leaf_plan l).spec ≡ physical (leaf_dtype l))
  unfolding vec_leaf_plan mapped_numeric_plan mapped_cast_leaf transform_dtype transform_logical
      build_leaf numeric_info_for leaf_dtype logical logical_dtype
  vec_leaf_plan-physical (PrimitiveLeaf.numeric kind) =
      (refl, refl, refl, refl, leaf-physical (PrimitiveLeaf.numeric kind))
  vec_leaf_plan-physical PrimitiveLeaf.string =
      (refl, refl, refl, refl, leaf-physical PrimitiveLeaf.string)
  vec_leaf_plan-physical PrimitiveLeaf.bool =
      (refl, refl, refl, refl, leaf-physical PrimitiveLeaf.bool)
  vec_leaf_plan-physical PrimitiveLeaf.binary =
      (refl, refl, refl, refl, leaf-physical PrimitiveLeaf.binary)
  vec_leaf_plan-physical (PrimitiveLeaf.date_time unit) =
      (refl, refl, refl, refl, leaf-physical (PrimitiveLeaf.date_time unit))
  vec_leaf_plan-physical (PrimitiveLeaf.naive_date_time unit) =
      (refl, refl, refl, refl, leaf-physical (PrimitiveLeaf.naive_date_time unit))
  vec_leaf_plan-physical PrimitiveLeaf.naive_date =
      (refl, refl, refl, refl, leaf-physical PrimitiveLeaf.naive_date)
  vec_leaf_plan-physical PrimitiveLeaf.naive_time =
      (refl, refl, refl, refl, leaf-physical PrimitiveLeaf.naive_time)
  vec_leaf_plan-physical (PrimitiveLeaf.duration unit source) =
      (refl, refl, refl, refl, leaf-physical (PrimitiveLeaf.duration unit source))
  vec_leaf_plan-physical (PrimitiveLeaf.decimal precision scale) =
      (refl, refl, refl, refl, leaf-physical (PrimitiveLeaf.decimal precision scale))
  vec_leaf_plan-physical PrimitiveLeaf.as_string =
      (refl, refl, refl, refl, leaf-physical PrimitiveLeaf.as_string)
  vec_leaf_plan-physical (PrimitiveLeaf.as_str base) =
      (refl, refl, refl, refl, leaf-physical (PrimitiveLeaf.as_str base))
