-- ===== src/Schema/Types.antt =====
-- df-derive-macros/src/codegen/type_registry: the data type of a primitive column, and the list layers
-- that external_paths.rs puts around it.
use df_derive.Prelude.{ℕ, zero, suc, String}
use df_derive.Ir.{DateTimeUnit, NumericKind, StorageNumericKind, storage_kind, PrimitiveLeaf}

-- the cases of Polars' `DataType` that the generated code names
pub data DataType : Type 0 where
  int8 int16 int32 int64 int128 : DataType
  uint8 uint16 uint32 uint64 uint128 float32 float64 : DataType
  string boolean binary date time : DataType
  datetime duration : DateTimeUnit → DataType
  decimal : ℕ → ℕ → DataType
  list : DataType → DataType
  -- any other type, from the schema of an inner type
  other : String → DataType

pub data LogicalPrimitive : Type 0 where
  numeric : NumericKind → LogicalPrimitive
  string bool binary : LogicalPrimitive
  date_time naive_date_time : DateTimeUnit → LogicalPrimitive
  naive_date naive_time : LogicalPrimitive
  duration : DateTimeUnit → LogicalPrimitive
  decimal : ℕ → ℕ → LogicalPrimitive

-- `numeric_info_for`, its `dtype`
unfoldable pub storage_dtype : StorageNumericKind → DataType
storage_dtype StorageNumericKind.i8 = DataType.int8
storage_dtype StorageNumericKind.i16 = DataType.int16
storage_dtype StorageNumericKind.i32 = DataType.int32
storage_dtype StorageNumericKind.i64 = DataType.int64
storage_dtype StorageNumericKind.i128 = DataType.int128
storage_dtype StorageNumericKind.u8 = DataType.uint8
storage_dtype StorageNumericKind.u16 = DataType.uint16
storage_dtype StorageNumericKind.u32 = DataType.uint32
storage_dtype StorageNumericKind.u64 = DataType.uint64
storage_dtype StorageNumericKind.u128 = DataType.uint128
storage_dtype StorageNumericKind.f32 = DataType.float32
storage_dtype StorageNumericKind.f64 = DataType.float64
storage_dtype StorageNumericKind.isize = DataType.int64
storage_dtype StorageNumericKind.usize = DataType.uint64

-- `LogicalPrimitive::dtype`
unfoldable pub logical_dtype : LogicalPrimitive → DataType
unfolding storage_dtype storage_kind
logical_dtype (numeric kind) = storage_dtype (storage_kind kind)
logical_dtype LogicalPrimitive.string = DataType.string
logical_dtype bool = DataType.boolean
logical_dtype LogicalPrimitive.binary = DataType.binary
logical_dtype (date_time unit) = DataType.datetime unit
logical_dtype (naive_date_time unit) = DataType.datetime unit
logical_dtype naive_date = DataType.date
logical_dtype naive_time = DataType.time
logical_dtype (LogicalPrimitive.duration unit) = DataType.duration unit
logical_dtype (LogicalPrimitive.decimal p s) = DataType.decimal p s

-- `PrimitiveLeaf::logical`
unfoldable pub logical : PrimitiveLeaf → LogicalPrimitive
logical (PrimitiveLeaf.numeric kind) = numeric kind
logical PrimitiveLeaf.string = LogicalPrimitive.string
logical PrimitiveLeaf.as_string = LogicalPrimitive.string
logical (PrimitiveLeaf.as_str _) = LogicalPrimitive.string
logical PrimitiveLeaf.bool = bool
logical PrimitiveLeaf.binary = LogicalPrimitive.binary
logical (PrimitiveLeaf.date_time unit) = date_time unit
logical (PrimitiveLeaf.naive_date_time unit) = naive_date_time unit
logical PrimitiveLeaf.naive_date = naive_date
logical PrimitiveLeaf.naive_time = naive_time
logical (PrimitiveLeaf.duration unit _) = LogicalPrimitive.duration unit
logical (PrimitiveLeaf.decimal p s) = LogicalPrimitive.decimal p s

unfoldable pub leaf_dtype : PrimitiveLeaf → DataType
unfolding logical logical_dtype
leaf_dtype l = logical_dtype (logical l)

-- `wrap_list_layers_compile_time`: the loop wraps what it has so far
unfoldable pub wrap_list_layers : DataType → ℕ → DataType
wrap_list_layers dt zero = dt
wrap_list_layers dt (suc layers) = wrap_list_layers (list dt) layers
