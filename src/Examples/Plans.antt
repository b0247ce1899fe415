-- ===== src/Examples/Plans.antt =====
-- The theorem on the buffers of leaves, at a concrete input: the physical types of Polars.
use df_derive.Prelude.{◌≡◌, refl}
use df_derive.Ir.{PrimitiveLeaf, microseconds, std}
use df_derive.Schema.{DataType, leaf_dtype}
use df_derive.Stored.{signed, unsigned}
use df_derive.Stored.Plan.{
  VecLeafSpec, numeric, integer, float, string_like, binary_like, bool, vec_leaf_plan, build_leaf,
}
use df_derive.Stored.Plan.Physical.{Documented, vec_leaf_plan-physical}

abbrev physical_type : DataType → VecLeafSpec
physical_type DataType.int8 = numeric (integer (signed 8))
physical_type DataType.int16 = numeric (integer (signed 16))
physical_type DataType.int32 = numeric (integer (signed 32))
physical_type DataType.int64 = numeric (integer (signed 64))
physical_type DataType.int128 = numeric (integer (signed 128))
physical_type DataType.uint8 = numeric (integer (unsigned 8))
physical_type DataType.uint16 = numeric (integer (unsigned 16))
physical_type DataType.uint32 = numeric (integer (unsigned 32))
physical_type DataType.uint64 = numeric (integer (unsigned 64))
physical_type DataType.uint128 = numeric (integer (unsigned 128))
physical_type DataType.float32 = numeric (float 32)
physical_type DataType.float64 = numeric (float 64)
physical_type DataType.string = string_like
physical_type DataType.boolean = bool
physical_type DataType.binary = binary_like
physical_type DataType.date = numeric (integer (signed 32))
physical_type DataType.time = numeric (integer (signed 64))
physical_type (DataType.datetime unit) = numeric (integer (signed 64))
physical_type (DataType.duration unit) = numeric (integer (signed 64))
physical_type (DataType.decimal precision scale) = numeric (integer (signed 128))
physical_type (DataType.list t) = binary_like
physical_type (DataType.other n) = binary_like

physical_type-Documented : Documented physical_type
physical_type-Documented = record {
  signed_types = (refl, refl, refl, refl, refl);
  unsigned_types = (refl, refl, refl, refl, refl);
  float32 = refl;
  float64 = refl;
  string = refl;
  binary = refl;
  boolean = refl;
  date = refl;
  time = refl;
  datetime = λ unit. refl;
  duration = λ unit. refl;
  decimal = λ precision scale. refl;
}

abbrev some_leaf : PrimitiveLeaf
some_leaf = PrimitiveLeaf.duration microseconds std

vec_leaf_plan-physical_example :
    ((vec_leaf_plan some_leaf).plan_dtype ≡ leaf_dtype some_leaf)
    × ((build_leaf some_leaf).series_dtype ≡ leaf_dtype some_leaf)
    × ((build_leaf some_leaf).spec ≡ (vec_leaf_plan some_leaf).spec)
    × ((build_leaf some_leaf).transform ≡ (vec_leaf_plan some_leaf).transform)
    × ((vec_leaf_plan some_leaf).spec ≡ physical_type (leaf_dtype some_leaf))
vec_leaf_plan-physical_example =
    vec_leaf_plan-physical physical_type physical_type-Documented some_leaf
