-- ===== src/Projection/Overrides.antt =====
-- Fields with an override of df-derive-macros/src/lower/leaf.rs or binary.rs, and tuples.
use df_derive.Prelude.{
  true, false, ◌≡◌, refl, Option, none, some, String, List, get_last?, length, eqb, if◌then◌else◌,
}
use df_derive.Errors.{err, bare_binary_u8, binary_inner_option, Returns}
use df_derive.Ir.{LeafSpec, NumericKind}
use df_derive.Attrs.{LeafOverride, as_str, as_string, decimal, time_unit}
use df_derive.TypeAnalysis.{RawWrapper, AnalyzedBase}
use df_derive.Lower.{
  is_tuple_base, reject_attrs_on_tuple, parse_leaf_spec, parse_leaf_as_str, parse_leaf_as_string,
  parse_leaf_decimal, parse_leaf_time_unit, display_base_for_as_string, parse_as_binary_shape,
  binary_of_u8,
}
use df_derive.Projection.Validated.{is_tuple_leaf}

abbrev pub IsNoTuple : LeafSpec → Type 0
IsNoTuple l = is_tuple_leaf l ≡ false

pub override-IsNoTuple :
    (name : String) (o : LeafOverride) (base : AnalyzedBase)
    → Returns IsNoTuple (parse_leaf_spec name (some o) base)
unfolding parse_leaf_spec parse_leaf_as_str parse_leaf_as_string parse_leaf_decimal
    parse_leaf_time_unit display_base_for_as_string is_tuple_leaf is_tuple_base
    reject_attrs_on_tuple
override-IsNoTuple name as_str AnalyzedBase.string = refl
override-IsNoTuple name as_str AnalyzedBase.borrowed_str = refl
override-IsNoTuple name as_str AnalyzedBase.cow_str = refl
override-IsNoTuple name as_str (AnalyzedBase.struct ty) = refl
override-IsNoTuple name as_str (AnalyzedBase.generic ident) = refl
override-IsNoTuple name as_str _ = tt
override-IsNoTuple name as_string (AnalyzedBase.tuple _) = tt
override-IsNoTuple name as_string AnalyzedBase.std_duration = tt
override-IsNoTuple name as_string AnalyzedBase.borrowed_bytes = tt
override-IsNoTuple name as_string AnalyzedBase.cow_bytes = tt
override-IsNoTuple name as_string AnalyzedBase.borrowed_slice = tt
override-IsNoTuple name as_string AnalyzedBase.cow_slice = tt
override-IsNoTuple name as_string _ = refl
override-IsNoTuple name (decimal p s) AnalyzedBase.decimal = refl
override-IsNoTuple name (decimal p s) (AnalyzedBase.struct ty) = refl
override-IsNoTuple name (decimal p s) (AnalyzedBase.generic ident) = refl
override-IsNoTuple name (decimal p s) _ = tt
override-IsNoTuple name (time_unit u) AnalyzedBase.date_time_tz = refl
override-IsNoTuple name (time_unit u) AnalyzedBase.naive_date_time = refl
override-IsNoTuple name (time_unit u) AnalyzedBase.std_duration = refl
override-IsNoTuple name (time_unit u) AnalyzedBase.chrono_duration = refl
override-IsNoTuple name (time_unit u) _ = tt

abbrev pub BinaryLeaf : LeafSpec × List RawWrapper → Type 0
BinaryLeaf r = IsNoTuple r.0

u8-BinaryLeaf :
    (name : String) (ws : List RawWrapper) (o : Option RawWrapper)
    → Returns BinaryLeaf (binary_of_u8 name ws o)
unfolding binary_of_u8 is_tuple_leaf
u8-BinaryLeaf name ws none = tt
u8-BinaryLeaf name ws (some RawWrapper.option) =
    elim (eqb (length ws) 1)
      as (λ b.
        Returns BinaryLeaf
          (if b then err (bare_binary_u8 name) else err (binary_inner_option name))) [
            | true ↦ tt
            | false ↦ tt
          ]
u8-BinaryLeaf name ws (some RawWrapper.vec) = refl
u8-BinaryLeaf name ws (some RawWrapper.smart_ptr) = tt

pub binary_shape-BinaryLeaf :
    (name : String) (base : AnalyzedBase) (ws : List RawWrapper)
    → Returns BinaryLeaf (parse_as_binary_shape name base ws)
unfolding parse_as_binary_shape is_tuple_leaf
binary_shape-BinaryLeaf name AnalyzedBase.cow_bytes ws = refl
binary_shape-BinaryLeaf name AnalyzedBase.borrowed_bytes ws = refl
binary_shape-BinaryLeaf name (AnalyzedBase.numeric NumericKind.u8) ws =
    u8-BinaryLeaf name ws (get_last? ws)
binary_shape-BinaryLeaf name (AnalyzedBase.numeric _) ws = tt
binary_shape-BinaryLeaf name _ ws = tt
