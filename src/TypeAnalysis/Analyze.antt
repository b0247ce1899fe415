-- ===== src/TypeAnalysis/Analyze.antt =====
-- df-derive-macros/src/type_analysis/mod.rs
use df_derive.Prelude.{
  ℕ, zero, suc, Bool, false, Option, none, some, is_some, String, List, contains, if◌then◌else◌,
}
use df_derive.Syn.{
  SynType, path, reference, SynTypes, no_types, and_type, Segments, segment, no_segments, size,
}
use df_derive.Ir.{NumericKind, DateTimeUnit, milliseconds, nanoseconds}
use df_derive.Errors.{Result, ok, err, out_of_fuel, unit_field, unsupported_field_type, ◌>>=◌, ◌>>◌}
use df_derive.TypeAnalysis.PathMatch.{is_no_arguments}
use df_derive.TypeAnalysis.KnownTypes.{KnownBase, classify_known_base}
use df_derive.TypeAnalysis.Wrappers.{
  RawWrapper, UnsizedBase, borrowed_reference_base, unsized_base, analyze_cow_base,
  peel_type_wrappers,
}
use df_derive.TypeAnalysis.Rejections.{
  reject_unsupported_collection_type, reject_bare_duration, reject_bare_unsized_leaf,
}

abbrev pub default_datetime_unit : DateTimeUnit
default_datetime_unit = milliseconds

abbrev pub default_duration_unit : DateTimeUnit
default_duration_unit = nanoseconds

abbrev pub default_decimal_precision : ℕ
default_decimal_precision = 38

abbrev pub default_decimal_scale : ℕ
default_decimal_scale = 10

mutual
  pub data AnalyzedBase : Type 0 where
    numeric : NumericKind → AnalyzedBase
    string borrowed_str cow_str borrowed_bytes cow_bytes borrowed_slice cow_slice : AnalyzedBase
    bool date_time_tz naive_date naive_time naive_date_time : AnalyzedBase
    std_duration chrono_duration decimal : AnalyzedBase
    struct : SynType → AnalyzedBase
    generic : String → AnalyzedBase
    tuple : AnalyzedTypes → AnalyzedBase

  -- `AnalyzedType`: base, wrappers, the type as written, outer smart-pointer depth
  pub data AnalyzedType : Type 0 where
    analyzed : AnalyzedBase → List RawWrapper → SynType → ℕ → AnalyzedType

  pub data AnalyzedTypes : Type 0 where
    no_elems : AnalyzedTypes
    and_elem : AnalyzedType → AnalyzedTypes → AnalyzedTypes

unfoldable pub into_analyzed_base : KnownBase → AnalyzedBase
into_analyzed_base (KnownBase.numeric kind) = numeric kind
into_analyzed_base KnownBase.bool = bool
into_analyzed_base KnownBase.string = string
into_analyzed_base KnownBase.decimal = decimal
into_analyzed_base KnownBase.std_duration = std_duration
into_analyzed_base KnownBase.chrono_duration = chrono_duration
into_analyzed_base KnownBase.date_time_tz = date_time_tz
into_analyzed_base KnownBase.naive_date = naive_date
into_analyzed_base KnownBase.naive_time = naive_time
into_analyzed_base KnownBase.naive_date_time = naive_date_time

unfoldable pub bare_generic_param_ident : SynType → List String → Option String
unfolding is_no_arguments
bare_generic_param_ident (path false (segment ident args no_segments)) generic_params =
    if is_no_arguments args
    then if contains generic_params ident then some ident else none
    else none
bare_generic_param_ident _ generic_params = none

abbrev pub borrowed_base : UnsizedBase → AnalyzedBase
borrowed_base UnsizedBase.str = borrowed_str
borrowed_base UnsizedBase.bytes = borrowed_bytes
borrowed_base UnsizedBase.other_slice = borrowed_slice

abbrev cow_base : UnsizedBase → AnalyzedBase
cow_base UnsizedBase.str = cow_str
cow_base UnsizedBase.bytes = cow_bytes
cow_base UnsizedBase.other_slice = cow_slice

abbrev pub path_base : Bool → Segments → Option UnsizedBase → Option KnownBase → AnalyzedBase
path_base q s (some cow) known = cow_base cow
path_base q s none (some known) = into_analyzed_base known
path_base q s none none = struct (path q s)

-- `analyze_base_type` on what is no tuple
unfoldable pub analyze_other_base : SynType → List String → Result AnalyzedBase
unfolding bare_generic_param_ident analyze_cow_base classify_known_base unsized_base
    into_analyzed_base
analyze_other_base (reference m elem) generic_params = elim (borrowed_reference_base elem) [
  | some base ↦ ok (borrowed_base base)
  | none ↦ err unsupported_field_type
]
analyze_other_base (path q s) generic_params =
    elim (bare_generic_param_ident (path q s) generic_params) [
      | some ident ↦ ok (generic ident)
      | none ↦ ok (path_base q s (analyze_cow_base q s) (classify_known_base q s))
    ]
analyze_other_base ty generic_params = err unsupported_field_type

-- the loop of `analyze_tuple_base`, over the recursive call
unfoldable pub analyze_elems : (SynType → Result AnalyzedType) → SynTypes → Result AnalyzedTypes
analyze_elems analyze no_types = ok no_elems
analyze_elems analyze (and_type ty rest) = do
  first ← analyze ty
  others ← analyze_elems analyze rest
  ok (and_elem first others)

unfoldable pub analyze_base_type :
    (SynType → Result AnalyzedType) → SynType → List String → Result AnalyzedBase
unfolding analyze_elems analyze_other_base
analyze_base_type analyze (SynType.tuple no_types) generic_params = err unit_field
analyze_base_type analyze (SynType.tuple (and_type ty rest)) generic_params = do
  elements ← analyze_elems analyze (and_type ty rest)
  ok (tuple elements)
analyze_base_type analyze ty generic_params = analyze_other_base ty generic_params

unfoldable pub reject_unsupported : SynType → List String → Result (Unit {0})
unfolding bare_generic_param_ident reject_unsupported_collection_type reject_bare_duration
    reject_bare_unsized_leaf
reject_unsupported ty generic_params =
    if is_some (bare_generic_param_ident ty generic_params) then ok tt else do
      reject_unsupported_collection_type ty
      reject_bare_duration ty generic_params
      reject_bare_unsized_leaf ty

unfoldable pub analyze_type : ℕ → SynType → List String → Result AnalyzedType
unfolding peel_type_wrappers reject_unsupported analyze_base_type
analyze_type zero ty generic_params = err out_of_fuel
analyze_type (suc f) ty generic_params = do
  peeled ← peel_type_wrappers (suc f) ty
  reject_unsupported peeled.current_type generic_params
  base ←
      analyze_base_type (λ elem. analyze_type f elem generic_params) peeled.current_type
        generic_params
  ok (analyzed base peeled.wrappers ty peeled.outer_smart_ptr_depth)

-- The entry of the module: a type has enough fuel in its own size.
unfoldable pub analyze : SynType → List String → Result AnalyzedType
unfolding analyze_type size
analyze ty generic_params = analyze_type (size ty) ty generic_params
