-- ===== src/TypeAnalysis/KnownTypes.antt =====
-- df-derive-macros/src/type_analysis/known_types.rs
use df_derive.Prelude.{
  Bool, true, false, not, ◌&&◌, ◌||◌, Option, none, some, String, List, [], ◌∷◌, lookup, or_else,
  ◌==◌, if◌then◌else◌,
}
use df_derive.Syn.{
  SynType, path, Segments, PathArguments, angle_bracketed, GenericArguments, no_generics,
  and_generic, type_argument, segment, no_segments,
}
use df_derive.Ir.{NumericKind}
use df_derive.TypeAnalysis.PathMatch.{is_no_arguments, exact_no_args, exact_with_leaf_args, leaf}

pub data KnownBase : Type 0 where
  numeric : NumericKind → KnownBase
  bool string decimal std_duration chrono_duration date_time_tz : KnownBase
  naive_date naive_time naive_date_time : KnownBase

abbrev bare_numerics : List (String × NumericKind)
bare_numerics =
    ("f64", NumericKind.f64)
    ∷ ("f32", NumericKind.f32)
    ∷ ("i8", NumericKind.i8)
    ∷ ("u8", NumericKind.u8)
    ∷ ("i16", NumericKind.i16)
    ∷ ("u16", NumericKind.u16)
    ∷ ("i64", NumericKind.i64)
    ∷ ("i128", NumericKind.i128)
    ∷ ("isize", NumericKind.isize)
    ∷ ("u64", NumericKind.u64)
    ∷ ("u128", NumericKind.u128)
    ∷ ("usize", NumericKind.usize)
    ∷ ("u32", NumericKind.u32)
    ∷ ("i32", NumericKind.i32)
    ∷ []

abbrev nonzero_numerics : List (String × NumericKind)
nonzero_numerics =
    ("NonZeroI8", NumericKind.non_zero_i8)
    ∷ ("NonZeroI16", NumericKind.non_zero_i16)
    ∷ ("NonZeroI32", NumericKind.non_zero_i32)
    ∷ ("NonZeroI64", NumericKind.non_zero_i64)
    ∷ ("NonZeroI128", NumericKind.non_zero_i128)
    ∷ ("NonZeroIsize", NumericKind.non_zero_isize)
    ∷ ("NonZeroU8", NumericKind.non_zero_u8)
    ∷ ("NonZeroU16", NumericKind.non_zero_u16)
    ∷ ("NonZeroU32", NumericKind.non_zero_u32)
    ∷ ("NonZeroU64", NumericKind.non_zero_u64)
    ∷ ("NonZeroU128", NumericKind.non_zero_u128)
    ∷ ("NonZeroUsize", NumericKind.non_zero_usize)
    ∷ []

bare_numeric_kind : Bool → Segments → Option NumericKind
unfolding is_no_arguments
bare_numeric_kind false (segment ident args no_segments) =
    if is_no_arguments args then lookup ident bare_numerics else none
bare_numeric_kind _ _ = none

nonzero_of_leaf : Bool → Segments → Option (String × PathArguments) → Option NumericKind
unfolding is_no_arguments exact_no_args
nonzero_of_leaf q s none = none
nonzero_of_leaf q s (some (ident, args)) =
    if is_no_arguments args
    then if exact_no_args q s (ident ∷ [])
        || exact_no_args q s ("std" ∷ "num" ∷ ident ∷ [])
        || exact_no_args q s ("core" ∷ "num" ∷ ident ∷ [])
      then lookup ident nonzero_numerics
      else none
    else none

nonzero_numeric_kind : Bool → Segments → Option NumericKind
unfolding nonzero_of_leaf leaf
nonzero_numeric_kind q s = nonzero_of_leaf q s (leaf s)

is_string_type : Bool → Segments → Bool
unfolding exact_no_args
is_string_type q s =
    exact_no_args q s ("String" ∷ [])
    || exact_no_args q s ("std" ∷ "string" ∷ "String" ∷ [])
    || exact_no_args q s ("alloc" ∷ "string" ∷ "String" ∷ [])

is_decimal_type : Bool → Segments → Bool
unfolding exact_no_args
is_decimal_type q s =
    exact_no_args q s ("Decimal" ∷ []) || exact_no_args q s ("rust_decimal" ∷ "Decimal" ∷ [])

is_chrono_no_args_type : Bool → Segments → String → Bool
unfolding exact_no_args
is_chrono_no_args_type q s name =
    exact_no_args q s (name ∷ []) || exact_no_args q s ("chrono" ∷ name ∷ [])

is_std_duration : Bool → Segments → Bool
unfolding exact_no_args
is_std_duration q s =
    exact_no_args q s ("std" ∷ "time" ∷ "Duration" ∷ [])
    || exact_no_args q s ("core" ∷ "time" ∷ "Duration" ∷ [])

chrono_duration_leaf : Bool → Segments → Option (String × PathArguments) → Bool
unfolding is_no_arguments exact_no_args
chrono_duration_leaf q s none = false
chrono_duration_leaf q s (some (ident, args)) =
    if not (is_no_arguments args)
    then false
    else if ident == "Duration"
    then exact_no_args q s ("Duration" ∷ []) || exact_no_args q s ("chrono" ∷ "Duration" ∷ [])
    else if ident == "TimeDelta"
    then exact_no_args q s ("TimeDelta" ∷ []) || exact_no_args q s ("chrono" ∷ "TimeDelta" ∷ [])
    else false

is_chrono_duration : Bool → Segments → Bool
unfolding chrono_duration_leaf leaf
is_chrono_duration q s = not q && chrono_duration_leaf q s (leaf s)

any_type_argument : GenericArguments → Bool
any_type_argument no_generics = false
any_type_argument (and_generic (type_argument _) rest) = true
any_type_argument (and_generic _ rest) = any_type_argument rest

has_type_argument : Option (String × PathArguments) → Bool
unfolding any_type_argument
has_type_argument (some (_, angle_bracketed args)) = any_type_argument args
has_type_argument _ = false

is_chrono_datetime : Bool → Segments → Bool
unfolding exact_with_leaf_args has_type_argument leaf
is_chrono_datetime q s =
    (exact_with_leaf_args q s ("DateTime" ∷ [])
      || exact_with_leaf_args q s ("chrono" ∷ "DateTime" ∷ []))
    && has_type_argument (leaf s)

unfoldable pub classify_known_base : Bool → Segments → Option KnownBase
unfolding is_std_duration is_chrono_duration is_chrono_datetime bare_numeric_kind
    nonzero_numeric_kind exact_no_args is_string_type is_decimal_type is_chrono_no_args_type
classify_known_base q s =
    if is_std_duration q s
    then some std_duration
    else if is_chrono_duration q s
    then some chrono_duration
    else if is_chrono_datetime q s
    then some date_time_tz
    else elim (or_else (bare_numeric_kind q s) (nonzero_numeric_kind q s)) [
      | some kind ↦ some (numeric kind)
      | none ↦
          if exact_no_args q s ("bool" ∷ [])
          then some bool
          else if is_string_type q s
          then some string
          else if is_decimal_type q s
          then some decimal
          else if is_chrono_no_args_type q s "NaiveDate"
          then some naive_date
          else if is_chrono_no_args_type q s "NaiveTime"
          then some naive_time
          else if is_chrono_no_args_type q s "NaiveDateTime"
          then some naive_date_time
          else none
    ]

is_bare : String → SynType → Bool
unfolding is_no_arguments
is_bare name (path false (segment ident args no_segments)) = ident == name && is_no_arguments args
is_bare name _ = false

unfoldable pub is_bare_str_type : SynType → Bool
unfolding is_bare
is_bare_str_type = is_bare "str"

unfoldable pub is_u8_type : SynType → Bool
unfolding is_bare
is_u8_type = is_bare "u8"
