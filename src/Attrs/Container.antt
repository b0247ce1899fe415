-- ===== src/Attrs/Container.antt =====
-- df-derive-macros/src/attrs/container.rs: the runtime traits that a struct overrides. The lookup of a
-- package in Cargo.toml (`proc_macro_crate::crate_name`), the variable CARGO_CRATE_NAME and syn's parser
-- of a path are parameters.
use df_derive.Prelude.{
  Bool, true, false, ◌&&◌, ◌||◌, not, Option, none, some, String, List, [], ◌∷◌, is_some,
  if◌then◌else◌, ◌==◌,
}
use df_derive.Syn.{Segments, no_segments, segment}
use df_derive.TypeAnalysis.PathMatch.{is_no_arguments}
use df_derive.Errors.{
  Error, Result, ok, err, ◌>>=◌, invalid_trait_path, duplicate_runtime_override,
  unknown_container_key, columnar_without_trait, mixed_builtin_runtime,
}
use df_derive.Attrs.Items.{Meta, Attribute, assigned_text, for_each}

pub record ContainerAttrs : Type 0 where
  pub to_dataframe : Option Segments
  pub columnar : Option Segments
  pub decimal128_encode : Option Segments

pub data FoundCrate : Type 0 where
  itself : FoundCrate
  name : String → FoundCrate

unfoldable pub rebase_last_segment : Segments → String → Segments
rebase_last_segment no_segments ident = no_segments
rebase_last_segment (segment last args no_segments) ident = segment ident args no_segments
rebase_last_segment (segment s args (segment t args' rest)) ident =
    segment s args (rebase_last_segment (segment t args' rest) ident)

unfoldable pub set_runtime_override : Option Segments → String → Segments → Result (Option Segments)
set_runtime_override none key path = ok (some path)
set_runtime_override (some existing) key path = err (duplicate_runtime_override key)

-- `collect` of the names into an `Option`: none where a segment has arguments
unfoldable pub path_segment_names : Segments → Option (List String)
unfolding is_no_arguments
path_segment_names no_segments = some []
path_segment_names (segment ident args rest) = elim (path_segment_names rest) [
  | none ↦ none
  | some names ↦ if is_no_arguments args then some (ident ∷ names) else none
]

unfoldable pub same_names : List String → List String → Bool
same_names [] [] = true
same_names [] (y ∷ ys) = false
same_names (x ∷ xs) [] = false
same_names (x ∷ xs) (y ∷ ys) = x == y && same_names xs ys

abbrev pub both_same : Option (List String) → Option (List String) → Bool
both_same (some left) (some right) = same_names left right
both_same (some left) none = false
both_same none right = false

unfoldable pub path_segments_equal : Segments → Segments → Bool
unfolding path_segment_names same_names
path_segments_equal left right = both_same (path_segment_names left) (path_segment_names right)

-- the path without its last segment, if that is the trait and has no arguments
unfoldable pub split_trait : Segments → String → Option Segments
unfolding is_no_arguments
split_trait no_segments trait_name = none
split_trait (segment last args no_segments) trait_name =
    if is_no_arguments args && last == trait_name then some no_segments else none
split_trait (segment s args (segment t args' rest)) trait_name =
    elim (split_trait (segment t args' rest) trait_name) [
      | none ↦ none
      | some init ↦ some (segment s args init)
    ]

abbrev pub non_empty_path : Option Segments → Option Segments
non_empty_path none = none
non_empty_path (some no_segments) = none
non_empty_path (some (segment s args rest)) = some (segment s args rest)

unfoldable pub trait_module_path : Segments → String → Option Segments
unfolding split_trait
trait_module_path path trait_name = non_empty_path (split_trait path trait_name)

module _ (crate_name : String → Option FoundCrate) (cargo_crate_name : Option String)
    (parse_path : String → Option Segments) where
  abbrev is_current : String → Bool
  is_current lib = elim cargo_crate_name [ none ↦ false | some c ↦ c == lib ]

  unfoldable pub dataframe_mod_segments_for_crate : String → String → Option (List String)
  dataframe_mod_segments_for_crate package_name lib_crate_name = elim (crate_name package_name) [
    | none ↦ none
    | some (name resolved) ↦ some (resolved ∷ "dataframe" ∷ [])
    | some itself ↦
        some ((if is_current lib_crate_name then "crate" else lib_crate_name) ∷ "dataframe" ∷ [])
  ]

  abbrev pub is_module : Option (List String) → List String → Bool
  is_module none segments = false
  is_module (some expected) segments = same_names segments expected

  unfoldable pub is_builtin_default_dataframe_mod : Segments → Bool
  unfolding path_segment_names dataframe_mod_segments_for_crate same_names
  is_builtin_default_dataframe_mod path = elim (path_segment_names path) [
    | none ↦ false
    | some segments ↦
        is_module (dataframe_mod_segments_for_crate "df-derive" "df_derive") segments
        || is_module (dataframe_mod_segments_for_crate "df-derive-core" "df_derive_core") segments
  ]

  abbrev pub is_builtin : Option Segments → Bool
  is_builtin none = false
  is_builtin (some m) = is_builtin_default_dataframe_mod m

  -- the two blocks that follow the test of one override are the same
  abbrev pub not_mixed : Option Segments → Option Segments → Bool
  not_mixed (some to_df) (some columnar) = path_segments_equal to_df columnar
  not_mixed (some to_df) none = false
  not_mixed none columnar = false

  unfoldable pub mixed_builtin_runtime_override : Option Segments → Option Segments → Option Error
  unfolding trait_module_path is_builtin_default_dataframe_mod path_segments_equal
  mixed_builtin_runtime_override none columnar = none
  mixed_builtin_runtime_override (some to_df) none = none
  mixed_builtin_runtime_override (some to_df) (some columnar) =
      let to_df_module = trait_module_path to_df "ToDataFrame" in
      let columnar_module = trait_module_path columnar "Columnar" in
      let mixed : Option Error =
        if not_mixed to_df_module columnar_module then none else some mixed_builtin_runtime in
      let second : Option Error = if is_builtin columnar_module then mixed else none in
      if is_builtin to_df_module then elim mixed [ some e ↦ some e | none ↦ second ] else second

  unfoldable pub explicit_builtin_default_dataframe_mod :
      Option Segments → Option Segments → Option Segments
  unfolding trait_module_path is_builtin_default_dataframe_mod path_segments_equal
  explicit_builtin_default_dataframe_mod none columnar = none
  explicit_builtin_default_dataframe_mod (some to_df) columnar =
      let to_df_module = trait_module_path to_df "ToDataFrame" in
      elim to_df_module [
        | none ↦ none
        | some m ↦
            if is_builtin_default_dataframe_mod m
            then elim columnar [
              | none ↦ some m
              | some c ↦ elim (trait_module_path c "Columnar") [
                | none ↦ none
                | some cm ↦ if path_segments_equal m cm then some m else none
              ]
            ]
            else none
      ]

  unfoldable pub parse_trait_path_attr : Meta → String → Result Segments
  unfolding assigned_text
  parse_trait_path_attr meta label = do
    text ← assigned_text meta.value
    elim (parse_path text) [ none ↦ err (invalid_trait_path label) | some path ↦ ok path ]

  unfoldable pub container_key : ContainerAttrs → Meta → Result ContainerAttrs
  unfolding parse_trait_path_attr set_runtime_override
  container_key attrs meta =
      if meta.key == "trait"
      then (do
        path ← parse_trait_path_attr meta "trait"
        slot ← set_runtime_override attrs.to_dataframe "trait" path
        ok (record attrs { to_dataframe = slot }))
      else if meta.key == "columnar"
      then (do
        path ← parse_trait_path_attr meta "columnar trait"
        slot ← set_runtime_override attrs.columnar "columnar" path
        ok (record attrs { columnar = slot }))
      else if meta.key == "decimal128_encode"
      then (do
        path ← parse_trait_path_attr meta "decimal128_encode trait"
        slot ← set_runtime_override attrs.decimal128_encode "decimal128_encode" path
        ok (record attrs { decimal128_encode = slot }))
      else err unknown_container_key

  unfoldable pub container_attribute : ContainerAttrs → Attribute → Result ContainerAttrs
  unfolding container_key for_each
  container_attribute attrs attr =
      if attr.name == "df_derive" then for_each container_key attrs attr.metas else ok attrs

  -- the checks after the loop
  unfoldable pub check_overrides : ContainerAttrs → Result ContainerAttrs
  unfolding mixed_builtin_runtime_override
  check_overrides attrs =
      if is_some attrs.columnar && not (is_some attrs.to_dataframe)
      then err columnar_without_trait
      else elim (mixed_builtin_runtime_override attrs.to_dataframe attrs.columnar) [
        | some e ↦ err e
        | none ↦ ok attrs
      ]

  unfoldable pub parse_container_attrs : List Attribute → Result ContainerAttrs
  unfolding container_attribute check_overrides for_each
  parse_container_attrs attributes = do
    attrs ←
        for_each container_attribute
          (record { to_dataframe = none; columnar = none; decimal128_encode = none }) attributes
    check_overrides attrs
