-- ===== src/Config.antt =====
-- df-derive-macros/src/codegen/config.rs: the trait paths and the roots of the external crates that the
-- generated code uses. The lookup of a package, CARGO_CRATE_NAME and syn's parser are parameters.
pub mod Runtime
use df_derive.Prelude.{
  Bool, true, false, ◌&&◌, not, Option, none, some, String, List, is_some, if◌then◌else◌, ◌==◌,
}
use df_derive.Syn.{Segments, no_segments, segment, no_arguments}
use df_derive.Errors.{Result, ok, ◌>>=◌}
use df_derive.Attrs.{
  Attribute, ContainerAttrs, FoundCrate, rebase_last_segment,
  explicit_builtin_default_dataframe_mod, parse_container_attrs,
}

-- the roots of Polars: below a runtime module, or direct dependencies
pub data ExternalRoots : Type 0 where
  default_runtime_paths : Segments → ExternalRoots
  direct_dependency_paths : ExternalRoots

pub record MacroConfig : Type 0 where
  pub to_dataframe : Segments
  pub columnar : Segments
  pub decimal128_encode : Segments
  pub external_paths : ExternalRoots

unfoldable pub runtime_trait_path : Segments → String → Segments
runtime_trait_path no_segments trait_name = segment trait_name no_arguments no_segments
runtime_trait_path (segment s args rest) trait_name =
    segment s args (runtime_trait_path rest trait_name)

abbrev pub dataframe_of : String → Segments
dataframe_of root = segment root no_arguments (segment "dataframe" no_arguments no_segments)

abbrev pub or_else : Option Segments → Segments → Segments
or_else none other = other
or_else (some p) other = p

-- the override, the sibling of the `ToDataFrame` override, or the default
abbrev pub trait_of : Option Segments → Option Segments → Segments → String → Segments
trait_of (some own) to_df default_mod trait_name = own
trait_of none (some to_df) default_mod trait_name = rebase_last_segment to_df trait_name
trait_of none none default_mod trait_name = runtime_trait_path default_mod trait_name

abbrev pub roots_of : Option Segments → Bool → Segments → ExternalRoots
roots_of (some m) uses_default default_mod = default_runtime_paths m
roots_of none true default_mod = default_runtime_paths default_mod
roots_of none false default_mod = direct_dependency_paths

module _ (crate_name : String → Option FoundCrate) (cargo_crate_name : Option String)
    (parse_path : String → Option Segments) where
  unfoldable pub is_expanding_lib_target : String → Bool
  is_expanding_lib_target lib_crate_name = elim cargo_crate_name [
    | none ↦ false
    | some c ↦ c == lib_crate_name
  ]

  unfoldable pub resolve_dataframe_mod_for_crate : String → String → Option Segments
  unfolding is_expanding_lib_target
  resolve_dataframe_mod_for_crate krate lib_crate_name = elim (crate_name krate) [
    | none ↦ none
    | some (FoundCrate.name resolved) ↦ some (dataframe_of resolved)
    | some FoundCrate.itself ↦
        if is_expanding_lib_target lib_crate_name
        then some (dataframe_of "crate")
        else some (dataframe_of lib_crate_name)
  ]

  unfoldable pub resolve_default_dataframe_mod : Segments
  unfolding resolve_dataframe_mod_for_crate
  resolve_default_dataframe_mod =
      or_else (resolve_dataframe_mod_for_crate "df-derive" "df_derive") (
        or_else (resolve_dataframe_mod_for_crate "df-derive-core" "df_derive_core") (
          or_else (resolve_dataframe_mod_for_crate "paft-utils" "paft_utils") (
            or_else (resolve_dataframe_mod_for_crate "paft" "paft")
              (segment "crate" no_arguments (dataframe_of "core")))))

  unfoldable pub config_of : ContainerAttrs → MacroConfig
  unfolding resolve_default_dataframe_mod rebase_last_segment runtime_trait_path
      explicit_builtin_default_dataframe_mod
  config_of attrs =
      let default_mod = resolve_default_dataframe_mod in
      record {
        to_dataframe = or_else attrs.to_dataframe (runtime_trait_path default_mod "ToDataFrame");
        columnar = trait_of attrs.columnar attrs.to_dataframe default_mod "Columnar";
        decimal128_encode =
            trait_of attrs.decimal128_encode attrs.to_dataframe default_mod "Decimal128Encode";
        external_paths =
            roots_of
              (explicit_builtin_default_dataframe_mod crate_name cargo_crate_name parse_path
                attrs.to_dataframe attrs.columnar)
              (not (is_some attrs.to_dataframe) && not (is_some attrs.columnar)) default_mod;
      }

  unfoldable pub build_macro_config : List Attribute → Result MacroConfig
  unfolding parse_container_attrs config_of
  build_macro_config attributes = do
    attrs ← parse_container_attrs crate_name cargo_crate_name parse_path attributes
    ok (config_of attrs)
