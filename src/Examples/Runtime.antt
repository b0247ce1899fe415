-- ===== src/Examples/Runtime.antt =====
-- The theorems on container attributes, at concrete inputs.
use df_derive.Prelude.{◌≡◌, Option, none, some, String, List, [], ◌∷◌, ◌==◌, if◌then◌else◌}
use df_derive.Syn.{Segments, no_segments, segment, no_arguments}
use df_derive.Errors.{Returns}
use df_derive.Attrs.{Attribute, assigned, text}
use df_derive.Attrs.{FoundCrate, parse_container_attrs, explicit_builtin_default_dataframe_mod}
use df_derive.Attributes.Runtime.{
  Consistent, builtin_module, module_of, parse_container_attrs-Consistent,
  parse_container_attrs-explicit,
}
use df_derive.Config.{build_macro_config}
use df_derive.Config.Runtime.{FromRuntime, build_macro_config-FromRuntime}

abbrev found : String → Option FoundCrate
found krate = if krate == "df-derive" then some (FoundCrate.name "df_derive") else none

abbrev path_of : String → Segments
path_of last =
    segment "df_derive" no_arguments
      (segment "dataframe" no_arguments (segment last no_arguments no_segments))

abbrev paths : String → Option Segments
paths source =
    if source == "df_derive::dataframe::ToDataFrame"
    then some (path_of "ToDataFrame")
    else if source == "df_derive::dataframe::Columnar"
    then some (path_of "Columnar")
    else none

abbrev both_overrides : List Attribute
both_overrides =
    record {
      name = "df_derive";
      metas =
          record { key = "trait"; value = assigned (text "df_derive::dataframe::ToDataFrame") }
          ∷ record { key = "columnar"; value = assigned (text "df_derive::dataframe::Columnar") }
          ∷ [];
    }
    ∷ []

parse_container_attrs-Consistent_example :
    Returns
      (λ a. Consistent found (some "app") paths a.to_dataframe a.columnar)
      (parse_container_attrs found (some "app") paths both_overrides)
parse_container_attrs-Consistent_example =
    parse_container_attrs-Consistent found (some "app") paths both_overrides

parse_container_attrs-explicit_example :
    Returns
      (λ a.
        explicit_builtin_default_dataframe_mod found (some "app") paths a.to_dataframe a.columnar
        ≡ builtin_module found
            (some "app")
            paths
            (module_of found (some "app") paths a.to_dataframe))
      (parse_container_attrs found (some "app") paths both_overrides)
parse_container_attrs-explicit_example =
    parse_container_attrs-explicit found (some "app") paths both_overrides

build_macro_config-FromRuntime_example :
    Returns
      (λ c. FromRuntime c.external_paths c.to_dataframe)
      (build_macro_config found (some "app") paths both_overrides)
build_macro_config-FromRuntime_example =
    build_macro_config-FromRuntime found (some "app") paths both_overrides
