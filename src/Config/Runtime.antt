-- ===== src/Config/Runtime.antt =====
-- The runtime module that df-derive-macros/src/codegen/config.rs settles on.
use df_derive.Prelude.{
  ◌&&◌, not, ◌≡◌, ◌∙◌, refl, sym, Option, none, some, String, List, is_some, if◌then◌else◌,
  Bool-cases, inl, inr,
}
use df_derive.Syn.{Segments}
use df_derive.Errors.{Returns, Returns-bind}
use df_derive.Attrs.{
  Attribute, ContainerAttrs, FoundCrate, split_trait, trait_module_path,
  is_builtin_default_dataframe_mod, parse_container_attrs,
}
use df_derive.Attributes.Runtime.{
  Consistent, builtin_module, module_of, explicit-of, parse_container_attrs-Consistent,
}
use df_derive.Config.{
  ExternalRoots, default_runtime_paths, direct_dependency_paths, MacroConfig, runtime_trait_path,
  dataframe_of, or_else, roots_of, resolve_default_dataframe_mod, resolve_dataframe_mod_for_crate,
  is_expanding_lib_target, config_of, build_macro_config,
}

-- Where Polars is taken from below a runtime module, that module holds the `ToDataFrame` trait.
abbrev pub FromRuntime : ExternalRoots → Segments → Type 0
FromRuntime direct_dependency_paths to_df = Unit
FromRuntime (default_runtime_paths m) to_df = trait_module_path to_df "ToDataFrame" ≡ some m

-- the trait at the end of a module's path leads back to the module
abbrev module_at : Option Segments → Option Segments
module_at none = none
module_at (some t) = trait_module_path t "ToDataFrame"

abbrev LeadsBack : Segments → Type 0
LeadsBack m = trait_module_path (runtime_trait_path m "ToDataFrame") "ToDataFrame" ≡ some m

abbrev AnyLeadsBack : Option Segments → Type 0
AnyLeadsBack none = Unit
AnyLeadsBack (some m) = LeadsBack m

dataframe_of-LeadsBack : (root : String) → LeadsBack (dataframe_of root)
unfolding trait_module_path runtime_trait_path split_trait
dataframe_of-LeadsBack root = refl

or_else-LeadsBack :
    (o : Option Segments) (m : Segments) → AnyLeadsBack o → LeadsBack m → LeadsBack (or_else o m)
or_else-LeadsBack none m h k = k
or_else-LeadsBack (some p) m h k = h

roots-FromRuntime :
    (t c o : Option Segments) (default_mod : Segments)
    → LeadsBack default_mod
    → ((m : Segments) → o ≡ some m → module_at t ≡ some m)
    → FromRuntime
        (roots_of o (not (is_some t) && not (is_some c)) default_mod)
        (or_else t (runtime_trait_path default_mod "ToDataFrame"))
roots-FromRuntime none c (some m) default_mod d h = absurd (cc (h m refl))
roots-FromRuntime (some t) c (some m) default_mod d h = h m refl
roots-FromRuntime none none none default_mod d h = d
roots-FromRuntime none (some c) none default_mod d h = tt
roots-FromRuntime (some t) c none default_mod d h = tt

module _ (crate_name : String → Option FoundCrate) (cargo_crate_name : Option String)
    (parse_path : String → Option Segments) where
  crate-AnyLeadsBack :
      (krate lib : String)
      → AnyLeadsBack
          (resolve_dataframe_mod_for_crate crate_name cargo_crate_name parse_path krate lib)
  unfolding resolve_dataframe_mod_for_crate
  crate-AnyLeadsBack krate lib =
      elim (crate_name krate)
        as (λ f. AnyLeadsBack (elim f [
          | none ↦ none
          | some (FoundCrate.name resolved) ↦ some (dataframe_of resolved)
          | some FoundCrate.itself ↦
              if is_expanding_lib_target crate_name cargo_crate_name parse_path lib
              then some (dataframe_of "crate")
              else some (dataframe_of lib)
        ])) [
          | none ↦ tt
          | some (FoundCrate.name resolved) ↦ dataframe_of-LeadsBack resolved
          | some FoundCrate.itself ↦
              elim (Bool-cases
                (is_expanding_lib_target crate_name cargo_crate_name parse_path lib)) [
                  | inl e ↦ rw e (dataframe_of-LeadsBack "crate")
                  | inr e ↦ rw e (dataframe_of-LeadsBack lib)
                ]
        ]

  default-LeadsBack :
      LeadsBack (resolve_default_dataframe_mod crate_name cargo_crate_name parse_path)
  unfolding resolve_default_dataframe_mod trait_module_path runtime_trait_path split_trait
  default-LeadsBack = or_else-LeadsBack _ _ (crate-AnyLeadsBack "df-derive" "df_derive") (
      or_else-LeadsBack _ _ (crate-AnyLeadsBack "df-derive-core" "df_derive_core") (
        or_else-LeadsBack _ _ (crate-AnyLeadsBack "paft-utils" "paft_utils")
          (or_else-LeadsBack _ _ (crate-AnyLeadsBack "paft" "paft") refl)))

  builtin-module_at :
      (o : Option Segments) (m : Segments)
      → builtin_module crate_name cargo_crate_name parse_path o ≡ some m
      → o ≡ some m
  builtin-module_at none m h = h
  builtin-module_at (some n) m h =
      elim (Bool-cases
        (is_builtin_default_dataframe_mod crate_name cargo_crate_name parse_path n)) [
          | inl e ↦ rw e at h
          | inr e ↦ absurd (cc (rw e at h))
        ]

  config_of-FromRuntime :
      (attrs : ContainerAttrs)
      → Consistent crate_name cargo_crate_name parse_path attrs.to_dataframe attrs.columnar
      → FromRuntime
          (config_of crate_name cargo_crate_name parse_path attrs).external_paths
          (config_of crate_name cargo_crate_name parse_path attrs).to_dataframe
  unfolding config_of
  config_of-FromRuntime attrs k =
      roots-FromRuntime attrs.to_dataframe attrs.columnar _ _ default-LeadsBack λ m e.
        builtin-module_at (module_of crate_name cargo_crate_name parse_path attrs.to_dataframe) m (
          sym
            (explicit-of crate_name cargo_crate_name parse_path attrs.to_dataframe attrs.columnar k)
          ∙ e)

  -- Of an accepted struct, where the generated code takes Polars from below a runtime module, the
  -- `ToDataFrame` trait that it implements is the one of that module.
  pub build_macro_config-FromRuntime :
      (attributes : List Attribute)
      → Returns
          (λ c. FromRuntime c.external_paths c.to_dataframe)
          (build_macro_config crate_name cargo_crate_name parse_path attributes)
  unfolding build_macro_config
  build_macro_config-FromRuntime attributes =
      Returns-bind
        (λ (a : ContainerAttrs).
          Consistent crate_name cargo_crate_name parse_path a.to_dataframe a.columnar)
        (λ (c : MacroConfig). FromRuntime c.external_paths c.to_dataframe)
        (parse_container_attrs crate_name cargo_crate_name parse_path attributes) _
        (parse_container_attrs-Consistent crate_name cargo_crate_name parse_path attributes)
        (λ a k. config_of-FromRuntime a k)
