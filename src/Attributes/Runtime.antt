-- ===== src/Attributes/Runtime.antt =====
-- The runtime traits that df-derive-macros/src/attrs/container.rs accepts.
use df_derive.Prelude.{
  Bool, true, false, ◌&&◌, not, subst, ◌≡◌, ◌⊎◌, inl, inr, refl, sym, ◌∙◌, Option, none, some,
  String, List, is_some, arith, if◌then◌else◌,
}
use df_derive.Syn.{Segments}
use df_derive.Errors.{
  Error, ok, err, Returns, Returns-bind, Returns-any, Returns-weaken, columnar_without_trait,
  mixed_builtin_runtime,
}
use df_derive.Attrs.{
  Attribute, for_each, ContainerAttrs, FoundCrate, path_segments_equal, trait_module_path,
  is_builtin_default_dataframe_mod, is_builtin, not_mixed, mixed_builtin_runtime_override,
  explicit_builtin_default_dataframe_mod, container_attribute, check_overrides,
  parse_container_attrs,
}

some-eq : (a b : Segments) → some a ≡ some b → a ≡ b
some-eq a b h = cc

-- both modules are there, with the same names
abbrev pub SameModule : Segments → Segments → Type 0
SameModule to_df columnar =
    (m : Segments) × (m' : Segments) × (trait_module_path to_df "ToDataFrame" ≡ some m)
    × (trait_module_path columnar "Columnar" ≡ some m')
    × (path_segments_equal m m' ≡ true)

neither-or :
    (a b : Bool) (P : Type 0) → ((a ≡ true) ⊎ (b ≡ true) → P) → ((a ≡ false) × (b ≡ false)) ⊎ P
neither-or true b P f = inr (f (inl refl))
neither-or false true P f = inr (f (inr refl))
neither-or false false P f = inl (refl, refl)

module _ (crate_name : String → Option FoundCrate) (cargo_crate_name : Option String)
    (parse_path : String → Option Segments) where
  -- neither module is that of the built-in runtime
  abbrev pub BothCustom : Segments → Segments → Type 0
  BothCustom to_df columnar =
      (is_builtin crate_name cargo_crate_name parse_path (trait_module_path to_df "ToDataFrame")
        ≡ false)
      × (is_builtin crate_name cargo_crate_name parse_path (trait_module_path columnar "Columnar")
          ≡ false)

  -- What an accepted pair of overrides is: `columnar` only beside `trait`, and of a pair either neither
  -- names the built-in runtime, or both name the same module.
  abbrev pub Consistent : Option Segments → Option Segments → Type 0
  Consistent to_df none = Unit
  Consistent none (some columnar) = ⊥
  Consistent (some to_df) (some columnar) = BothCustom to_df columnar ⊎ SameModule to_df columnar

  not_mixed-SameModule :
      (o o' : Option Segments)
      → not_mixed crate_name cargo_crate_name parse_path o o' ≡ true
      → (m : Segments) × (m' : Segments) × (o ≡ some m)
        × (o' ≡ some m')
        × (path_segments_equal m m' ≡ true)
  not_mixed-SameModule (some m) (some m') h = (m, m', refl, refl, h)
  not_mixed-SameModule (some m) none h = cc
  not_mixed-SameModule none o' h = cc

  mixed-same :
      (a b same : Bool)
      → (let mixed : Option Error = if same then none else some mixed_builtin_runtime in
          let second : Option Error = if b then mixed else none in
          if a then elim mixed [ some e ↦ some e | none ↦ second ] else second)
        ≡ none
      → (a ≡ true) ⊎ (b ≡ true)
      → same ≡ true
  mixed-same a b true h k = refl
  mixed-same true b false h k = cc
  mixed-same false true false h k = cc
  mixed-same false false false h (inl e) = cc
  mixed-same false false false h (inr e) = cc

  Consistent-of :
      (t c : Option Segments)
      → (is_some c && not (is_some t)) ≡ false
      → mixed_builtin_runtime_override crate_name cargo_crate_name parse_path t c ≡ none
      → Consistent t c
  unfolding mixed_builtin_runtime_override
  Consistent-of t none g h = tt
  Consistent-of none (some c) g h = cc
  Consistent-of (some t) (some c) g h =
      neither-or
        (is_builtin crate_name cargo_crate_name parse_path (trait_module_path t "ToDataFrame"))
        (is_builtin crate_name cargo_crate_name parse_path (trait_module_path c "Columnar"))
        (SameModule t c)
        (λ k.
          not_mixed-SameModule (trait_module_path t "ToDataFrame") (trait_module_path c "Columnar")
            (mixed-same
              (is_builtin crate_name cargo_crate_name parse_path
                (trait_module_path t "ToDataFrame"))
              (is_builtin crate_name cargo_crate_name parse_path (trait_module_path c "Columnar")) _
              h k))

  same_of_builtin :
      (t c : Segments)
      → is_builtin crate_name cargo_crate_name parse_path (trait_module_path t "ToDataFrame") ≡ true
      → BothCustom t c ⊎ SameModule t c
      → SameModule t c
  same_of_builtin t c h (inl k) = absurd (cc (h, k.0))
  same_of_builtin t c h (inr k) = k

  checked :
      (attrs : ContainerAttrs) (P : Type 0) (refuse : Bool) (mixed : Option Error)
      → (refuse ≡ false → mixed ≡ none → P)
      → Returns
          (λ a. (a ≡ attrs) × P)
          (if refuse
            then err columnar_without_trait
            else elim mixed [ some e ↦ err e | none ↦ ok attrs ])
  checked attrs P true mixed h = tt
  checked attrs P false (some e) h = tt
  checked attrs P false none h = (refl, h refl refl)

  check_overrides-Consistent :
      (attrs : ContainerAttrs)
      → Returns
          (λ a. Consistent a.to_dataframe a.columnar)
          (check_overrides crate_name cargo_crate_name parse_path attrs)
  unfolding check_overrides
  check_overrides-Consistent attrs =
      Returns-weaken
        (λ (a : ContainerAttrs). (a ≡ attrs) × Consistent attrs.to_dataframe attrs.columnar)
        (λ (a : ContainerAttrs). Consistent a.to_dataframe a.columnar) _
        (λ a h. subst (λ (b : ContainerAttrs). Consistent b.to_dataframe b.columnar) (sym h.0) h.1)
        (checked attrs (Consistent attrs.to_dataframe attrs.columnar)
          (is_some attrs.columnar && not (is_some attrs.to_dataframe))
          (mixed_builtin_runtime_override crate_name cargo_crate_name parse_path attrs.to_dataframe
            attrs.columnar)
          (Consistent-of attrs.to_dataframe attrs.columnar))

  -- An accepted struct overrides `Columnar` only beside `ToDataFrame`, and of two overrides either
  -- neither path leads to the built-in runtime, or both lead to modules of the same names.
  pub parse_container_attrs-Consistent :
      (attributes : List Attribute)
      → Returns
          (λ a. Consistent a.to_dataframe a.columnar)
          (parse_container_attrs crate_name cargo_crate_name parse_path attributes)
  unfolding parse_container_attrs
  parse_container_attrs-Consistent attributes =
      Returns-bind (λ (a : ContainerAttrs). Unit)
        (λ (a : ContainerAttrs). Consistent a.to_dataframe a.columnar)
        (for_each (container_attribute crate_name cargo_crate_name parse_path)
          (record { to_dataframe = none; columnar = none; decimal128_encode = none }) attributes)
        (check_overrides crate_name cargo_crate_name parse_path) (Returns-any _)
        (λ a _. check_overrides-Consistent a)

  -- the module of a trait path, where it is the built-in runtime
  abbrev pub builtin_module : Option Segments → Option Segments
  builtin_module none = none
  builtin_module (some m) =
      if is_builtin_default_dataframe_mod crate_name cargo_crate_name parse_path m
      then some m
      else none

  explicit-module :
      (m : Segments) (b : Bool) (c : Option Segments)
      → ((columnar : Segments)
          → c ≡ some columnar
          → b ≡ true
          → (m' : Segments) × (trait_module_path columnar "Columnar" ≡ some m')
            × (path_segments_equal m m' ≡ true))
      → (if b
          then elim c [
            | none ↦ some m
            | some columnar ↦ elim (trait_module_path columnar "Columnar") [
              | none ↦ none
              | some cm ↦ if path_segments_equal m cm then some m else none
            ]
          ]
          else none)
        ≡ (if b then some m else none)
  explicit-module m false c h = refl
  explicit-module m true none h = refl
  explicit-module m true (some columnar) h =
      ground (arith, (h columnar refl refl).1, (h columnar refl refl).2)

  by_module :
      (t : Segments) (c o : Option Segments)
      → trait_module_path t "ToDataFrame" ≡ o
      → Consistent (some t) c
      → elim o [
        | none ↦ none
        | some m ↦
            if is_builtin_default_dataframe_mod crate_name cargo_crate_name parse_path m
            then elim c [
              | none ↦ some m
              | some columnar ↦ elim (trait_module_path columnar "Columnar") [
                | none ↦ none
                | some cm ↦ if path_segments_equal m cm then some m else none
              ]
            ]
            else none
      ]
        ≡ builtin_module o
  by_module t c none e k = refl
  by_module t c (some m) e k =
      explicit-module m (is_builtin_default_dataframe_mod crate_name cargo_crate_name parse_path m)
        c
        λ columnar here builtin.
          let same : SameModule t columnar =
            same_of_builtin t columnar (rw e builtin) (subst (Consistent (some t)) here k) in
          (
            same.1,
            same.3,
            subst (λ x. path_segments_equal x same.1 ≡ true) (some-eq same.0 m (sym same.2 ∙ e))
                same.4,
          )

  abbrev pub module_of : Option Segments → Option Segments
  module_of none = none
  module_of (some t) = trait_module_path t "ToDataFrame"

  pub explicit-of :
      (t c : Option Segments)
      → Consistent t c
      → explicit_builtin_default_dataframe_mod crate_name cargo_crate_name parse_path t c
        ≡ builtin_module (module_of t)
  unfolding explicit_builtin_default_dataframe_mod
  explicit-of none c k = refl
  explicit-of (some t) c k = by_module t c (trait_module_path t "ToDataFrame") refl k

  -- Of an accepted struct, the explicit built-in runtime is the module of the `ToDataFrame` override
  -- exactly where that module is built in: the comparison with the `Columnar` override never fails.
  pub parse_container_attrs-explicit :
      (attributes : List Attribute)
      → Returns
          (λ a.
            explicit_builtin_default_dataframe_mod crate_name cargo_crate_name parse_path
              a.to_dataframe a.columnar
            ≡ builtin_module (module_of a.to_dataframe))
          (parse_container_attrs crate_name cargo_crate_name parse_path attributes)
  parse_container_attrs-explicit attributes =
      Returns-weaken (λ (a : ContainerAttrs). Consistent a.to_dataframe a.columnar) _ _
        (λ a h. explicit-of a.to_dataframe a.columnar h)
        (parse_container_attrs-Consistent attributes)
