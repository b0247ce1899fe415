-- ===== src/TypeAnalysis/PathMatch.antt =====
-- df-derive-macros/src/type_analysis/path_match.rs. A `TypePath` is its `qself` flag and segments;
-- `PathView::from_type_path` gives a view only where there is no `qself`.
use df_derive.Prelude.{
  ℕ, suc, ◌+◌, Bool, true, false, not, ◌&&◌, ◌||◌, Option, none, some, String, List, [], ◌∷◌,
  length, eqb, ltb, ◌==◌,
}
use df_derive.Syn.{Segments, no_segments, segment, PathArguments, no_arguments}

abbrev pub segments_len : Segments → ℕ
segments_len no_segments = 0
segments_len (segment _ _ rest) = suc (segments_len rest)

unfoldable pub is_no_arguments : PathArguments → Bool
is_no_arguments no_arguments = true
is_no_arguments _ = false

-- `segments.iter().zip(expected).all(…)`, the arguments forbidden everywhere
zip_all_no_args : Segments → List String → Bool
unfolding is_no_arguments
zip_all_no_args (segment ident args rest) (name ∷ names) =
    (ident == name && is_no_arguments args) && zip_all_no_args rest names
zip_all_no_args _ _ = true

-- the same where the segment at `idx + 1 == len` may have arguments
zip_all_leaf_args : ℕ → ℕ → Segments → List String → Bool
unfolding is_no_arguments
zip_all_leaf_args idx len (segment ident args rest) (name ∷ names) =
    (ident == name && (eqb (idx + 1) len || is_no_arguments args))
    && zip_all_leaf_args (idx + 1) len rest names
zip_all_leaf_args _ _ _ _ = true

unfoldable pub exact_no_args : Bool → Segments → List String → Bool
unfolding zip_all_no_args
exact_no_args qself s names =
    not qself && (eqb (segments_len s) (length names) && zip_all_no_args s names)

unfoldable pub exact_with_leaf_args : Bool → Segments → List String → Bool
unfolding zip_all_leaf_args
exact_with_leaf_args qself s names =
    not qself && (eqb (segments_len s) (length names) && zip_all_leaf_args 0 (length names) s names)

unfoldable pub prefix_no_args : Bool → Segments → List String → Bool
unfolding zip_all_no_args
prefix_no_args qself s names =
    not qself && (ltb (length names) (segments_len s) && zip_all_no_args s names)

-- `segments.last()`
unfoldable pub leaf : Segments → Option (String × PathArguments)
leaf no_segments = none
leaf (segment ident args no_segments) = some (ident, args)
leaf (segment _ _ rest) = leaf rest

unfoldable pub wrapper_path_matches : Bool → Segments → String → List String → Bool
unfolding exact_with_leaf_args
wrapper_path_matches qself s bare qualified =
    exact_with_leaf_args qself s (bare ∷ []) || exact_with_leaf_args qself s qualified
