-- ===== src/TypeAnalysis/Rejections.antt =====
-- df-derive-macros/src/type_analysis/rejections.rs
use df_derive.Prelude.{
  Bool, false, not, ◌&&◌, ◌||◌, Option, none, some, String, List, [], ◌∷◌, contains, find, eqb,
  ◌==◌, if◌then◌else◌,
}
use df_derive.Syn.{SynType, path, slice, Segments, segment, no_segments, PathArguments}
use df_derive.Errors.{
  Result, ok, err, UnsupportedCollection, hash_map, b_tree_map, hash_set, b_tree_set, vec_deque,
  linked_list, unsupported_collection, bare_duration, bare_str, bare_slice,
}
use df_derive.TypeAnalysis.PathMatch.{segments_len, is_no_arguments, prefix_no_args, leaf}
use df_derive.TypeAnalysis.KnownTypes.{is_bare_str_type}

abbrev all_collections : List UnsupportedCollection
all_collections = hash_map ∷ b_tree_map ∷ hash_set ∷ b_tree_set ∷ vec_deque ∷ linked_list ∷ []

abbrev collection_name : UnsupportedCollection → String
collection_name hash_map = "HashMap"
collection_name b_tree_map = "BTreeMap"
collection_name hash_set = "HashSet"
collection_name b_tree_set = "BTreeSet"
collection_name vec_deque = "VecDeque"
collection_name linked_list = "LinkedList"

leaf_is_named : Option (String × PathArguments) → String → Bool
leaf_is_named none name = false
leaf_is_named (some (ident, _)) name = ident == name

path_is_bare_or_std_collection : Bool → Segments → String → Bool
unfolding leaf_is_named leaf prefix_no_args
path_is_bare_or_std_collection q s name =
    not q
    && (leaf_is_named (leaf s) name
        && (eqb (segments_len s) 1
            || (eqb (segments_len s) 3 && prefix_no_args q s ("std" ∷ "collections" ∷ []))))

pub unsupported_collection_kind : Bool → Segments → Option UnsupportedCollection
unfolding path_is_bare_or_std_collection
unsupported_collection_kind q s =
    find (λ c. path_is_bare_or_std_collection q s (collection_name c)) all_collections

unfoldable pub reject_unsupported_collection_type : SynType → Result (Unit {0})
unfolding unsupported_collection_kind
reject_unsupported_collection_type (path q s) = elim (unsupported_collection_kind q s) [
  | some c ↦ err (unsupported_collection c)
  | none ↦ ok tt
]
reject_unsupported_collection_type _ = ok tt

unfoldable pub reject_bare_duration : SynType → List String → Result (Unit {0})
unfolding is_no_arguments
reject_bare_duration (path false (segment ident args no_segments)) generic_params =
    if ident == "Duration" && (is_no_arguments args && not (contains generic_params ident))
    then err bare_duration
    else ok tt
reject_bare_duration _ generic_params = ok tt

unfoldable pub reject_bare_unsized_leaf : SynType → Result (Unit {0})
unfolding is_bare_str_type
reject_bare_unsized_leaf (slice _) = err bare_slice
reject_bare_unsized_leaf ty = if is_bare_str_type ty then err bare_str else ok tt
