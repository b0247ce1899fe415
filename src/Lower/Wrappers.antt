-- ===== src/Lower/Wrappers.antt =====
-- df-derive-macros/src/lower/wrappers.rs and binary.rs
use df_derive.Prelude.{
  Option, none, some, String, List, [], ◌∷◌, ◌++◌, length, get_last?, drop_last, eqb, if◌then◌else◌,
}
use df_derive.Ir.{
  AccessChain, AccessStep, option_layers, VecLayerSpec, WrapperShape, from_vec, from_option_access,
  LeafSpec, NumericKind,
}
use df_derive.Errors.{
  Result, ok, err, bare_binary_u8, binary_inner_option, binary_wrong_base, binary_cow_slice,
  binary_borrowed_slice,
}
use df_derive.TypeAnalysis.{
  RawWrapper, option, vec, smart_ptr, AnalyzedBase, numeric, cow_bytes, borrowed_bytes,
  borrowed_slice, cow_slice,
}

-- the variables of the loop: the layers so far, and the steps since the last `Vec`
pub record Pending : Type 0 where
  pub layers : List VecLayerSpec
  pub access : AccessChain

unfoldable pub normalize_step : Pending → RawWrapper → Pending
unfolding option_layers
normalize_step p option = record p { access = p.access ++ AccessStep.option ∷ [] }
normalize_step p smart_ptr = record p { access = p.access ++ AccessStep.smart_ptr ∷ [] }
normalize_step p vec = record {
  layers =
      p.layers ++ record { option_layers_above = option_layers p.access; access = p.access } ∷ [];
  access = [];
}

unfoldable pub normalize_loop : Pending → List RawWrapper → Pending
unfolding normalize_step
normalize_loop p [] = p
normalize_loop p (w ∷ ws) = normalize_loop (normalize_step p w) ws

unfoldable pub shape_of_pending : Pending → WrapperShape
unfolding from_vec from_option_access option_layers
shape_of_pending p = elim (from_vec p.layers) [
  | none ↦ WrapperShape.leaf (from_option_access (option_layers p.access) p.access)
  | some layers ↦ WrapperShape.vec (record {
    layers = layers;
    inner_option_layers = option_layers p.access;
    inner_access = p.access;
  })
]

unfoldable pub normalize_wrappers : List RawWrapper → WrapperShape
unfolding normalize_loop shape_of_pending
normalize_wrappers ws = shape_of_pending (normalize_loop (record { layers = []; access = [] }) ws)

-- a `u8` base: what its innermost wrapper is
unfoldable pub binary_of_u8 :
    String → List RawWrapper → Option RawWrapper → Result (LeafSpec × List RawWrapper)
binary_of_u8 name ws none = err (bare_binary_u8 name)
binary_of_u8 name ws (some option) =
    if eqb (length ws) 1 then err (bare_binary_u8 name) else err (binary_inner_option name)
binary_of_u8 name ws (some vec) = ok (LeafSpec.binary, drop_last ws)
binary_of_u8 name ws (some smart_ptr) = err (binary_wrong_base name)

unfoldable pub parse_as_binary_shape :
    String → AnalyzedBase → List RawWrapper → Result (LeafSpec × List RawWrapper)
unfolding binary_of_u8
parse_as_binary_shape name cow_bytes ws = ok (LeafSpec.binary, ws)
parse_as_binary_shape name borrowed_bytes ws = ok (LeafSpec.binary, ws)
parse_as_binary_shape name borrowed_slice ws = err (binary_borrowed_slice name)
parse_as_binary_shape name cow_slice ws = err (binary_cow_slice name)
parse_as_binary_shape name (numeric NumericKind.u8) ws = binary_of_u8 name ws (get_last? ws)
parse_as_binary_shape name base ws = err (binary_wrong_base name)
