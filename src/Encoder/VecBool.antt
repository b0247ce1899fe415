-- ===== src/Encoder/VecBool.antt =====
-- `try_build_vec_encoder` of df-derive-macros/src/codegen/encoder/vec.rs for a Boolean leaf: the scan of
-- Encoder.Scan, or `bool_bare_depth1_body` for a plain `Vec<bool>`.
pub mod BareScan
pub mod Agreement
pub mod Finish
use df_derive.Prelude.{
  ℕ, Bool, true, false, ◌&&◌, not, Option, none, some, List, [], ◌∷◌, ◌++◌, length, is_empty, ltb,
  eqb, if◌then◌else◌,
}
use df_derive.Ir.{
  AccessChain, option_layers, VecLayerSpec, VecLayers, to_vec, depth, any_outer_validity,
  has_inner_option,
}
use df_derive.Encoder.Outcome.{Outcome, done, ill_typed, ◌then◌, list_offset_i64}
use df_derive.Encoder.Following.{El, collapse}
use df_derive.Encoder.Leaf.{BoolBuf, bool_pieces}
use df_derive.Encoder.Scan.{Row, Bufs, scan_each, emit_rows}

-- the locals of the body; the offsets are kept without the 0 that is pushed first
pub record BareBools : Type 0 where
  pub flat : List Bool
  pub inner_offsets : List ℕ

-- What `(&access).iter().copied()` goes over: a list of `bool`, behind smart pointers at most. For any
-- other field the expression has no type.
unfoldable pub plain_bools :
    (ls : List VecLayerSpec) (inner : AccessChain) → Row ls inner Bool → Option (List Bool)
unfolding Row El collapse option_layers
plain_bools [] inner x = none
plain_bools (l ∷ []) [] x = if ltb 0 (option_layers l.access) then none else collapse l.access x
plain_bools (l ∷ []) (step ∷ inner) x = none
plain_bools (l ∷ k ∷ ls) inner x = none

-- one turn of the second loop; the first loop only counts for `with_capacity`
unfoldable pub bare_turn : Option (List Bool) → BareBools → Outcome BareBools
unfolding list_offset_i64
bare_turn none b = ill_typed
bare_turn (some xs) b = list_offset_i64 (length (b.flat ++ xs)) then λ offset.
    done (record { flat = b.flat ++ xs; inner_offsets = b.inner_offsets ++ offset ∷ [] })

unfoldable pub bool_bare_depth1_body :
    (ls : List VecLayerSpec) (inner : AccessChain) → List (Row ls inner Bool) → Outcome BareBools
unfolding scan_each bare_turn plain_bools
bool_bare_depth1_body ls inner items =
    scan_each (λ x. bare_turn (plain_bools ls inner x)) items
      (record { flat = []; inner_offsets = [] })

-- the finished buffers of a Boolean column
pub data BoolColumn (ls : List VecLayerSpec) : Type 0 where
  from_slice : BareBools → BoolColumn ls
  scanned : Bufs ls BoolBuf → BoolColumn ls

unfoldable pub is_plain : VecLayers → Bool
unfolding depth any_outer_validity
is_plain v = eqb (depth v) 1 && not (any_outer_validity v) && is_empty v.inner_access

unfoldable pub vec_encoder_scan :
    (v : VecLayers)
    → List (Row (to_vec v.layers) v.inner_access Bool)
    → Outcome (BoolColumn (to_vec v.layers))
unfolding emit_rows bool_pieces
vec_encoder_scan v items =
    emit_rows (bool_pieces (has_inner_option v)) v items then λ b. done (scanned b)

unfoldable pub vec_encoder_bool_bare :
    (v : VecLayers)
    → List (Row (to_vec v.layers) v.inner_access Bool)
    → Outcome (BoolColumn (to_vec v.layers))
unfolding bool_bare_depth1_body is_plain vec_encoder_scan
vec_encoder_bool_bare v items = elim (is_plain v) [
  | true ↦
      bool_bare_depth1_body (to_vec v.layers) v.inner_access items then λ b. done (from_slice b)
  | false ↦ vec_encoder_scan v items
]

-- `try_build_vec_encoder` for `PrimitiveLeaf::Bool`
unfoldable pub build_vec_bool :
    (v : VecLayers)
    → List (Row (to_vec v.layers) v.inner_access Bool)
    → Outcome (BoolColumn (to_vec v.layers))
unfolding has_inner_option vec_encoder_scan vec_encoder_bool_bare
build_vec_bool v items = elim (has_inner_option v) [
  | true ↦ vec_encoder_scan v items
  | false ↦ vec_encoder_bool_bare v items
]
