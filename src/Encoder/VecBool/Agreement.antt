-- ===== src/Encoder/VecBool/Agreement.antt =====
-- The column of a Boolean field under one or more `Vec`s, whichever code
-- df-derive-macros/src/codegen/encoder/vec.rs generates for it.
use df_derive.Prelude.{
  ℕ, Bool, true, false, ◌≡◌, refl, sym, ◌∙◌, subst, some, List, [], ◌∷◌, length, map, ltb, arith,
  if◌then◌else◌,
}
use df_derive.Ir.{
  AccessChain, option_layers, VecLayerSpec, VecLayers, to_vec, depth, any_outer_validity,
  has_outer_validity, has_inner_option,
}
use df_derive.Layers.Validity.{CountAgrees, LayerAgrees, VecAgrees}
use df_derive.Encoder.Outcome.{
  Outcome, Checked, fits, done, compute_error, ill_typed, ◌then◌, Refines, Refines-after,
  either-Refines,
}
use df_derive.Encoder.Leaf.{bool_pieces}
use df_derive.Encoder.Scan.{Row, Bufs, start_bufs, emit_rows}
use df_derive.Encoder.Decoding.{Cell, IsLeaf}
use df_derive.Encoder.Column.{Encodes, cells, emit_rows-Refines}
use df_derive.Encoder.Leaves.Booleans.{BoolWell, bool_array, emit_rows-Encodes_bool}
use df_derive.Encoder.Scalar.{vec_leaf}
use df_derive.Encoder.Scalar.Rows.{Always, vec_leaf-IsLeaf}
use df_derive.Encoder.VecBool.{
  BareBools, BoolColumn, from_slice, scanned, bool_bare_depth1_body, is_plain, vec_encoder_scan,
  vec_encoder_bool_bare, build_vec_bool,
}
use df_derive.Encoder.VecBool.BareScan.{bare_layers, body_scan}

-- a reading of a plain `Vec<bool>` under the list layers
abbrev pub Decoded : (ls : List VecLayerSpec) → List (Cell ls Bool) → Bufs ls (List Bool) → Type 0
Decoded ls = Encodes (λ bs. length bs) Always (map some) ls

-- What the buffers of either kind hold: those of the fast path are read as one list layer without a
-- bitmap, over values without a null.
abbrev pub Encoded :
    (v : VecLayers) → List (Cell (to_vec v.layers) Bool) → BoolColumn (to_vec v.layers) → Type 0
Encoded v cs (from_slice b) =
    (depth v ≡ 1) × Decoded (to_vec v.layers) cs (bare_layers (to_vec v.layers) b)
Encoded v cs (scanned b) =
    Encodes (bool_pieces (has_inner_option v)).count (BoolWell (has_inner_option v))
      (bool_array (has_inner_option v)) (to_vec v.layers) cs b

before-then :
    {A B C : Type 0} (limit : ℕ) (spec : Checked C) (P : C → B → Type 0) (m : Outcome A) (f : A → B)
    → Refines limit spec P (m then λ a. done (f a))
    → Refines limit spec (λ c a. P c (f a)) m
before-then limit spec P (done a) f h = h
before-then limit spec P (compute_error e) f h = h
before-then limit spec P ill_typed f h = h

-- one list layer over leaves without `Option`s
abbrev one_layer : VecLayerSpec → ℕ → AccessChain → VecLayers
one_layer l n inner = record {
  layers = record { first = l; rest = [] };
  inner_option_layers = n;
  inner_access = inner;
}

module _ (limit : ℕ) (l : VecLayerSpec) (n : ℕ) (items : List (Row (l ∷ []) [] Bool)) where
  scan_is_body :
      has_outer_validity l ≡ false
      → ltb 0 (option_layers l.access) ≡ false
      → emit_rows {V = Bool} (vec_leaf fits) (one_layer l n []) items
        ≡ (bool_bare_depth1_body (l ∷ []) [] items then λ b. done (bare_layers (l ∷ []) b))
  unfolding emit_rows start_bufs bool_bare_depth1_body vec_leaf bare_layers
  scan_is_body hv ha = rw hv (body_scan l items (record { flat = []; inner_offsets = [] }) ha)

  body-Encodes :
      VecAgrees (one_layer l n [])
      → has_outer_validity l ≡ false
      → ltb 0 n ≡ false
      → Refines limit
          (cells fits (one_layer l n []) items)
          (λ cs b. Decoded (l ∷ []) cs (bare_layers (l ∷ []) b))
          (bool_bare_depth1_body (l ∷ []) [] items)
  unfolding VecAgrees LayerAgrees CountAgrees has_outer_validity has_inner_option vec_leaf
  body-Encodes agrees hv hn =
      before-then limit (cells fits (one_layer l n []) items) (Decoded (l ∷ [])) _
        (bare_layers (l ∷ []))
        (subst (Refines limit (cells fits (one_layer l n []) items) _)
          (scan_is_body hv (sym agrees.0.0 ∙ hv))
          (emit_rows-Refines limit (vec_leaf fits) fits (map some) Always (one_layer l n [])
            (subst (λ io. IsLeaf {V = Bool} limit (vec_leaf fits) io fits (map some) Always)
              (sym hn) (vec_leaf-IsLeaf limit fits))
            items agrees))

abbrev pub shape : VecLayerSpec → List VecLayerSpec → ℕ → AccessChain → VecLayers
shape l rest n inner = record {
  layers = record { first = l; rest = rest };
  inner_option_layers = n;
  inner_access = inner;
}

plain-Refines :
    (limit : ℕ) (l : VecLayerSpec) (rest : List VecLayerSpec) (n : ℕ) (inner : AccessChain)
    (items : List (Row (l ∷ rest) inner Bool))
    (P : List (Cell (l ∷ rest) Bool) → BoolColumn (l ∷ rest) → Type 0)
    → ((cs : List (Cell (l ∷ rest) Bool)) (b : BareBools)
        → depth (shape l rest n inner) ≡ 1
        → Decoded (l ∷ rest) cs (bare_layers (l ∷ rest) b)
        → P cs (from_slice b))
    → VecAgrees (shape l rest n inner)
    → ltb 0 n ≡ false
    → is_plain (shape l rest n inner) ≡ true
    → Refines limit
        (cells fits (shape l rest n inner) items)
        P
        (bool_bare_depth1_body (l ∷ rest) inner items then λ b. done (from_slice b))
unfolding is_plain depth any_outer_validity
plain-Refines limit l [] n [] items P k agrees hn h =
    Refines-after limit (cells fits (shape l [] n []) items) _ P
      (bool_bare_depth1_body (l ∷ []) [] items) _
      (body-Encodes limit l n items agrees (ground (arith, h)) hn)
      λ cs b e. (cs, refl, k cs b refl e)
plain-Refines limit l [] n (step ∷ inner) items P k agrees hn h = absurd (ground (arith, h))
plain-Refines limit l (m ∷ rest) n inner items P k agrees hn h = absurd (ground (arith, h))

-- what holds after the body of a plain `Vec<bool>` and after the scan holds after the code
pub either_body-Refines :
    (limit : ℕ) (v : VecLayers) (items : List (Row (to_vec v.layers) v.inner_access Bool))
    (P : List (Cell (to_vec v.layers) Bool) → BoolColumn (to_vec v.layers) → Type 0)
    → VecAgrees v
    → ((cs : List (Cell (to_vec v.layers) Bool)) (b : BareBools)
        → depth v ≡ 1
        → Decoded (to_vec v.layers) cs (bare_layers (to_vec v.layers) b)
        → P cs (from_slice b))
    → Refines limit (cells fits v items) P (vec_encoder_scan v items)
    → Refines limit (cells fits v items) P (build_vec_bool v items)
unfolding build_vec_bool vec_encoder_bool_bare has_inner_option
either_body-Refines limit v items P agrees plain scan =
    either-Refines limit (cells fits v items) P (has_inner_option v) _ _ (λ io. scan)
      λ io.
        either-Refines limit (cells fits v items) P (is_plain v) _ _
          (plain-Refines limit v.layers.first v.layers.rest v.inner_option_layers v.inner_access
            items P plain agrees io)
          (λ is_not. scan)

scan-Encodes :
    (limit : ℕ) (v : VecLayers) (items : List (Row (to_vec v.layers) v.inner_access Bool))
    → VecAgrees v
    → Refines limit (cells fits v items) (Encoded v) (vec_encoder_scan v items)
unfolding vec_encoder_scan
scan-Encodes limit v items agrees =
    Refines-after limit (cells fits v items) _ (Encoded v)
      (emit_rows (bool_pieces (has_inner_option v)) v items) _
      (emit_rows-Encodes_bool limit v items agrees) λ cs b e. (cs, refl, e)

-- On every list of items, the code that is generated for a Boolean field under one or more `Vec`s, the
-- extended `Vec<bool>` of a plain `Vec<bool>` or the scan of any other shape, compiles and returns,
-- unless a count is too large, and its values, offsets and bitmaps decode to the items with all
-- `Option`s between two lists collapsed. This holds for shapes whose option counts agree with their
-- access chains.
pub build_vec_bool-Encodes :
    (limit : ℕ) (v : VecLayers) (items : List (Row (to_vec v.layers) v.inner_access Bool))
    → VecAgrees v
    → Refines limit (cells fits v items) (Encoded v) (build_vec_bool v items)
build_vec_bool-Encodes limit v items agrees =
    either_body-Refines limit v items (Encoded v) agrees (λ cs b d e. (d, e))
      (scan-Encodes limit v items agrees)
