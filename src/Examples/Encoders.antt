-- ===== src/Examples/Encoders.antt =====
-- The theorems on the generated encoders, at concrete inputs.
use df_derive.Prelude.{
  suc, ℕ, Bool, true, false, ◌≡◌, refl, none, some, List, [], ◌∷◌, ltb, if◌then◌else◌,
}
use df_derive.Ir.{VecLayers, AccessStep, LeafShape, to_vec, has_inner_option, option_layers}
use df_derive.Encoder.{
  Checked, fits, refused, ComputeError, Row, emit_rows, numeric_pieces, view_pieces, nested_pieces,
}
use df_derive.Encoder.Outcome.{Refines}
use df_derive.Encoder.Column.{Encodes, cells}
use df_derive.Encoder.Following.{El}
use df_derive.Encoder.Leaves.Numeric.{NumericWell, numeric_array, emit_rows-Encodes}
use df_derive.Encoder.Leaves.View.{ViewWell, view_array, emit_rows-Encodes_view}
use df_derive.Layers.Validity.{CountAgrees, LayerAgrees, VecAgrees}
use df_derive.Encoder.VecBool.{build_vec_bool}
use df_derive.Encoder.VecBool.Agreement.{Encoded, build_vec_bool-Encodes}
use df_derive.Encoder.Scalar.Text.{as_str, build_text_encoder}
use df_derive.Encoder.Scalar.Text.Columns.{text_rows, build_text_encoder-Encodes}
use df_derive.Encoder.Leaves.Nested.{NestedWell, nested_rows, emit_rows-Encodes_nested}
use df_derive.Encoder.Scalar.{
  arm_access, arm_kind, numeric_leaf, mapped_leaf, bool_leaf, emit_scalar,
}
use df_derive.Encoder.Scalar.Rows.{HasOption, rows_of, numeric_rows, mapped_rows, bool_rows}
use df_derive.Encoder.Scalar.Fields.{numeric_leaf-Encodes, mapped_leaf-Encodes, bool_leaf-Encodes}
use df_derive.Examples.Shapes.{two_layers, two_layers-Agrees}

abbrev pub small : ℕ → Checked ℕ
small n = if ltb n 128 then fits n else refused (ComputeError.decimal_rescale 2)

-- `[Some([[Some(5), None], []]), None]`
pub two_items : List (Row (to_vec two_layers.layers) two_layers.inner_access ℕ)
unfolding Row El
two_items = some ((some 5 ∷ none ∷ []) ∷ [] ∷ []) ∷ none ∷ []

emit_rows-Encodes_example :
    Refines 100
      (cells small two_layers two_items)
      (Encodes
        (numeric_pieces small 0 (has_inner_option two_layers)).count
        (NumericWell (has_inner_option two_layers))
        (numeric_array (has_inner_option two_layers))
        (to_vec two_layers.layers))
      (emit_rows (numeric_pieces small 0 (has_inner_option two_layers)) two_layers two_items)
emit_rows-Encodes_example = emit_rows-Encodes 100 small 0 two_layers two_items two_layers-Agrees

emit_rows-Encodes_view_example :
    Refines 100
      (cells small two_layers two_items)
      (Encodes
        (view_pieces small 0 (has_inner_option two_layers)).count
        (ViewWell (has_inner_option two_layers))
        (view_array (has_inner_option two_layers))
        (to_vec two_layers.layers))
      (emit_rows (view_pieces small 0 (has_inner_option two_layers)) two_layers two_items)
emit_rows-Encodes_view_example =
    emit_rows-Encodes_view 100 small 0 two_layers two_items two_layers-Agrees

-- `Vec<bool>`
abbrev pub plain_list : VecLayers
plain_list = record {
  layers = record { first = record { option_layers_above = 0; access = [] }; rest = [] };
  inner_option_layers = 0;
  inner_access = [];
}

pub plain_list-Agrees : VecAgrees plain_list
unfolding VecAgrees LayerAgrees CountAgrees option_layers
plain_list-Agrees = ((refl, tt), refl)

pub plain_flags : List (Row (to_vec plain_list.layers) plain_list.inner_access Bool)
unfolding Row El
plain_flags = (true ∷ false ∷ []) ∷ [] ∷ (false ∷ []) ∷ []

build_vec_bool-Encodes_example :
    Refines 100
      (cells fits plain_list plain_flags)
      (Encoded plain_list)
      (build_vec_bool plain_list plain_flags)
build_vec_bool-Encodes_example = build_vec_bool-Encodes 100 plain_list plain_flags plain_list-Agrees

emit_rows-Encodes_nested_example :
    Refines 100
      (cells fits two_layers two_items)
      (Encodes
        (nested_pieces 100 (has_inner_option two_layers)).count
        (NestedWell (has_inner_option two_layers))
        (nested_rows (has_inner_option two_layers))
        (to_vec two_layers.layers))
      (emit_rows (nested_pieces 100 (has_inner_option two_layers)) two_layers two_items)
emit_rows-Encodes_nested_example =
    emit_rows-Encodes_nested ℕ 100 two_layers two_items two_layers-Agrees

-- `Option<Box<_>>`
abbrev boxed : LeafShape
boxed = LeafShape.optional 1 (AccessStep.option ∷ AccessStep.smart_ptr ∷ [])

boxed-HasOption : HasOption boxed
unfolding option_layers
boxed-HasOption = refl

abbrev boxed_items : List (El (arm_access boxed) ℕ)
unfolding El arm_access
boxed_items = some 5 ∷ none ∷ some 127 ∷ []

abbrev boxed_flags : List (El (arm_access boxed) Bool)
unfolding El arm_access
boxed_flags = some true ∷ none ∷ some false ∷ []

numeric_leaf-Encodes_example :
    Refines 100
      (rows_of small boxed boxed_items)
      (λ rows b. numeric_rows (arm_kind boxed) b ≡ rows)
      (emit_scalar (numeric_leaf small 0 (arm_kind boxed)) boxed boxed_items)
numeric_leaf-Encodes_example = numeric_leaf-Encodes 100 small boxed boxed-HasOption boxed_items 0

mapped_leaf-Encodes_example :
    Refines 100
      (rows_of small boxed boxed_items)
      (λ rows b. mapped_rows (arm_kind boxed) b ≡ rows)
      (emit_scalar (mapped_leaf small (arm_kind boxed)) boxed boxed_items)
mapped_leaf-Encodes_example = mapped_leaf-Encodes 100 small boxed boxed-HasOption boxed_items

build_text_encoder-Encodes_example :
    Refines 100
      (rows_of (λ v. fits (suc v)) boxed boxed_items)
      (λ rows b. text_rows boxed b ≡ rows)
      (build_text_encoder (as_str suc) 0 boxed boxed_items)
build_text_encoder-Encodes_example =
    build_text_encoder-Encodes 100 (as_str suc) 0 boxed boxed-HasOption boxed_items

bool_leaf-Encodes_example :
    Refines 100
      (rows_of fits boxed boxed_flags)
      (λ rows b. bool_rows (arm_kind boxed) b ≡ rows)
      (emit_scalar (bool_leaf (arm_kind boxed)) boxed boxed_flags)
bool_leaf-Encodes_example = bool_leaf-Encodes 100 boxed boxed-HasOption boxed_flags
