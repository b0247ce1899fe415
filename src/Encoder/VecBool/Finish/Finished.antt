-- ===== src/Encoder/VecBool/Finish/Finished.antt =====
-- The series of a Boolean field under one or more `Vec`s, of
-- df-derive-macros/src/codegen/encoder/vec.rs.
use df_derive.Prelude.{ℕ, Bool, ◌≡◌, refl, sym, ap, ◌∙◌, some, List, [], ◌∷◌, length, map, arith}
use df_derive.Ir.{AccessChain, VecLayerSpec, VecLayers, to_vec, depth, has_inner_option}
use df_derive.Layers.Validity.{VecAgrees}
use df_derive.Schema.Types.{DataType, wrap_list_layers}
use df_derive.Encoder.Outcome.{fits, Refines, Refines-after}
use df_derive.Encoder.Leaf.{BoolBuf, bool_pieces}
use df_derive.Encoder.Scan.{Row, emit_rows}
use df_derive.Encoder.Lists.{length-map}
use df_derive.Encoder.Decoding.{Cell}
use df_derive.Encoder.LayerPush.{length-decode}
use df_derive.Encoder.Column.{Encodes, cells}
use df_derive.Encoder.Leaves.Booleans.{
  BoolWell, bool_array, settled, settled-all, bool_pieces-IsLeaf,
}
use df_derive.Encoder.Assembly.{
  Arrow, finished, ListAssembly, list_stack, shape_assemble_list_stack,
}
use df_derive.Encoder.Assembly.Finished.{Documented, stack-Assembled, emit_rows-SeriesOf}
use df_derive.Encoder.Scalar.Rows.{Always}
use df_derive.Encoder.VecBool.{BareBools, BoolColumn, from_slice, vec_encoder_scan, build_vec_bool}
use df_derive.Encoder.VecBool.BareScan.{bare_layers}
use df_derive.Encoder.VecBool.Agreement.{shape, Decoded, either_body-Refines}
use df_derive.Encoder.VecBool.Finish.{BooleanArrays, bool_bare_series, finish_vec_bool}

-- What the documents of polars-arrow say of a Boolean array: it has an entry for each value, and the
-- Arrow type of `DataType::Boolean`.
pub record DocumentedBooleans (a : Arrow) (arrays : BooleanArrays a) : Type 0 where
  pub slice :
      (bs : List Bool)
      → (a.len (arrays.of_slice bs) ≡ length bs)
        × (a.dtype (arrays.of_slice bs) ≡ a.to_arrow DataType.boolean)
  pub bits :
      (io : Bool) (b : BoolBuf)
      → BoolWell io b 0
      → (a.len (arrays.of_bits io b) ≡ length (bool_array io b))
        × (a.dtype (arrays.of_bits io b) ≡ a.to_arrow DataType.boolean)

-- The series of the field: of the type of the schema, with a row for each cell.
abbrev pub BoolSeriesOf :
    {C : Type 0} (a : Arrow) (arrays : BooleanArrays a) (v : VecLayers)
    → List C
    → BoolColumn (to_vec v.layers)
    → Type 0
BoolSeriesOf a arrays v cs column =
    (s : ListAssembly a) × (finish_vec_bool a arrays v column ≡ finished s)
    × (s.logical_dtype ≡ wrap_list_layers DataType.boolean (depth v))
    × (a.len s.list_arr ≡ length cs)

module _ (limit : ℕ) (a : Arrow) (arrays : BooleanArrays a) (docs : Documented a)
    (booleans : DocumentedBooleans a arrays) where
  bare-SeriesOf :
      (l : VecLayerSpec) (rest : List VecLayerSpec) (n : ℕ) (inner : AccessChain)
      (cs : List (Cell (l ∷ rest) Bool)) (b : BareBools)
      → depth (shape l rest n inner) ≡ 1
      → Decoded (l ∷ rest) cs (bare_layers (l ∷ rest) b)
      → BoolSeriesOf a arrays (shape l rest n inner) cs (from_slice b)
  unfolding bare_layers depth finish_vec_bool bool_bare_series shape_assemble_list_stack list_stack
      Encodes wrap_list_layers
  bare-SeriesOf l [] n inner cs b d e =
      let count : List Bool → ℕ = λ bs. length bs in
      let s =
        stack-Assembled a docs count Always arrays.of_slice DataType.boolean
          (λ bs w. booleans.slice bs) l [] (bare_layers (l ∷ []) b) e.1 in
      (
        s.0,
        s.1,
        s.2,
        s.3
            ∙ sym (
                length-decode limit count Always (map some) (λ bs r w. length-map some bs) (l ∷ [])
                  (bare_layers (l ∷ []) b) 0 e.1)
            ∙ ap length e.0,
      )
  bare-SeriesOf l (k ∷ rest) n inner cs b d e = absurd (omega (arith, d))

  scan-SeriesOf :
      (v : VecLayers) (items : List (Row (to_vec v.layers) v.inner_access Bool))
      → VecAgrees v
      → Refines limit (cells fits v items) (BoolSeriesOf a arrays v) (vec_encoder_scan v items)
  unfolding vec_encoder_scan finish_vec_bool
  scan-SeriesOf v items agrees =
      let io = has_inner_option v in
      Refines-after limit (cells fits v items) _ (BoolSeriesOf a arrays v)
        (emit_rows (bool_pieces io) v items) _
        (emit_rows-SeriesOf limit (bool_pieces io) fits (settled io) (BoolWell io) v a
          (arrays.of_bits io) DataType.boolean docs (bool_pieces-IsLeaf limit io)
          (λ b w. let h = booleans.bits io b w in (h.0 ∙ ap length (sym (settled-all io b w)), h.1))
          items agrees)
        λ cs b s. (cs, refl, s)

  -- Where the code for a Boolean field under one or more `Vec`s returns its buffers, the rest of it
  -- neither panics nor fails: it ends in a series of the type that the schema has for the field, with a
  -- row for each item. This holds for shapes whose option counts agree with their access chains, and for
  -- arrays that keep to the documents.
  pub build_vec_bool-SeriesOf :
      (v : VecLayers) (items : List (Row (to_vec v.layers) v.inner_access Bool))
      → VecAgrees v
      → Refines limit (cells fits v items) (BoolSeriesOf a arrays v) (build_vec_bool v items)
  build_vec_bool-SeriesOf v items agrees =
      either_body-Refines limit v items (BoolSeriesOf a arrays v) agrees
        (bare-SeriesOf v.layers.first v.layers.rest v.inner_option_layers v.inner_access)
        (scan-SeriesOf v items agrees)
