-- ===== src/Encoder/Assembly.antt =====
-- df-derive-macros/src/codegen: how encoder/shape_walk.rs and the list assembly of support.rs make a
-- series of the buffers of a `Vec` shape. Arrow's arrays and Polars' types are parameters.
pub mod Finished
use df_derive.Prelude.{ℕ, ◌-◌, Bool, Option, none, some, List, [], ◌∷◌, length, if◌then◌else◌}
use df_derive.Ir.{VecLayerSpec}
use df_derive.Schema.Types.{DataType, wrap_list_layers}
use df_derive.Encoder.Scan.{LayerBuf, Bufs}

-- What the generated code calls of polars-arrow and polars: `LargeListArray::new` panics at none, and
-- `to_arrow` is the Arrow type of the physical type of a logical one.
pub record Arrow : Type 1 where
  pub ArrowDataType : Type 0
  pub Array : Type 0
  pub OffsetsBuffer : Type 0
  pub dtype : Array → ArrowDataType
  pub len : Array → ℕ
  pub offsets_of : OffsetsBuffer → List ℕ
  pub offsets_try_from : List ℕ → Option OffsetsBuffer
  pub default_datatype : ArrowDataType → ArrowDataType
  pub list_array_new : ArrowDataType → OffsetsBuffer → Array → Option (List Bool) → Option Array
  pub to_arrow : DataType → ArrowDataType
  pub same : ArrowDataType → ArrowDataType → Bool

-- a value, an error of the generated code, or a panic
pub data Finish {ℓ} (A : Type ℓ) : Type ℓ where
  finished : A → Finish A
  offsets_refused list_dtype_mismatch panicked : Finish A

infixl 5 ◌next◌
abbrev pub ◌next◌ {ℓ κ} : {A : Type ℓ} {B : Type κ} → Finish A → (A → Finish B) → Finish B
finished a next f = f a
offsets_refused next f = offsets_refused
list_dtype_mismatch next f = list_dtype_mismatch
panicked next f = panicked

module _ (a : Arrow) where
  open a use {
    ArrowDataType, Array, OffsetsBuffer, dtype, offsets_try_from, default_datatype, list_array_new,
    to_arrow, same,
  }

  pub record ListAssembly : Type 0 where
    pub list_arr : Array
    pub logical_dtype : DataType

  abbrev of_new : Option Array → Finish Array
  of_new none = panicked
  of_new (some arr) = finished arr

  abbrev with_offsets :
      Option OffsetsBuffer → ArrowDataType → Array → Option (List Bool) → Finish Array
  with_offsets none prev_dtype payload validity = offsets_refused
  with_offsets (some offsets) prev_dtype payload validity =
      of_new (list_array_new (default_datatype prev_dtype) offsets payload validity)

  -- One turn of the loop of `shape_assemble_list_stack`, with the freeze of the layer's buffers. The
  -- vector of offsets starts with the 0 of its declaration.
  unfoldable pub layer_array : LayerBuf → Array → Finish Array
  layer_array lb payload =
      with_offsets (offsets_try_from (0 ∷ lb.pushed)) (dtype payload) payload lb.validity

  -- the loop, from the innermost layer on
  unfoldable pub list_stack :
      {S : Type 0} → (S → Array) → (ls : List VecLayerSpec) → Bufs ls S → Finish Array
  unfolding Bufs layer_array
  list_stack seed [] b = finished (seed b)
  list_stack seed (l ∷ ls) (lb, bs) = list_stack seed ls bs next layer_array lb

  unfoldable pub into_series : ListAssembly → Finish ListAssembly
  into_series s =
      if same (dtype s.list_arr) (to_arrow s.logical_dtype) then finished s else list_dtype_mismatch

  unfoldable pub assemble_helper : Array → DataType → Finish ListAssembly
  unfolding into_series
  assemble_helper list_arr inner_logical_dtype =
      into_series
        (record { list_arr = list_arr; logical_dtype = DataType.list inner_logical_dtype })

  unfoldable pub shape_assemble_list_stack :
      {S : Type 0}
      → (S → Array)
      → DataType
      → (ls : List VecLayerSpec) → Bufs ls S
      → Finish ListAssembly
  unfolding list_stack assemble_helper wrap_list_layers
  shape_assemble_list_stack seed leaf_logical_dtype ls b = list_stack seed ls b next λ outer.
      assemble_helper outer (wrap_list_layers leaf_logical_dtype (length ls - 1))
