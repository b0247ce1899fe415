-- ===== src/Encoder/Assembly/Finished.antt =====
-- The list assembly of df-derive-macros/src/codegen/encoder/shape_walk.rs and codegen/support.rs on the
-- buffers that the generated loops leave.
use df_derive.Prelude.{
  ℕ, zero, suc, ◌≤◌, ◌-◌, Bool, true, false, ◌≡◌, ◌∙◌, refl, sym, ap, Option, none, some, List, [],
  ◌∷◌, length, arith,
}
use df_derive.Ir.{VecLayers, VecLayerSpec, depth, to_vec, has_inner_option, has_outer_validity}
use df_derive.Layers.Validity.{VecAgrees}
use df_derive.Schema.Types.{DataType, wrap_list_layers}
use df_derive.Encoder.Outcome.{Checked, Refines, Refines-weaken}
use df_derive.Encoder.Leaf.{Leaf}
use df_derive.Encoder.Scan.{LayerBuf, Row, Bufs, entries, emit_rows}
use df_derive.Encoder.Lists.{last_offset, Ascending}
use df_derive.Encoder.Decoding.{BitsWell, Well, IsLeaf}
use df_derive.Encoder.LayerPush.{length-decode}
use df_derive.Encoder.Column.{Encodes, cells, emit_rows-Refines}
use df_derive.Encoder.Assembly.{
  Arrow, Finish, finished, ◌next◌, ListAssembly, layer_array, list_stack, into_series,
  assemble_helper, shape_assemble_list_stack,
}

-- a validity mask, if any, is as long as the array
abbrev pub MaskFits : Option (List Bool) → ℕ → Type 0
MaskFits none n = Unit
MaskFits (some bits) n = length bits ≡ n

-- What the documents of polars-arrow and Polars say: offsets that never decrease are accepted; a list
-- array is built when the last offset is within the values, the mask is as long as the array and the
-- type is that of the values; the Arrow type of a list is the list of the Arrow type.
pub record Documented (a : Arrow) : Type 0 where
  pub offsets :
      (ns : List ℕ)
      → Ascending 0 ns
      → (o : a.OffsetsBuffer) × (a.offsets_try_from (0 ∷ ns) ≡ some o) × (a.offsets_of o ≡ 0 ∷ ns)
  pub list_array :
      (o : a.OffsetsBuffer) (ns : List ℕ) (child : a.Array) (mask : Option (List Bool))
      → a.offsets_of o ≡ 0 ∷ ns
      → last_offset 0 ns ≤ a.len child
      → MaskFits mask (length ns)
      → (arr : a.Array) × (a.list_array_new (a.default_datatype (a.dtype child)) o child mask
          ≡ some arr)
        × (a.dtype arr ≡ a.default_datatype (a.dtype child))
        × (a.len arr ≡ length ns)
  pub list_type : (d : DataType) → a.to_arrow (DataType.list d) ≡ a.default_datatype (a.to_arrow d)
  pub same_refl : (t : a.ArrowDataType) → a.same t t ≡ true

mask-MaskFits :
    (has : Bool) (validity : Option (List Bool)) (n : ℕ)
    → BitsWell has validity n
    → MaskFits validity n
mask-MaskFits true (some bits) n w = w
mask-MaskFits true none n w = absurd w
mask-MaskFits false (some bits) n w = absurd w
mask-MaskFits false none n w = tt

wrap-list :
    (d : DataType) (n : ℕ)
    → DataType.list (wrap_list_layers d n) ≡ wrap_list_layers (DataType.list d) n
unfolding wrap_list_layers
wrap-list d zero = refl
wrap-list d (suc n) = wrap-list (DataType.list d) n

next-finished :
    {A B : Type 0} (m : Finish A) (x : A) (f : A → Finish B) → m ≡ finished x → (m next f) ≡ f x
next-finished m x f h = rw h refl

module _ {S : Type 0} (a : Arrow) (docs : Documented a) (count : S → ℕ) (W : S → ℕ → Type 0)
    (seed : S → a.Array) (leaf_dtype : DataType)
    (seeded : (b : S)
      → W b 0
      → (a.len (seed b) ≡ count b) × (a.dtype (seed b) ≡ a.to_arrow leaf_dtype)) where
  -- The array of some layers: of the type that the layers make of the leaf's, with an entry for each row.
  abbrev Stacked : (ls : List VecLayerSpec) → Bufs ls S → a.Array → Type 0
  Stacked ls b arr =
      (a.len arr ≡ entries count ls b)
      × (a.dtype arr ≡ a.to_arrow (wrap_list_layers leaf_dtype (length ls)))

  layer-Stacked :
      (lb : LayerBuf) (child : a.Array) (has : Bool) (t : DataType)
      → Ascending 0 lb.pushed
      → last_offset 0 lb.pushed ≡ a.len child
      → BitsWell has lb.validity (length lb.pushed)
      → a.dtype child ≡ a.to_arrow t
      → (arr : a.Array) × (layer_array a lb child ≡ finished arr)
        × (a.len arr ≡ length lb.pushed)
        × (a.dtype arr ≡ a.to_arrow (DataType.list t))
  unfolding layer_array
  layer-Stacked lb child has t up last bits e =
      let o = docs.offsets lb.pushed up in
      let r =
        docs.list_array o.0 lb.pushed child lb.validity o.2 (omega (arith, last))
          (mask-MaskFits has lb.validity (length lb.pushed) bits) in
      (r.0, rw (o.1, r.1) refl, r.3, r.2 ∙ ap a.default_datatype e ∙ sym (docs.list_type t))

  list_stack-Stacked :
      (ls : List VecLayerSpec) (b : Bufs ls S)
      → Well count W ls b 0
      → (arr : a.Array) × (list_stack a seed ls b ≡ finished arr) × Stacked ls b arr
  unfolding list_stack Well entries Bufs wrap_list_layers
  list_stack-Stacked [] b w = (seed b, refl, seeded b w)
  list_stack-Stacked (l ∷ ls) (lb, bs) w =
      let below = list_stack-Stacked ls bs w.0 in
      let t = wrap_list_layers leaf_dtype (length ls) in
      let here =
        layer-Stacked lb below.0 (has_outer_validity l) t w.4 (w.2 ∙ sym below.2.0) w.3 below.2.1 in
      (
        here.0,
        rw below.1 here.1,
        (here.2, here.3 ∙ ap a.to_arrow (wrap-list leaf_dtype (length ls))),
      )

  helper-finished :
      (arr : a.Array) (d : DataType)
      → a.dtype arr ≡ a.to_arrow (DataType.list d)
      → assemble_helper a arr d
        ≡ finished (record { list_arr = arr; logical_dtype = DataType.list d })
  unfolding assemble_helper into_series
  helper-finished arr d h = rw (h, docs.same_refl (a.to_arrow (DataType.list d))) refl

  pub stack-Assembled :
      (l : VecLayerSpec) (ls : List VecLayerSpec) (b : Bufs (l ∷ ls) S)
      → Well count W (l ∷ ls) b 0
      → (s : ListAssembly a) × (shape_assemble_list_stack a seed leaf_dtype (l ∷ ls) b ≡ finished s)
        × (s.logical_dtype ≡ wrap_list_layers leaf_dtype (length (l ∷ ls)))
        × (a.len s.list_arr ≡ entries count (l ∷ ls) b)
  unfolding shape_assemble_list_stack assemble_helper into_series
  stack-Assembled l ls b w =
      let outer = list_stack-Stacked (l ∷ ls) b w in
      let dtype = wrap-list leaf_dtype (length ls) in
      let below : length (l ∷ ls) - 1 ≡ length ls = omega arith in
      (
        record {
          list_arr = outer.0;
          logical_dtype = DataType.list (wrap_list_layers leaf_dtype (length ls));
        },
        next-finished (list_stack a seed (l ∷ ls) b) outer.0 _ outer.1
            ∙ ap (λ n. assemble_helper a outer.0 (wrap_list_layers leaf_dtype n)) below
            ∙ helper-finished outer.0 (wrap_list_layers leaf_dtype (length ls))
                (outer.2.1 ∙ ap a.to_arrow (sym dtype)),
        dtype,
        outer.2.0,
      )

-- The series of a finished field: of the type of the schema, with a row for each cell.
abbrev pub SeriesOf :
    {S C : Type 0} (a : Arrow) (seed : S → a.Array) (leaf_dtype : DataType) (v : VecLayers)
    → List C
    → Bufs (to_vec v.layers) S
    → Type 0
SeriesOf a seed leaf_dtype v cs b =
    (s : ListAssembly a) × (shape_assemble_list_stack a seed leaf_dtype (to_vec v.layers) b
      ≡ finished s)
    × (s.logical_dtype ≡ wrap_list_layers leaf_dtype (depth v))
    × (a.len s.list_arr ≡ length cs)

-- Where the generated loops of a field under one or more `Vec`s return, the assembly of their buffers
-- neither panics nor fails: it ends in a series of the type that the schema has for the field, with a row
-- for each item. This holds for every leaf that obeys the laws of the loops and whose array has its
-- length and its type, and for arrays that keep to the documents.
pub emit_rows-SeriesOf :
    {V S N : Type 0} (limit : ℕ) (leaf : Leaf V S) (stored : V → Checked N)
    (dec : S → List (Option N)) (W : S → ℕ → Type 0) (v : VecLayers) (a : Arrow)
    (seed : S → a.Array) (leaf_dtype : DataType)
    → Documented a
    → IsLeaf limit leaf (has_inner_option v) stored dec W
    → ((b : S)
        → W b 0
        → (a.len (seed b) ≡ length (dec b)) × (a.dtype (seed b) ≡ a.to_arrow leaf_dtype))
    → (items : List (Row (to_vec v.layers) v.inner_access V)) → VecAgrees v
    → Refines limit
        (cells stored v items)
        (λ cs b. SeriesOf a seed leaf_dtype v cs b)
        (emit_rows leaf v items)
unfolding Encodes depth
emit_rows-SeriesOf {V} {S} limit leaf stored dec W v a seed leaf_dtype docs laws seeded items
      agrees =
    let ls = to_vec v.layers in
    let sized : (b : S)
        → W b 0
        → (a.len (seed b) ≡ leaf.count b) × (a.dtype (seed b) ≡ a.to_arrow leaf_dtype) =
      λ b w. ((seeded b w).0 ∙ laws.sized b 0 w, (seeded b w).1) in
    Refines-weaken limit (cells stored v items) (Encodes leaf.count W dec ls) _
      (emit_rows leaf v items)
      (λ cs b h.
        let s =
          stack-Assembled a docs leaf.count W seed leaf_dtype sized v.layers.first v.layers.rest b
            h.1 in
        (
          s.0,
          s.1,
          s.2,
          s.3 ∙ sym (length-decode limit leaf.count W dec laws.sized ls b 0 h.1) ∙ ap length h.0,
        ))
      (emit_rows-Refines limit leaf stored dec W v laws items agrees)
