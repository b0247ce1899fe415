-- ===== src/Encoder/Scan.antt =====
-- df-derive-macros/src/codegen/encoder/shape_walk.rs: the loops that the generated code runs over the
-- items of a `Vec`-shaped field, over the pieces of any leaf. References are erased; a buffer of
-- offsets is kept without the 0 that its declaration pushes.
use df_derive.Prelude.{
  ℕ, ◌+◌, Bool, true, false, Option, none, some, List, [], ◌∷◌, ◌++◌, length, if◌then◌else◌,
}
use df_derive.Ir.{AccessChain, VecLayerSpec, VecLayers, has_outer_validity, to_vec}
use df_derive.Encoder.Access.{base, access_chain_to_ref}
use df_derive.Encoder.Following.{El, collapse}
use df_derive.Encoder.Outcome.{Outcome, done, ill_typed, ◌then◌, list_offset_i64}
use df_derive.Encoder.Leaf.{Leaf}

-- the buffers of one list layer
pub record LayerBuf : Type 0 where
  pub pushed : List ℕ
  pub validity : Option (List Bool)

-- The field of an item below the layers `ls`: a list behind each layer's access chain.
unfoldable pub Row : List VecLayerSpec → AccessChain → Type 0 → Type 0
unfolding El
Row [] inner V = El inner V
Row (l ∷ ls) inner V = El l.access (List (Row ls inner V))

unfoldable pub Bufs : List VecLayerSpec → Type 0 → Type 0
Bufs [] S = S
Bufs (l ∷ ls) S = LayerBuf × Bufs ls S

-- `offsets.len() - 1` of the layer below, or the count of the leaves
unfoldable pub entries : {S : Type 0} → (S → ℕ) → (ls : List VecLayerSpec) → Bufs ls S → ℕ
unfolding Bufs
entries count [] b = count b
entries count (l ∷ ls) (lb, bs) = length lb.pushed

unfoldable pub push_offset : LayerBuf → ℕ → LayerBuf
push_offset lb n = record lb { pushed = lb.pushed ++ n ∷ [] }

-- `#validity.push(bit)`; the buffer is declared only where the layer has outer validity
unfoldable pub push_validity : LayerBuf → Bool → Outcome LayerBuf
push_validity lb bit = elim lb.validity [
  | none ↦ ill_typed
  | some bits ↦ done (record lb { validity = some (bits ++ bit ∷ []) })
]

-- `for inner in vec.iter() { … }`
unfoldable pub scan_each {ℓ κ} :
    {X : Type ℓ} {B : Type κ} → (X → B → Outcome B) → List X → B → Outcome B
scan_each step [] b = done b
scan_each step (x ∷ xs) b = step x b then λ b'. scan_each step xs b'

-- The body of a layer up to its offset: with an option on the access chain a match that pushes the
-- validity bit, else the loop alone.
unfoldable pub enter_layer :
    {R : Type 0} {B : Type 0}
    → Bool
    → Option (List R)
    → (List R → B → Outcome B)
    → LayerBuf × B
    → Outcome (LayerBuf × B)
unfolding push_validity
enter_layer true (some rows) iter (lb, bs) =
    push_validity lb true then λ lb'. iter rows bs then λ bs'. done (lb', bs')
enter_layer true none iter (lb, bs) = push_validity lb false then λ lb'. done (lb', bs)
enter_layer false (some rows) iter (lb, bs) = iter rows bs then λ bs'. done (lb, bs')
enter_layer false none iter (lb, bs) = ill_typed

abbrev pub precount_each {ℓ} : {X : Type ℓ} → (X → ℕ → ℕ) → List X → ℕ → ℕ
precount_each step [] total = total
precount_each step (x ∷ xs) total = precount_each step xs (step x total)

-- `ShapePrecount::build_layer`, for the total
unfoldable pub precount_row :
    (V : Type 0) (inner : AccessChain) (ls : List VecLayerSpec) → Row ls inner V → ℕ → ℕ
unfolding Row El collapse
precount_row V inner [] x total = total + 1
precount_row V inner (l ∷ []) x total = elim (collapse l.access x) [
  | none ↦ total
  | some rows ↦ total + length rows
]
precount_row V inner (l ∷ k ∷ ls) x total = elim (collapse l.access x) [
  | none ↦ total
  | some rows ↦ precount_each (precount_row V inner (k ∷ ls)) rows total
]

module _ {V S : Type 0} (leaf : Leaf V S) (inner : AccessChain) where
  -- `ShapeScan::build_layer`, with the leaf body of `pep_leaf_body` or `ctb_leaf_body` below the last
  -- layer
  unfoldable pub scan_row :
      (ls : List VecLayerSpec) → Row ls inner V → Bufs ls S → Outcome (Bufs ls S)
  unfolding Row Bufs El collapse enter_layer access_chain_to_ref scan_each list_offset_i64 entries
      push_offset
  scan_row [] x b = leaf.push (access_chain_to_ref base inner).has_option (collapse inner x) b
  scan_row (l ∷ ls) x b =
      enter_layer (access_chain_to_ref base l.access).has_option (collapse l.access x)
        (scan_each (scan_row ls)) b
      then λ b'. list_offset_i64 (entries leaf.count ls b'.1) then λ offset.
          done (push_offset b'.0 offset, b'.1)

  -- The declarations before the loops: `shape_offsets_decls`, `shape_validity_decls` and the leaf's.
  unfoldable pub start_bufs : (ls : List VecLayerSpec) → ℕ → Bufs ls S
  unfolding Bufs has_outer_validity
  start_bufs [] total = leaf.start total
  start_bufs (l ∷ ls) total = (
    record { pushed = []; validity = if has_outer_validity l then some [] else none },
    start_bufs ls total,
  )

-- A whole emission, `pep_emit` or the `Vec` arm of `ctb_emit`, up to the finish of the buffers: the
-- precount, the declarations and the scan.
unfoldable pub emit_rows :
    {V S : Type 0} (leaf : Leaf V S) (v : VecLayers)
    → List (Row (to_vec v.layers) v.inner_access V)
    → Outcome (Bufs (to_vec v.layers) S)
unfolding scan_row scan_each precount_row start_bufs
emit_rows {V} leaf v items =
    let ls = to_vec v.layers in
    let total = precount_each (precount_row V v.inner_access ls) items 0 in
    scan_each (scan_row leaf v.inner_access ls) items (start_bufs leaf v.inner_access ls total)
