-- ===== src/Encoder/Scalar/Text/Columns.antt =====
-- The column of a string or binary field under no `Vec`, whichever buffer
-- df-derive-macros/src/codegen/encoder/option.rs and leaf.rs give it.
use df_derive.Prelude.{
  ℕ, ◌+◌, true, ◌&&◌, ◌≡◌, refl, Option, none, some, List, [], ◌∷◌, ◌++◌, length, eqb,
  length-append,
}
use df_derive.Ir.{AccessChain, LeafShape, is_single_plain_option}
use df_derive.Encoder.Outcome.{fits, Refines, Refines-after, either-Refines}
use df_derive.Encoder.Following.{El}
use df_derive.Encoder.Decoding.{each_option, IsLeaf}
use df_derive.Encoder.Leaves.View.{view_array}
use df_derive.Encoder.Scalar.{is_option, arm_kind, arm_access, view_leaf, emit_scalar}
use df_derive.Encoder.Scalar.Rows.{Always, HasOption, rows_of, emit_scalar-Refines}
use df_derive.Encoder.Scalar.Fields.{view_leaf-Encodes}
use df_derive.Encoder.Scalar.Text.{
  TextLeaf, copied, as_str, stored_of, TextColumn, views, option_refs, push_collapsed,
  option_refs_leaf, text_leaf, wrap_option_access_chain_as_str, wrap_option_access_chain_primitive,
  build_text_encoder,
}

-- What the finished buffer holds: a view array with the bits that were cleared, or `Option`s, which
-- `NamedFrom` takes as values and nulls.
abbrev pub text_rows : {N : Type 0} → LeafShape → TextColumn N → List (Option N)
text_rows shape (views b) = view_array (is_option (arm_kind shape)) b
text_rows shape (option_refs b) = b

abbrev Holds : {N : Type 0} → LeafShape → List (Option N) → TextColumn N → Type 0
Holds shape rows b = text_rows shape b ≡ rows

option_refs-pushes :
    {V N : Type 0} (limit : ℕ) (str : V → N) (o : Option V) (b : List (Option N)) (r : ℕ)
    → Refines limit
        (each_option (λ v. fits (str v)) o)
        (λ new b'. Always b' r × (b' ≡ b ++ new ∷ []) × (length b' ≡ length b + 1))
        (push_collapsed str true o b)
unfolding push_collapsed
option_refs-pushes limit str (some v) b r =
    (some (str v), refl, (tt, refl, length-append b (some (str v) ∷ [])))
option_refs-pushes limit str none b r = (none, refl, (tt, refl, length-append b (none ∷ [])))

option_refs-IsLeaf :
    {V N : Type 0} (limit : ℕ) (str : V → N)
    → IsLeaf {S = List (Option N)} limit
        (option_refs_leaf str)
        true
        (λ v. fits (str v))
        (λ b. b)
        Always
unfolding option_refs_leaf
option_refs-IsLeaf limit str = record {
  start_well = λ t. tt;
  start_empty = λ t. refl;
  start_count = λ t. refl;
  sized = λ b r w. refl;
  pushes = λ o b r s w. option_refs-pushes limit str o b r;
}

module _ {V N : Type 0} (limit : ℕ) where
  text_leaf-Encodes :
      (leaf : TextLeaf V N) (empty : N) (shape : LeafShape)
      → HasOption shape
      → (items : List (El (arm_access shape) V))
      → Refines limit
          (rows_of (stored_of leaf) shape items)
          (Holds shape)
          (text_leaf leaf empty shape items (arm_kind shape))
  unfolding text_leaf
  text_leaf-Encodes leaf empty shape h items =
      Refines-after limit (rows_of (stored_of leaf) shape items) _ (Holds shape)
        (emit_scalar (view_leaf (stored_of leaf) empty (arm_kind shape)) shape items) _
        (view_leaf-Encodes limit (stored_of leaf) shape h items empty) λ rows b e. (rows, refl, e)

  as_str-Encodes :
      (str : V → N) (layers : ℕ) (access : AccessChain)
      → HasOption (LeafShape.optional layers access)
      → (items : List (El (arm_access (LeafShape.optional layers access)) V))
      → Refines limit
          (rows_of (λ v. fits (str v)) (LeafShape.optional layers access) items)
          (Holds (LeafShape.optional layers access))
          (wrap_option_access_chain_as_str str (LeafShape.optional layers access) items)
  unfolding wrap_option_access_chain_as_str arm_access arm_kind is_option
  as_str-Encodes str layers access h items =
      let shape : LeafShape = LeafShape.optional layers access in
      Refines-after limit (rows_of (λ v. fits (str v)) shape items) _ (Holds shape)
        (emit_scalar (option_refs_leaf str) shape items) _
        (emit_scalar-Refines limit (option_refs_leaf str) (λ v. fits (str v)) (λ b. b) Always shape
          h (option_refs-IsLeaf limit str) items)
        λ rows b e. (rows, refl, e.0)

  chain-Encodes :
      (leaf : TextLeaf V N) (empty : N) (layers : ℕ) (access : AccessChain)
      → HasOption (LeafShape.optional layers access)
      → (items : List (El (arm_access (LeafShape.optional layers access)) V))
      → Refines limit
          (rows_of (stored_of leaf) (LeafShape.optional layers access) items)
          (Holds (LeafShape.optional layers access))
          (wrap_option_access_chain_primitive leaf empty (LeafShape.optional layers access) items)
  unfolding wrap_option_access_chain_primitive arm_kind arm_access
  chain-Encodes (copied stored) empty layers access h items =
      text_leaf-Encodes (copied stored) empty (LeafShape.optional layers access) h items
  chain-Encodes (as_str str) empty layers access h items = as_str-Encodes str layers access h items

  -- For shapes whose access chain has an `Option` where the shape is optional, the row-wise encoder of a
  -- field under no `Vec` that is stored as a string or as bytes compiles, and its buffer holds the stored
  -- value or the null of each item in order, all `Option`s and smart pointers collapsed, or it fails with
  -- the error of the first item that cannot be stored, or a count is too large. The buffer is a view
  -- array, whose nulls are the bits that were cleared, or for `as_str` under stacked `Option`s or smart
  -- pointers a `Vec` of `Option`s.
  pub build_text_encoder-Encodes :
      (leaf : TextLeaf V N) (empty : N) (shape : LeafShape)
      → HasOption shape
      → (items : List (El (arm_access shape) V))
      → Refines limit
          (rows_of (stored_of leaf) shape items)
          (λ rows b. text_rows shape b ≡ rows)
          (build_text_encoder leaf empty shape items)
  unfolding build_text_encoder arm_kind arm_access
  build_text_encoder-Encodes leaf empty LeafShape.bare h items =
      text_leaf-Encodes leaf empty LeafShape.bare h items
  build_text_encoder-Encodes leaf empty (LeafShape.optional layers access) h items =
      let shape : LeafShape = LeafShape.optional layers access in
      either-Refines limit (rows_of (stored_of leaf) shape items) (Holds shape)
        (eqb layers 1 && is_single_plain_option access) _ _
        (λ e. text_leaf-Encodes leaf empty shape h items)
        λ e. chain-Encodes leaf empty layers access h items
