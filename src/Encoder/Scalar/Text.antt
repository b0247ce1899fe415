-- ===== src/Encoder/Scalar/Text.antt =====
-- The emission of a string or binary field under no `Vec`: `build_encoder_with_option_receiver` of
-- df-derive-macros/src/codegen/encoder/ctx.rs and `wrap_option_access_chain_primitive` of
-- df-derive-macros/src/codegen/encoder/option.rs, on the leaves of leaf.rs.
pub mod Columns
use df_derive.Prelude.{
  ℕ, Bool, true, false, ◌&&◌, Option, none, some, List, [], ◌∷◌, ◌++◌, length, eqb,
}
use df_derive.Ir.{LeafShape, is_single_plain_option}
use df_derive.Encoder.Outcome.{Outcome, Checked, fits, done, ill_typed, ◌then◌}
use df_derive.Encoder.Leaf.{Leaf, ViewBuf}
use df_derive.Encoder.Following.{El}
use df_derive.Encoder.Scalar.{LeafArmKind, view_leaf, arm_access, emit_scalar}

-- A leaf that is stored as text or bytes: `String`, `Binary` and `AsString` copy what they store into
-- the view array, and `AsStr` borrows a `&str` from the item.
pub data TextLeaf (V N : Type 0) : Type 0 where
  copied : (V → Checked N) → TextLeaf V N
  as_str : (V → N) → TextLeaf V N

abbrev pub stored_of : {V N : Type 0} → TextLeaf V N → V → Checked N
stored_of (copied stored) v = stored v
stored_of (as_str str) v = fits (str v)

-- the finished buffer: a view array, or the `Vec<Option<&str>>` of stacked `Option`s over `as_str`
pub data TextColumn (N : Type 0) : Type 0 where
  views : ViewBuf N → TextColumn N
  option_refs : List (Option N) → TextColumn N

-- `StringyExprKind::CollapsedOption`: a `map` over the collapsed `Option`, which an access without an
-- `Option` does not have
unfoldable pub push_collapsed :
    {V N : Type 0} → (V → N) → Bool → Option V → List (Option N) → Outcome (List (Option N))
push_collapsed str true (some v) b = done (b ++ some (str v) ∷ [])
push_collapsed str true none b = done (b ++ none ∷ [])
push_collapsed str false o b = ill_typed

unfoldable pub option_refs_leaf : {V N : Type 0} → (V → N) → Leaf V (List (Option N))
unfolding push_collapsed
option_refs_leaf str = record {
  start = λ rows. [];
  push = push_collapsed str;
  count = λ b. length b;
}

module _ {V N : Type 0} (leaf : TextLeaf V N) (empty : N) (shape : LeafShape)
    (items : List (El (arm_access shape) V)) where
  -- `build_leaf` for the leaves of this kind
  unfoldable pub text_leaf : LeafArmKind → Outcome (TextColumn N)
  unfolding view_leaf emit_scalar
  text_leaf kind =
      emit_scalar (view_leaf (stored_of leaf) empty kind) shape items then λ b. done (views b)

module _ {V N : Type 0} where
  unfoldable pub wrap_option_access_chain_as_str :
      (V → N) → (shape : LeafShape) → List (El (arm_access shape) V) → Outcome (TextColumn N)
  unfolding option_refs_leaf emit_scalar
  wrap_option_access_chain_as_str str shape items =
      emit_scalar (option_refs_leaf str) shape items then λ b. done (option_refs b)

  -- any other leaf gets the option arm, on the collapsed `Option`
  unfoldable pub wrap_option_access_chain_primitive :
      TextLeaf V N
      → N
      → (shape : LeafShape) → List (El (arm_access shape) V)
      → Outcome (TextColumn N)
  unfolding text_leaf wrap_option_access_chain_as_str
  wrap_option_access_chain_primitive (as_str str) empty shape items =
      wrap_option_access_chain_as_str str shape items
  wrap_option_access_chain_primitive (copied stored) empty shape items =
      text_leaf (copied stored) empty shape items LeafArmKind.option

  -- the arms of the match for a shape without a `Vec`
  unfoldable pub build_text_encoder :
      TextLeaf V N
      → N
      → (shape : LeafShape) → List (El (arm_access shape) V)
      → Outcome (TextColumn N)
  unfolding arm_access text_leaf wrap_option_access_chain_primitive
  build_text_encoder leaf empty LeafShape.bare items =
      text_leaf leaf empty LeafShape.bare items LeafArmKind.bare
  build_text_encoder leaf empty (LeafShape.optional layers access) items =
      let shape : LeafShape = LeafShape.optional layers access in
      elim (eqb layers 1 && is_single_plain_option access) [
        | true ↦ text_leaf leaf empty shape items LeafArmKind.option
        | false ↦ wrap_option_access_chain_primitive leaf empty shape items
      ]
