-- ===== src/Encoder/Scalar/Fields.antt =====
-- The emission of a field under no `Vec`, for each leaf of
-- df-derive-macros/src/codegen/encoder/leaf.rs.
use df_derive.Prelude.{ℕ, true, ◌≡◌, refl, ◌∙◌, sym, List, Option, Bool}
use df_derive.Ir.{LeafShape}
use df_derive.Encoder.Outcome.{Checked, fits, Refines, Refines-weaken}
use df_derive.Encoder.Leaf.{view_pieces}
use df_derive.Encoder.Following.{El}
use df_derive.Encoder.Decoding.{IsLeaf}
use df_derive.Encoder.Leaves.Booleans.{BoolWell, settled, settled-all, bool_pieces-IsLeaf}
use df_derive.Encoder.Leaves.View.{view_array, ViewWell, view_pieces-IsLeaf}
use df_derive.Encoder.Scalar.{
  LeafArmKind, bare, option, is_option, NumericStore, numeric_leaf, mapped_leaf, BoolStore,
  bool_leaf, view_leaf, arm_kind, arm_access, emit_scalar,
}
use df_derive.Encoder.Scalar.Rows.{
  Always, SameLength, vec_leaf-IsLeaf, numeric_option-IsLeaf, mapped_option-IsLeaf, numeric_rows,
  mapped_rows, bool_rows, HasOption, rows_of, emit_scalar-Refines,
}

abbrev NumericStoreWell : (N : Type 0) (kind : LeafArmKind) → NumericStore N kind → ℕ → Type 0
NumericStoreWell N bare b r = Unit
NumericStoreWell N option b r = SameLength b r

abbrev BoolStoreWell : (kind : LeafArmKind) → BoolStore kind → ℕ → Type 0
BoolStoreWell bare b r = Unit
BoolStoreWell option b r = BoolWell true b r

abbrev bool_settled : (kind : LeafArmKind) → BoolStore kind → List (Option Bool)
bool_settled bare b = bool_rows bare b
bool_settled option b = settled true b

module _ {V N : Type 0} (limit : ℕ) (stored : V → Checked N) where
  numeric_leaf-IsLeaf :
      (default : N) (kind : LeafArmKind)
      → IsLeaf limit
          (numeric_leaf stored default kind)
          (is_option kind)
          stored
          (numeric_rows kind)
          (NumericStoreWell N kind)
  unfolding numeric_leaf is_option
  numeric_leaf-IsLeaf default bare = vec_leaf-IsLeaf limit stored
  numeric_leaf-IsLeaf default option = numeric_option-IsLeaf limit stored default

  mapped_leaf-IsLeaf :
      (kind : LeafArmKind)
      → IsLeaf limit (mapped_leaf stored kind) (is_option kind) stored (mapped_rows kind) Always
  unfolding mapped_leaf is_option
  mapped_leaf-IsLeaf bare = vec_leaf-IsLeaf limit stored
  mapped_leaf-IsLeaf option = mapped_option-IsLeaf limit stored

bool_leaf-IsLeaf :
    (limit : ℕ) (kind : LeafArmKind)
    → IsLeaf limit (bool_leaf kind) (is_option kind) fits (bool_settled kind) (BoolStoreWell kind)
unfolding bool_leaf is_option
bool_leaf-IsLeaf limit bare = vec_leaf-IsLeaf limit fits
bool_leaf-IsLeaf limit option = bool_pieces-IsLeaf limit true

bool_settled-all :
    (kind : LeafArmKind) (b : BoolStore kind)
    → BoolStoreWell kind b 0
    → bool_settled kind b ≡ bool_rows kind b
bool_settled-all bare b w = refl
bool_settled-all option b w = settled-all true b w

module _ {V N : Type 0} (limit : ℕ) (stored : V → Checked N) (shape : LeafShape)
    (h : HasOption shape) (items : List (El (arm_access shape) V)) where
  -- The row-wise encoder of a numeric field under no `Vec` compiles. Where it returns, its buffers hold,
  -- for each item in order, the stored value or a null, all `Option`s and smart pointers collapsed; where
  -- it fails, it fails with the error of the first item that cannot be stored, or a count is too large.
  pub numeric_leaf-Encodes :
      (default : N)
      → Refines limit
          (rows_of stored shape items)
          (λ rows b. numeric_rows (arm_kind shape) b ≡ rows)
          (emit_scalar (numeric_leaf stored default (arm_kind shape)) shape items)
  numeric_leaf-Encodes default =
      Refines-weaken limit (rows_of stored shape items) _ _ _ (λ rows b a. a.0)
        (emit_scalar-Refines limit (numeric_leaf stored default (arm_kind shape)) stored
          (numeric_rows (arm_kind shape)) (NumericStoreWell N (arm_kind shape)) shape h
          (numeric_leaf-IsLeaf limit stored default (arm_kind shape)) items)

  -- The row-wise encoder of a mapped field (a decimal, a date, a time or a duration) under no `Vec`
  -- compiles, and its buffer holds the stored value or the null of each item in order, or it fails with
  -- the error of the first item that cannot be stored, or a count is too large.
  pub mapped_leaf-Encodes :
      Refines limit
        (rows_of stored shape items)
        (λ rows b. mapped_rows (arm_kind shape) b ≡ rows)
        (emit_scalar (mapped_leaf stored (arm_kind shape)) shape items)
  mapped_leaf-Encodes =
      Refines-weaken limit (rows_of stored shape items) _ _ _ (λ rows b a. a.0)
        (emit_scalar-Refines limit (mapped_leaf stored (arm_kind shape)) stored
          (mapped_rows (arm_kind shape)) Always shape h
          (mapped_leaf-IsLeaf limit stored (arm_kind shape)) items)

  -- The loop with the view array of the shape's arm compiles, and the array, with the bits that were
  -- cleared, holds the stored value or the null of each item in order, or it fails with the error of the
  -- first item that cannot be stored, or a count is too large.
  pub view_leaf-Encodes :
      (empty : N)
      → Refines limit
          (rows_of stored shape items)
          (λ rows b. view_array (is_option (arm_kind shape)) b ≡ rows)
          (emit_scalar (view_leaf stored empty (arm_kind shape)) shape items)
  unfolding view_leaf
  view_leaf-Encodes empty =
      Refines-weaken limit (rows_of stored shape items) _ _ _ (λ rows b a. a.0)
        (emit_scalar-Refines limit (view_pieces stored empty (is_option (arm_kind shape))) stored
          (view_array (is_option (arm_kind shape))) (ViewWell (is_option (arm_kind shape))) shape h
          (view_pieces-IsLeaf limit stored empty (is_option (arm_kind shape))) items)

-- The row-wise encoder of a Boolean field under no `Vec` compiles and returns, and its buffer, or its
-- two bitmaps, hold the value or the null of each item in order, unless a count is too large.
pub bool_leaf-Encodes :
    (limit : ℕ) (shape : LeafShape)
    → HasOption shape
    → (items : List (El (arm_access shape) Bool))
    → Refines limit
        (rows_of fits shape items)
        (λ rows b. bool_rows (arm_kind shape) b ≡ rows)
        (emit_scalar (bool_leaf (arm_kind shape)) shape items)
bool_leaf-Encodes limit shape h items =
    Refines-weaken limit (rows_of fits shape items) _ _ _
      (λ rows b a. sym (bool_settled-all (arm_kind shape) b a.1) ∙ a.0)
      (emit_scalar-Refines limit (bool_leaf (arm_kind shape)) fits (bool_settled (arm_kind shape))
        (BoolStoreWell (arm_kind shape)) shape h (bool_leaf-IsLeaf limit (arm_kind shape)) items)
