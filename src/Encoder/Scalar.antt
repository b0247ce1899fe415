-- ===== src/Encoder/Scalar.antt =====
-- df-derive-macros/src/codegen/encoder/leaf.rs: the storage and the push of a leaf that is under no
-- `Vec`, and the row-wise loop of df-derive-macros/src/codegen/columnar_impl.rs over it. How a leaf is
-- stored is an argument; the finish into a series is read off the buffers.
pub mod Rows
pub mod Fields
pub mod Text
use df_derive.Prelude.{ℕ, suc, Bool, true, false, Option, none, some, List, [], ◌∷◌, ◌++◌, length}
use df_derive.Ir.{LeafShape, AccessChain}
use df_derive.Encoder.Outcome.{Outcome, Checked, fits, run, done, ill_typed, ◌then◌}
use df_derive.Encoder.Leaf.{Leaf, NumericBuf, ViewBuf, BoolBuf, push_arm, view_pieces, bool_pieces}
use df_derive.Encoder.Following.{El}
use df_derive.Encoder.Scan.{Row, scan_each, scan_row}

-- without the receiver, as references are erased
pub data LeafArmKind : Type 0 where
  bare option : LeafArmKind

unfoldable pub is_option : LeafArmKind → Bool
is_option bare = false
is_option option = true

-- a plain `Vec`, `vec_decl`, with a push of each leaf
unfoldable pub vec_leaf : {V N : Type 0} → (V → Checked N) → Leaf V (List N)
unfolding push_arm
vec_leaf {N} stored = record {
  start = λ rows. [];
  push =
      push_arm {S = List N} (λ v b. run (stored v) then λ n. done (b ++ n ∷ [])) (λ b. ill_typed)
        false;
  count = λ b. length b;
}

abbrev pub NumericStore : Type 0 → LeafArmKind → Type 0
NumericStore N bare = List N
NumericStore N option = NumericBuf N

unfoldable pub numeric_leaf :
    {V N : Type 0} (stored : V → Checked N) (default : N) (kind : LeafArmKind)
    → Leaf V (NumericStore N kind)
unfolding vec_leaf push_arm
numeric_leaf stored default bare = vec_leaf stored
numeric_leaf {N} stored default option = record {
  start = λ rows. record { flat = []; leaf_validity = [] };
  push =
      push_arm {S = NumericBuf N}
        (λ v b. run (stored v) then λ n.
          done (record { flat = b.flat ++ n ∷ []; leaf_validity = b.leaf_validity ++ true ∷ [] }))
        (λ b.
          done (record {
            flat = b.flat ++ default ∷ [];
            leaf_validity = b.leaf_validity ++ false ∷ [];
          }))
        true;
  count = λ b. length b.flat;
}

abbrev pub MappedStore : Type 0 → LeafArmKind → Type 0
MappedStore N bare = List N
MappedStore N option = List (Option N)

-- `mapped_push`, of decimals, dates, times and durations
unfoldable pub mapped_leaf :
    {V N : Type 0} (stored : V → Checked N) (kind : LeafArmKind) → Leaf V (MappedStore N kind)
unfolding vec_leaf push_arm
mapped_leaf stored bare = vec_leaf stored
mapped_leaf {N} stored option = record {
  start = λ rows. [];
  push =
      push_arm {S = List (Option N)} (λ v b. run (stored v) then λ n. done (b ++ some n ∷ []))
        (λ b. done (b ++ none ∷ [])) true;
  count = λ b. length b;
}

abbrev pub BoolStore : LeafArmKind → Type 0
BoolStore bare = List Bool
BoolStore option = BoolBuf

-- the bitmaps of the option arm are declared and set as those below a `Vec`
unfoldable pub bool_leaf : (kind : LeafArmKind) → Leaf Bool (BoolStore kind)
unfolding vec_leaf bool_pieces
bool_leaf bare = vec_leaf fits
bool_leaf option = bool_pieces true

-- The two arms of `string_leaf`, `binary_leaf`, `as_string_leaf` and `as_str_leaf`, which differ in how
-- a leaf is stored; the row index of the option arm is the leaf index below a `Vec`. Which fields get
-- them is in Encoder.Scalar.Text.
unfoldable pub view_leaf :
    {V N : Type 0} (stored : V → Checked N) (empty : N) (kind : LeafArmKind) → Leaf V (ViewBuf N)
unfolding view_pieces is_option
view_leaf stored empty kind = view_pieces stored empty (is_option kind)

-- The arm and the access of a shape, in `build_encoder`, of every leaf but `as_str`: a chain of
-- `Option`s and smart pointers is collapsed to one `Option` before the option arm. An `as_str` leaf
-- gets no arm under such a chain; Encoder.Scalar.Text has it.
unfoldable pub arm_kind : LeafShape → LeafArmKind
arm_kind LeafShape.bare = bare
arm_kind (LeafShape.optional layers access) = option

unfoldable pub arm_access : LeafShape → AccessChain
arm_access LeafShape.bare = []
arm_access (LeafShape.optional layers access) = access

-- `for it in items { push }`, after the declarations
unfoldable pub emit_scalar :
    {V S : Type 0} (leaf : Leaf V S) (shape : LeafShape)
    → List (El (arm_access shape) V)
    → Outcome S
unfolding scan_each scan_row Row arm_access
emit_scalar leaf shape items =
    scan_each (scan_row leaf (arm_access shape) []) items (leaf.start (length items))
