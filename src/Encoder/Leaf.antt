-- ===== src/Encoder/Leaf.antt =====
-- df-derive-macros/src/codegen/encoder/vec.rs and leaf_kind.rs: the storage of a leaf below one or more
-- `Vec`s, and the push of one leaf. emit.rs has the push of a nested struct, which collects references.
use df_derive.Prelude.{
  ℕ, suc, ◌-◌, Bool, true, false, Option, none, some, List, [], ◌∷◌, ◌++◌, length, replicate, set,
  if◌then◌else◌,
}
use df_derive.Encoder.Outcome.{Outcome, Checked, run, done, ill_typed, ◌then◌, idx_size_len}

-- `PerElementPush`, as what its pieces do on a storage S for leaves of type V.
pub record Leaf (V S : Type 0) : Type 0 where
  -- `storage_decls`, for so many leaves
  pub start : ℕ → S
  -- `per_elem_push`; the Boolean says whether the leaf body binds an `Option`
  pub push : Bool → Option V → S → Outcome S
  -- `leaf_offsets_post_push`
  pub count : S → ℕ

-- A push is written for a leaf behind an `Option` or for one that is there. Where the leaf body binds
-- the other, the code does not compile.
unfoldable pub push_arm :
    {V S : Type 0} → (V → S → Outcome S) → (S → Outcome S) → Bool → Bool → Option V → S → Outcome S
push_arm some_arm none_arm true true (some v) b = some_arm v b
push_arm some_arm none_arm true true none b = none_arm b
push_arm some_arm none_arm false false (some v) b = some_arm v b
push_arm some_arm none_arm _ _ _ b = ill_typed

-- `validity`, filled with `true` before the loops where the shape has an inner option
unfoldable pub start_bits : Bool → ℕ → List Bool
start_bits inner_option total = if inner_option then replicate total true else []

-- the buffers of a numeric leaf
pub record NumericBuf (N : Type 0) : Type 0 where
  pub flat : List N
  pub leaf_validity : List Bool

unfoldable pub numeric_pieces :
    {V N : Type 0} (stored : V → Checked N) (default : N) (inner_option : Bool)
    → Leaf V (NumericBuf N)
unfolding push_arm start_bits
numeric_pieces {N} stored default inner_option = record {
  start = λ total. record { flat = []; leaf_validity = start_bits inner_option total };
  push =
      push_arm {S = NumericBuf N}
        (λ v b. run (stored v) then λ n. done (record b { flat = b.flat ++ n ∷ [] }))
        (λ b. done (record {
          flat = b.flat ++ default ∷ [];
          leaf_validity = set b.leaf_validity (length (b.flat ++ default ∷ []) - 1) false;
        }))
        inner_option;
  count = λ b. length b.flat;
}

-- The buffers of a string or binary leaf. The index is declared where the shape has an inner option,
-- and is not read elsewhere.
pub record ViewBuf (N : Type 0) : Type 0 where
  pub view_buf : List N
  pub leaf_validity : List Bool
  pub leaf_idx : ℕ

-- `string_like_leaf_pieces` and `binary_like_leaf_pieces`, which differ in the empty value
unfoldable pub view_pieces :
    {V N : Type 0} (stored : V → Checked N) (empty : N) (inner_option : Bool) → Leaf V (ViewBuf N)
unfolding push_arm start_bits
view_pieces {N} stored empty inner_option = record {
  start = λ total. record {
    view_buf = [];
    leaf_validity = start_bits inner_option total;
    leaf_idx = 0;
  };
  push =
      push_arm {S = ViewBuf N}
        (λ v b. run (stored v) then λ n. done (record b {
          view_buf = b.view_buf ++ n ∷ [];
          leaf_idx = if inner_option then suc b.leaf_idx else b.leaf_idx;
        }))
        (λ b. done (record {
          view_buf = b.view_buf ++ empty ∷ [];
          leaf_validity = set b.leaf_validity b.leaf_idx false;
          leaf_idx = suc b.leaf_idx;
        }))
        inner_option;
  count = λ b. length b.view_buf;
}

-- The bitmaps of a Boolean leaf: the values are `false` before the loops.
pub record BoolBuf : Type 0 where
  pub values : List Bool
  pub leaf_validity : List Bool
  pub leaf_idx : ℕ

-- `bool_bare_leaf_pieces` and `bool_inner_option_leaf_pieces`, of every shape but a plain `Vec<bool>`,
-- which Encoder.VecBool has
unfoldable pub bool_pieces : Bool → Leaf Bool BoolBuf
unfolding push_arm start_bits
bool_pieces inner_option = record {
  start = λ total. record {
    values = replicate total false;
    leaf_validity = start_bits inner_option total;
    leaf_idx = 0;
  };
  push =
      push_arm
        (λ v b. done (record b {
          values = if v then set b.values b.leaf_idx true else b.values;
          leaf_idx = suc b.leaf_idx;
        }))
        (λ b. done (record b {
          leaf_validity = set b.leaf_validity b.leaf_idx false;
          leaf_idx = suc b.leaf_idx;
        }))
        inner_option;
  count = λ b. b.leaf_idx;
}

-- The buffers of a nested struct: the references, and a position among them for each leaf where the
-- shape has an inner option.
pub record NestedBuf (V : Type 0) : Type 0 where
  pub nested_flat : List V
  pub positions : List (Option ℕ)

-- `ctb_leaf_body`, and its storage and offsets in `ctb_emit`
unfoldable pub nested_pieces : {V : Type 0} (limit : ℕ) (inner_option : Bool) → Leaf V (NestedBuf V)
unfolding push_arm
nested_pieces limit inner_option = record {
  start = λ total. record { nested_flat = []; positions = [] };
  push =
      push_arm
        (λ v b.
          if inner_option
          then (idx_size_len limit (length b.nested_flat) then λ position. done (record {
            nested_flat = b.nested_flat ++ v ∷ [];
            positions = b.positions ++ some position ∷ [];
          }))
          else done (record b { nested_flat = b.nested_flat ++ v ∷ [] }))
        (λ b. done (record b { positions = b.positions ++ none ∷ [] })) inner_option;
  count = λ b. if inner_option then length b.positions else length b.nested_flat;
}
