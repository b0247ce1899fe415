-- ===== src/Encoder/Leaves/View.antt =====
-- `string_like_leaf_pieces` and `binary_like_leaf_pieces` of df-derive-macros/src/codegen/encoder/vec.rs.
use df_derive.Prelude.{
  ℕ, suc, ◌+◌, Bool, true, false, ◌≡◌, refl, sym, set, subst, Option, none, some, List, [], ◌∷◌,
  ◌++◌, length, map, arith, length-append,
}
use df_derive.Ir.{VecLayers, to_vec, has_inner_option}
use df_derive.Layers.Validity.{VecAgrees}
use df_derive.Encoder.Outcome.{Checked, fits, run, run-Refines, Refines, Refines-then}
use df_derive.Encoder.Leaf.{ViewBuf, view_pieces, push_arm, start_bits}
use df_derive.Encoder.Scan.{Row, emit_rows}
use df_derive.Encoder.Lists.{nullable, map-append, length-map}
use df_derive.Encoder.Decoding.{each_option, IsLeaf, length-snoc}
use df_derive.Encoder.Column.{Encodes, cells, emit_rows-Refines}
use df_derive.Encoder.Leaves.Bits.{
  Filled, Filled-kept, Filled-set, nullable-kept, nullable-cleared, length-nullable-Filled,
}

-- the Arrow array that `leaf_arr_expr` makes of the buffers
abbrev pub view_array : {N : Type 0} → Bool → ViewBuf N → List (Option N)
view_array true b = nullable b.view_buf b.leaf_validity
view_array false b = map some b.view_buf

-- the index counts the pushed values where it is declared
abbrev pub ViewWell : {N : Type 0} → Bool → ViewBuf N → ℕ → Type 0
ViewWell true b r =
    Filled true b.leaf_validity (length b.view_buf) r × (b.leaf_idx ≡ length b.view_buf)
ViewWell false b r = Unit

module _ {V N : Type 0} (limit : ℕ) (stored : V → Checked N) (empty : N) where
  abbrev Pushed : Bool → ViewBuf N → ℕ → Option N → ViewBuf N → Type 0
  Pushed io b r new b' =
      ViewWell io b' r
      × (view_array io b' ≡ view_array io b ++ new ∷ [])
      × (length b'.view_buf ≡ length b.view_buf + 1)

  view-Pushed :
      (b : ViewBuf N) (r : ℕ) (n : N)
      → ViewWell true b (suc r)
      → Pushed true b r
          (some n)
          (record b { view_buf = b.view_buf ++ n ∷ []; leaf_idx = suc b.leaf_idx })
  view-Pushed b r n (w, k) = (
    (
      subst (λ m. Filled true b.leaf_validity m r) (sym (length-snoc b.view_buf n))
          (Filled-kept true b.leaf_validity (length b.view_buf) r w),
      omega (arith, k, length-snoc b.view_buf n),
    ),
    nullable-kept b.view_buf n b.leaf_validity r w,
    length-append b.view_buf (n ∷ []),
  )

  view-cleared :
      (b : ViewBuf N) (r : ℕ)
      → ViewWell true b (suc r)
      → Pushed true b r none (record {
        view_buf = b.view_buf ++ empty ∷ [];
        leaf_validity = set b.leaf_validity b.leaf_idx false;
        leaf_idx = suc b.leaf_idx;
      })
  view-cleared b r (w, k) = (
    (
      rw (k, length-snoc b.view_buf empty)
          (Filled-set true b.leaf_validity (length b.view_buf) r false w),
      omega (arith, k, length-snoc b.view_buf empty),
    ),
    rw k (nullable-cleared b.view_buf empty b.leaf_validity r w),
    length-append b.view_buf (empty ∷ []),
  )

  view-pushes :
      (io : Bool) (o : Option V) (b : ViewBuf N) (r : ℕ)
      → (io ≡ false → (v : V) × (o ≡ some v))
      → ViewWell io b (suc r)
      → Refines limit
          (each_option stored o)
          (Pushed io b r)
          ((view_pieces stored empty io).push io o b)
  unfolding view_pieces push_arm
  view-pushes true (some v) b r s w =
      Refines-then limit (stored v) (λ n. fits (some n)) (λ n m. n ≡ m) (Pushed true b r)
        (run (stored v)) _ (run-Refines limit (stored v))
        λ n m e. (some n, refl, rw (sym e) (view-Pushed b r n w))
  view-pushes false (some v) b r s w =
      Refines-then limit (stored v) (λ n. fits (some n)) (λ n m. n ≡ m) (Pushed false b r)
        (run (stored v)) _ (run-Refines limit (stored v))
        λ n m e. (
          some n,
          refl,
          rw (sym e) (tt, map-append some b.view_buf (n ∷ []), length-append b.view_buf (n ∷ [])),
        )
  view-pushes true none b r s w = (none, refl, view-cleared b r w)
  view-pushes false none b r s w = absurd (cc (s refl).1)

  pub view_pieces-IsLeaf :
      (io : Bool)
      → IsLeaf limit (view_pieces stored empty io) io stored (view_array io) (ViewWell io)
  unfolding view_pieces start_bits nullable
  view_pieces-IsLeaf true = record {
    start_well = λ t. (([], refl, refl), refl);
    start_empty = λ t. refl;
    start_count = λ t. refl;
    sized = λ b r w. length-nullable-Filled b.view_buf b.leaf_validity r w.0;
    pushes = view-pushes true;
  }
  view_pieces-IsLeaf false = record {
    start_well = λ t. tt;
    start_empty = λ t. refl;
    start_count = λ t. refl;
    sized = λ b r w. length-map some b.view_buf;
    pushes = view-pushes false;
  }

-- On every list of items, the code that is generated for a leaf under one or more `Vec`s that is stored
-- as a string or as bytes compiles. Where it returns, its view array under the list layers decodes to
-- the items with all `Option`s between two lists collapsed and each leaf stored; where it fails, it fails
-- with the error of the first leaf that cannot be stored, or a count is too large. This holds for shapes
-- whose option counts agree with their access chains.
pub emit_rows-Encodes_view :
    {V N : Type 0} (limit : ℕ) (stored : V → Checked N) (empty : N) (v : VecLayers)
    (items : List (Row (to_vec v.layers) v.inner_access V))
    → VecAgrees v
    → Refines limit
        (cells stored v items)
        (Encodes
          (view_pieces stored empty (has_inner_option v)).count
          (ViewWell (has_inner_option v))
          (view_array (has_inner_option v))
          (to_vec v.layers))
        (emit_rows (view_pieces stored empty (has_inner_option v)) v items)
emit_rows-Encodes_view limit stored empty v items agrees =
    emit_rows-Refines limit (view_pieces stored empty (has_inner_option v)) stored
      (view_array (has_inner_option v)) (ViewWell (has_inner_option v)) v
      (view_pieces-IsLeaf limit stored empty (has_inner_option v)) items agrees
