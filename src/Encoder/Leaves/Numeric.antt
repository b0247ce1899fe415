-- ===== src/Encoder/Leaves/Numeric.antt =====
-- `numeric_leaf_pieces` of df-derive-macros/src/codegen/encoder/vec.rs.
use df_derive.Prelude.{
  ℕ, suc, ◌+◌, ◌-◌, Bool, true, false, ◌≡◌, refl, sym, subst, Option, none, some, List, [], ◌∷◌,
  ◌++◌, length, map, arith, length-append,
}
use df_derive.Ir.{VecLayers, to_vec, has_inner_option}
use df_derive.Layers.Validity.{VecAgrees}
use df_derive.Encoder.Outcome.{Checked, fits, run, run-Refines, Refines, Refines-then}
use df_derive.Encoder.Leaf.{NumericBuf, numeric_pieces, push_arm, start_bits}
use df_derive.Encoder.Scan.{Row, emit_rows}
use df_derive.Encoder.Lists.{nullable, map-append, length-map}
use df_derive.Encoder.Decoding.{each_option, IsLeaf, length-snoc}
use df_derive.Encoder.Column.{Encodes, cells, emit_rows-Refines}
use df_derive.Encoder.Leaves.Bits.{
  Filled, Filled-kept, Filled-set, nullable-kept, nullable-cleared, length-nullable-Filled,
}

-- the Arrow array that `leaf_arr_expr` makes of the buffers
abbrev pub numeric_array : {N : Type 0} → Bool → NumericBuf N → List (Option N)
numeric_array true b = nullable b.flat b.leaf_validity
numeric_array false b = map some b.flat

abbrev pub NumericWell : {N : Type 0} → Bool → NumericBuf N → ℕ → Type 0
NumericWell true b r = Filled true b.leaf_validity (length b.flat) r
NumericWell false b r = Unit

module _ {V N : Type 0} (limit : ℕ) (stored : V → Checked N) (default : N) where
  abbrev Pushed : Bool → NumericBuf N → ℕ → Option N → NumericBuf N → Type 0
  Pushed io b r new b' =
      NumericWell io b' r
      × (numeric_array io b' ≡ numeric_array io b ++ new ∷ [])
      × (length b'.flat ≡ length b.flat + 1)

  numeric-Pushed :
      (io : Bool) (b : NumericBuf N) (r : ℕ) (n : N)
      → NumericWell io b (suc r)
      → Pushed io b r (some n) (record b { flat = b.flat ++ n ∷ [] })
  numeric-Pushed true b r n w = (
    subst (λ k. Filled true b.leaf_validity k r) (sym (length-snoc b.flat n))
        (Filled-kept true b.leaf_validity (length b.flat) r w),
    nullable-kept b.flat n b.leaf_validity r w,
    length-append b.flat (n ∷ []),
  )
  numeric-Pushed false b r n w =
      (tt, map-append some b.flat (n ∷ []), length-append b.flat (n ∷ []))

  numeric-pushes :
      (io : Bool) (o : Option V) (b : NumericBuf N) (r : ℕ)
      → (io ≡ false → (v : V) × (o ≡ some v))
      → NumericWell io b (suc r)
      → Refines limit
          (each_option stored o)
          (Pushed io b r)
          ((numeric_pieces stored default io).push io o b)
  unfolding numeric_pieces push_arm
  numeric-pushes true (some v) b r s w =
      Refines-then limit (stored v) (λ n. fits (some n)) (λ n m. n ≡ m) (Pushed true b r)
        (run (stored v)) _ (run-Refines limit (stored v))
        λ n m e. (some n, refl, rw (sym e) (numeric-Pushed true b r n w))
  numeric-pushes false (some v) b r s w =
      Refines-then limit (stored v) (λ n. fits (some n)) (λ n m. n ≡ m) (Pushed false b r)
        (run (stored v)) _ (run-Refines limit (stored v))
        λ n m e. (some n, refl, rw (sym e) (numeric-Pushed false b r n w))
  numeric-pushes true none b r s w =
      let at : length (b.flat ++ default ∷ []) - 1 ≡ length b.flat =
        omega (arith, length-snoc b.flat default) in
      (
        none,
        refl,
        (
          rw (at, length-snoc b.flat default)
              (Filled-set true b.leaf_validity (length b.flat) r false w),
          rw at (nullable-cleared b.flat default b.leaf_validity r w),
          length-append b.flat (default ∷ []),
        ),
      )
  numeric-pushes false none b r s w = absurd (cc (s refl).1)

  pub numeric_pieces-IsLeaf :
      (io : Bool)
      → IsLeaf limit
          (numeric_pieces stored default io)
          io
          stored
          (numeric_array io)
          (NumericWell io)
  unfolding numeric_pieces start_bits nullable
  numeric_pieces-IsLeaf true = record {
    start_well = λ t. ([], refl, refl);
    start_empty = λ t. refl;
    start_count = λ t. refl;
    sized = λ b r w. length-nullable-Filled b.flat b.leaf_validity r w;
    pushes = numeric-pushes true;
  }
  numeric_pieces-IsLeaf false = record {
    start_well = λ t. tt;
    start_empty = λ t. refl;
    start_count = λ t. refl;
    sized = λ b r w. length-map some b.flat;
    pushes = numeric-pushes false;
  }

-- On every list of items, the code that is generated for a numeric leaf under one or more `Vec`s
-- compiles. Where it returns, its buffers decode, as nested Arrow lists, to the items with all
-- `Option`s between two lists collapsed into one null and each leaf stored; where it fails, it fails
-- with the error of the first leaf that cannot be stored, or a list offset is 2^63 or more. This holds
-- for shapes whose option counts agree with their access chains.
pub emit_rows-Encodes :
    {V N : Type 0} (limit : ℕ) (stored : V → Checked N) (default : N) (v : VecLayers)
    (items : List (Row (to_vec v.layers) v.inner_access V))
    → VecAgrees v
    → Refines limit
        (cells stored v items)
        (Encodes
          (numeric_pieces stored default (has_inner_option v)).count
          (NumericWell (has_inner_option v))
          (numeric_array (has_inner_option v))
          (to_vec v.layers))
        (emit_rows (numeric_pieces stored default (has_inner_option v)) v items)
emit_rows-Encodes limit stored default v items agrees =
    emit_rows-Refines limit (numeric_pieces stored default (has_inner_option v)) stored
      (numeric_array (has_inner_option v)) (NumericWell (has_inner_option v)) v
      (numeric_pieces-IsLeaf limit stored default (has_inner_option v)) items agrees
