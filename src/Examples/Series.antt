-- ===== src/Examples/Series.antt =====
-- The theorems on the assembly of list arrays, at concrete inputs: an array is its length and the number
-- of its list types.
use df_derive.Prelude.{
  ℕ, suc, ◌≤◌, Bool, true, ◌&&◌, ◌≡◌, refl, Option, none, some, List, [], ◌∷◌, length, leb, eqb,
  arith, if◌then◌else◌,
}
use df_derive.Ir.{has_inner_option}
use df_derive.Schema.{DataType}
use df_derive.Encoder.{emit_rows, numeric_pieces, NumericBuf}
use df_derive.Encoder.Outcome.{fits, Refines}
use df_derive.Encoder.Lists.{last_offset, Ascending}
use df_derive.Encoder.Column.{cells}
use df_derive.Encoder.Leaves.Numeric.{NumericWell, numeric_array, numeric_pieces-IsLeaf}
use df_derive.Encoder.Assembly.{Arrow}
use df_derive.Encoder.Assembly.Finished.{Documented, MaskFits, SeriesOf, emit_rows-SeriesOf}
use df_derive.Examples.Shapes.{two_layers, two_layers-Agrees}
use df_derive.Encoder.Leaves.Booleans.{bool_array}
use df_derive.Encoder.VecBool.{build_vec_bool}
use df_derive.Encoder.VecBool.Finish.{BooleanArrays}
use df_derive.Encoder.VecBool.Finish.Finished.{
  DocumentedBooleans, BoolSeriesOf, build_vec_bool-SeriesOf,
}
use df_derive.Examples.Encoders.{plain_list, plain_flags, plain_list-Agrees, small, two_items}

abbrev lists_in : DataType → ℕ
lists_in (DataType.list d) = suc (lists_in d)
lists_in _ = 0

abbrev ascending : ℕ → List ℕ → Bool
ascending from [] = true
ascending from (to ∷ offsets) = leb from to && ascending to offsets

abbrev mask_fits : Option (List Bool) → ℕ → Bool
mask_fits none n = true
mask_fits (some bits) n = eqb (length bits) n

abbrev rows_between : List ℕ → ℕ
rows_between [] = 0
rows_between (from ∷ offsets) = length offsets

abbrev some_arrow : Arrow
some_arrow = record {
  ArrowDataType = ℕ;
  Array = ℕ × ℕ;
  OffsetsBuffer = List ℕ;
  dtype = λ arr. arr.1;
  len = λ arr. arr.0;
  offsets_of = λ o. o;
  offsets_try_from = λ ns. if ascending 0 ns then some ns else none;
  default_datatype = suc;
  list_array_new = λ t o child mask.
      if leb (last_offset 0 o) child.0 && mask_fits mask (rows_between o)
      then some (rows_between o, t)
      else none;
  to_arrow = lists_in;
  same = eqb;
}

ascending-true : (ns : List ℕ) (from : ℕ) → Ascending from ns → ascending from ns ≡ true
unfolding Ascending
ascending-true [] from h = refl
ascending-true (to ∷ ns) from h = ground (arith, h.0, ascending-true ns to h.1)

mask_fits-true : (mask : Option (List Bool)) (n : ℕ) → MaskFits mask n → mask_fits mask n ≡ true
mask_fits-true none n h = refl
mask_fits-true (some bits) n h = ground (arith, h)

new_array :
    (x : ℕ × ℕ) (m k : Bool) → m ≡ true → k ≡ true → (if m && k then some x else none) ≡ some x
new_array x m k h e = rw (h, e) refl

le-leb : (m n : ℕ) → m ≤ n → leb m n ≡ true
le-leb m n h = ground (arith, h)

some_array :
    (ns : List ℕ) (child : ℕ × ℕ) (mask : Option (List Bool))
    → last_offset 0 ns ≤ child.0
    → MaskFits mask (length ns)
    → some_arrow.list_array_new (suc child.1) (0 ∷ ns) child mask ≡ some (length ns, suc child.1)
unfolding last_offset
some_array ns child mask last fit =
    new_array (length ns, suc child.1) (leb (last_offset 0 ns) child.0) (mask_fits mask (length ns))
      (le-leb (last_offset 0 ns) child.0 last) (mask_fits-true mask (length ns) fit)

some_arrow-Documented : Documented some_arrow
some_arrow-Documented = record {
  offsets = λ ns up. (0 ∷ ns, rw (ascending-true ns 0 up) refl, refl);
  list_array = λ o ns child mask e last fit.
      ((length ns, suc child.1), rw e (some_array ns child mask last fit), refl, refl);
  list_type = λ d. refl;
  same_refl = λ t. ground arith;
}

abbrev numeric_seed : NumericBuf ℕ → ℕ × ℕ
numeric_seed b = (length (numeric_array (has_inner_option two_layers) b), 0)

emit_rows-SeriesOf_example :
    Refines 100
      (cells small two_layers two_items)
      (λ cs b. SeriesOf some_arrow numeric_seed DataType.int64 two_layers cs b)
      (emit_rows (numeric_pieces small 0 (has_inner_option two_layers)) two_layers two_items)
emit_rows-SeriesOf_example =
    emit_rows-SeriesOf 100 (numeric_pieces small 0 (has_inner_option two_layers)) small
      (numeric_array (has_inner_option two_layers)) (NumericWell (has_inner_option two_layers))
      two_layers some_arrow numeric_seed DataType.int64 some_arrow-Documented
      (numeric_pieces-IsLeaf 100 small 0 (has_inner_option two_layers)) (λ b w. (refl, refl))
      two_items two_layers-Agrees

abbrev some_booleans : BooleanArrays some_arrow
some_booleans = record {
  of_slice = λ bs. (length bs, 0);
  of_bits = λ io b. (length (bool_array io b), 0);
}

some_booleans-Documented : DocumentedBooleans some_arrow some_booleans
some_booleans-Documented = record { slice = λ bs. (refl, refl); bits = λ io b w. (refl, refl) }

build_vec_bool-SeriesOf_example :
    Refines 100
      (cells fits plain_list plain_flags)
      (BoolSeriesOf some_arrow some_booleans plain_list)
      (build_vec_bool plain_list plain_flags)
build_vec_bool-SeriesOf_example =
    build_vec_bool-SeriesOf 100 some_arrow some_booleans some_arrow-Documented
      some_booleans-Documented plain_list plain_flags plain_list-Agrees
