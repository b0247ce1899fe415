-- ===== src/Encoder/VecBool/Finish.antt =====
-- How the code for a Boolean field under one or more `Vec`s in
-- df-derive-macros/src/codegen/encoder/vec.rs makes a series of its buffers.
pub mod Finished
use df_derive.Prelude.{Bool, none, List}
use df_derive.Ir.{VecLayers, to_vec, has_inner_option}
use df_derive.Schema.Types.{DataType}
use df_derive.Encoder.Leaf.{BoolBuf}
use df_derive.Encoder.Assembly.{
  Arrow, Finish, ◌next◌, ListAssembly, layer_array, assemble_helper, shape_assemble_list_stack,
}
use df_derive.Encoder.VecBool.{BareBools, BoolColumn, from_slice, scanned}

-- The arrays that are made of the values: `BooleanArray::from_slice`, and `BooleanArray::new` on the
-- frozen bitmaps of the scan, the second of which is used where the shape has an inner option.
pub record BooleanArrays (a : Arrow) : Type 0 where
  pub of_slice : List Bool → a.Array
  pub of_bits : Bool → BoolBuf → a.Array

module _ (a : Arrow) (arrays : BooleanArrays a) where
  -- the end of `bool_bare_depth1_body`: one list array without a mask
  unfoldable pub bool_bare_series : BareBools → Finish (ListAssembly a)
  unfolding layer_array assemble_helper
  bool_bare_series b =
      layer_array a (record { pushed = b.inner_offsets; validity = none }) (arrays.of_slice b.flat)
      next λ list_arr. assemble_helper a list_arr DataType.boolean

  unfoldable pub finish_vec_bool :
      (v : VecLayers) → BoolColumn (to_vec v.layers) → Finish (ListAssembly a)
  unfolding bool_bare_series shape_assemble_list_stack has_inner_option
  finish_vec_bool v (from_slice b) = bool_bare_series b
  finish_vec_bool v (scanned b) =
      shape_assemble_list_stack a (arrays.of_bits (has_inner_option v)) DataType.boolean
        (to_vec v.layers) b
