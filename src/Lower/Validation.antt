-- ===== src/Lower/Validation.antt =====
-- df-derive-macros/src/lower/validation.rs
use df_derive.Prelude.{Bool, false, ◌&&◌, ◌||◌, String, ◌==◌, if◌then◌else◌}
use df_derive.Syn.{SynType, path, segment, no_segments}
use df_derive.Errors.{Result, ok, err, direct_self_reference, ◌>>◌}
use df_derive.TypeAnalysis.{
  is_no_arguments, AnalyzedBase, AnalyzedType, AnalyzedTypes, struct, tuple, analyzed, no_elems,
  and_elem,
}

unfoldable pub is_direct_self_type : SynType → String → Bool
unfolding is_no_arguments
is_direct_self_type (path false (segment last _ no_segments)) struct_name =
    last == "Self" || last == struct_name
is_direct_self_type (path false (segment first args (segment last _ no_segments))) struct_name =
    is_no_arguments args && ((first == "crate" || first == "self") && last == struct_name)
is_direct_self_type _ struct_name = false

unfoldable mutual
  unfolding is_direct_self_type

  pub reject_self_in : String → String → AnalyzedBase → Result (Unit {0})
  reject_self_in name struct_name (struct ty) =
      if is_direct_self_type ty struct_name
      then err (direct_self_reference name struct_name)
      else ok tt
  reject_self_in name struct_name (tuple elements) = reject_self_elems name struct_name elements
  reject_self_in name struct_name _ = ok tt

  pub reject_self_elems : String → String → AnalyzedTypes → Result (Unit {0})
  reject_self_elems name struct_name no_elems = ok tt
  reject_self_elems name struct_name (and_elem (analyzed base ws ty d) rest) =
      reject_self_in name struct_name base >> reject_self_elems name struct_name rest

unfoldable pub reject_direct_self_reference : String → String → AnalyzedType → Result (Unit {0})
unfolding reject_self_in
reject_direct_self_reference name struct_name (analyzed base ws ty d) =
    reject_self_in name struct_name base
