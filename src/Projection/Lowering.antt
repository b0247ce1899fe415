-- ===== src/Projection/Lowering.antt =====
-- The fields that df-derive-macros/src/lower/field.rs returns, against what the projection needs.
use df_derive.Prelude.{
  ℕ, suc, true, false, ◌≡◌, refl, Option, none, some, String, List, [], ◌∷◌, ◌⊎◌, inl, inr, All,
  if◌then◌else◌, positional_name,
}
use df_derive.Errors.{
  ok, Returns, Returns-bind, Returns-self, Returns-any, Returns-weaken, Returns-both,
}
use df_derive.Ir.{WrapperShape, LeafShape, LeafSpec, FieldIr}
use df_derive.Attrs.{FieldConversion, FieldDisposition, include, parse_field_disposition}
use df_derive.TypeAnalysis.{RawWrapper, AnalyzedBase, AnalyzedType, analyzed, analyze}
use df_derive.Lower.{
  FieldAttrRef, is_tuple_base, has_semantic_wrappers, reject_wrapped_in, reject_attrs_on_tuple,
  default_leaf_for_base, normalize_wrappers, parse_leaf_spec, parse_as_binary_shape, Lowered,
  lower_conversion, lower_analyzed, lower_included, SynField, lower_field,
  reject_direct_self_reference, reject_invalid_flatten_field,
  reject_unsupported_wrapped_nested_tuples,
}
use df_derive.Parser.{
  Fields, named, unit, unnamed, lower_fields, lower_named, lower_unnamed, push_field,
}
use df_derive.Layers.Validity.{Agrees, normalize_wrappers-Agrees}
use df_derive.Projection.Elements.{LeafAgrees, default_leaf-LeafAgrees}
use df_derive.Projection.Validated.{Plain, LeafPlain, LeafOf, is_tuple_leaf, default_leaf-LeafOf}
use df_derive.Projection.Overrides.{
  IsNoTuple, BinaryLeaf, override-IsNoTuple, binary_shape-BinaryLeaf,
}

-- A tuple leaf is bare with plain elements, or has no tuple among its elements.
unfoldable pub Projectable : LeafSpec → WrapperShape → Type 0
unfolding Plain
Projectable (LeafSpec.tuple es) w =
    ((w ≡ WrapperShape.leaf LeafShape.bare) × Plain false es) ⊎ Plain true es
Projectable l w = Unit

-- What lowering gives: a leaf that can be projected, and shapes whose counts agree.
abbrev pub WellFormed : LeafSpec → WrapperShape → Type 0
WellFormed l w = Projectable l w × Agrees w × LeafAgrees l

NoTuple-WellFormed :
    (l : LeafSpec) (ws : List RawWrapper)
    → is_tuple_leaf l ≡ false
    → WellFormed l (normalize_wrappers ws)
unfolding Projectable is_tuple_leaf LeafAgrees
NoTuple-WellFormed (LeafSpec.tuple es) ws h = cc
NoTuple-WellFormed _ ws h = (tt, normalize_wrappers-Agrees ws, tt)

LeafPlain-Projectable :
    (l : LeafSpec) (ws : List RawWrapper)
    → LeafPlain (has_semantic_wrappers ws) l
    → Projectable l (normalize_wrappers ws)
unfolding LeafPlain Projectable has_semantic_wrappers normalize_wrappers
LeafPlain-Projectable (LeafSpec.tuple es) [] h = inl (refl, h)
LeafPlain-Projectable (LeafSpec.tuple es) (w ∷ ws) h = inr h
LeafPlain-Projectable _ ws h = tt

abbrev LoweredWell : Lowered → Type 0
LoweredWell low = WellFormed low.leaf_spec low.wrapper_shape

-- the leaf of a field without an override
default-WellFormed :
    (name : String) (base : AnalyzedBase) (ws : List RawWrapper)
    → reject_wrapped_in name (has_semantic_wrappers ws) base ≡ ok tt
    → Returns (λ l. WellFormed l (normalize_wrappers ws)) (parse_leaf_spec name none base)
unfolding parse_leaf_spec
default-WellFormed name base ws h =
    let plain = default_leaf-LeafOf name true (has_semantic_wrappers ws) base h in
    let agree = default_leaf-LeafAgrees name true base in
    Returns-weaken _ (λ l. WellFormed l (normalize_wrappers ws))
      (default_leaf_for_base name true base)
      (λ l p. (LeafPlain-Projectable l ws p.0.1, normalize_wrappers-Agrees ws, p.1))
      (Returns-both (LeafOf (has_semantic_wrappers ws) base) LeafAgrees
        (default_leaf_for_base name true base) plain agree)

conversion-LoweredWell :
    (name : String) (c : FieldConversion) (base : AnalyzedBase) (ws : List RawWrapper)
    → reject_wrapped_in name (has_semantic_wrappers ws) base ≡ ok tt
    → Returns LoweredWell (lower_conversion name c base ws)
unfolding lower_conversion
conversion-LoweredWell name FieldConversion.default base ws h =
    Returns-bind (λ l. WellFormed l (normalize_wrappers ws)) LoweredWell
      (parse_leaf_spec name none base) _ (default-WellFormed name base ws h) λ l p. p
conversion-LoweredWell name FieldConversion.binary base ws h =
    Returns-bind (λ _. Unit) LoweredWell
      (if is_tuple_base base then reject_attrs_on_tuple name (some FieldAttrRef.binary) else ok tt)
      _ (Returns-any _)
      λ _ _.
        Returns-bind BinaryLeaf LoweredWell (parse_as_binary_shape name base ws) _
          (binary_shape-BinaryLeaf name base ws) λ r p. NoTuple-WellFormed r.0 r.1 p
conversion-LoweredWell name (FieldConversion.leaf_override o) base ws h =
    Returns-bind IsNoTuple LoweredWell (parse_leaf_spec name (some o) base) _
      (override-IsNoTuple name o base) λ l p. NoTuple-WellFormed l ws p
conversion-LoweredWell name (FieldConversion.flatten config) base ws h =
    Returns-bind (λ _. Unit) LoweredWell
      (reject_invalid_flatten_field name base (normalize_wrappers ws)) _ (Returns-any _)
      λ _ _.
        Returns-bind (λ l. WellFormed l (normalize_wrappers ws)) LoweredWell
          (parse_leaf_spec name none base) _ (default-WellFormed name base ws h) λ l p. p

abbrev pub FieldWell : FieldIr → Type 0
FieldWell f = WellFormed f.leaf_spec f.wrapper_shape

analyzed-FieldWell :
    (name : String) (index : Option ℕ) (struct_name : String) (c : FieldConversion)
    (a : AnalyzedType)
    → Returns FieldWell (lower_analyzed name index struct_name c a)
unfolding lower_analyzed reject_unsupported_wrapped_nested_tuples
analyzed-FieldWell name index struct_name c (analyzed base ws ty d) =
    let check = reject_wrapped_in name (has_semantic_wrappers ws) base in
    Returns-bind (λ _. Unit) FieldWell
      (reject_direct_self_reference name struct_name (analyzed base ws ty d)) _ (Returns-any _)
      λ _ _.
        Returns-bind (λ u. check ≡ ok tt) FieldWell check _ (Returns-self check)
          λ _ h.
            Returns-bind LoweredWell FieldWell (lower_conversion name c base ws) _
              (conversion-LoweredWell name c base ws h) λ low p. p

abbrev OptionWell : Option FieldIr → Type 0
OptionWell none = Unit
OptionWell (some f) = FieldWell f

included-OptionWell :
    (f : SynField) (name : String) (index : Option ℕ) (struct_name : String) (params : List String)
    (disposition : FieldDisposition)
    → Returns OptionWell (lower_included f name index struct_name params disposition)
included-OptionWell f name index struct_name params FieldDisposition.skip = tt
included-OptionWell f name index struct_name params (include c) =
    Returns-bind (λ _. Unit) OptionWell (analyze f.ty params) _ (Returns-any _)
      λ a _.
        Returns-bind FieldWell OptionWell (lower_analyzed name index struct_name c a) _
          (analyzed-FieldWell name index struct_name c a) λ ir p. p

field-OptionWell :
    (f : SynField) (name : String) (index : Option ℕ) (struct_name : String) (params : List String)
    → Returns OptionWell (lower_field f name index struct_name params)
unfolding lower_field
field-OptionWell f name index struct_name params =
    Returns-bind (λ _. Unit) OptionWell (parse_field_disposition f.attrs name) _ (Returns-any _)
      λ disposition _. included-OptionWell f name index struct_name params disposition

push-Well :
    (o : Option FieldIr) (fs : List FieldIr)
    → OptionWell o
    → All FieldWell fs
    → All FieldWell (push_field o fs)
push-Well none fs h k = k
push-Well (some f) fs h k = (h, k)

named-FieldWell :
    (struct_name : String) (params : List String) (fs : List (String × SynField))
    → Returns (All FieldWell) (lower_named struct_name params fs)
unfolding lower_named
named-FieldWell struct_name params [] = tt
named-FieldWell struct_name params ((name, f) ∷ fs) =
    Returns-bind OptionWell (All FieldWell) (lower_field f name none struct_name params) _
      (field-OptionWell f name none struct_name params)
      λ o p.
        Returns-bind (All FieldWell) (All FieldWell) (lower_named struct_name params fs) _
          (named-FieldWell struct_name params fs) λ irs q. push-Well o irs p q

unnamed-FieldWell :
    (struct_name : String) (params : List String) (fs : List SynField) (index : ℕ)
    → Returns (All FieldWell) (lower_unnamed struct_name params index fs)
unfolding lower_unnamed
unnamed-FieldWell struct_name params [] index = tt
unnamed-FieldWell struct_name params (f ∷ fs) index =
    Returns-bind OptionWell (All FieldWell)
      (lower_field f (positional_name index) (some index) struct_name params) _
      (field-OptionWell f _ (some index) struct_name params)
      λ o p.
        Returns-bind (All FieldWell) (All FieldWell)
          (lower_unnamed struct_name params (suc index) fs) _
          (unnamed-FieldWell struct_name params fs (suc index)) λ irs q. push-Well o irs p q

pub lower_fields-FieldWell :
    (name : String) (params : List String) (fields : Fields)
    → Returns (All FieldWell) (lower_fields name params fields)
unfolding lower_fields
lower_fields-FieldWell name params (named fs) = named-FieldWell name params fs
lower_fields-FieldWell name params unit = tt
lower_fields-FieldWell name params (unnamed fs) = unnamed-FieldWell name params fs 0
