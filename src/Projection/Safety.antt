-- ===== src/Projection/Safety.antt =====
-- The `expect`s and `debug_assert!`s of df-derive-macros/src/lower/projection.rs, and the `expect` of
-- ir/leaf.rs, on what the lowering lets through.
use df_derive.Prelude.{
  ℕ, suc, true, false, ◌≡◌, refl, sym, subst, Option, none, some, String, List, [], ◌∷◌, inl, inr,
  is_some, arith, All,
}
use df_derive.Errors.{ok, Returns, Returns-bind, Returns-any}
use df_derive.Ir.{
  WrapperShape, leaf, bare, optional, vec, LeafSpec, new_terminal, terminal_route, TerminalLeafSpec,
  ColumnCommon, from_vec, TupleElements, no_elements, element, FieldIr, FieldSource,
  TupleProjectionStep, ColumnIr, column_name_for_ident,
}
use df_derive.Lower.{
  source_of, project_field_leaf, field_policy, one_column, column_of_context,
  compose_parent_with_element, project_leaf, project_tuple_elements, project_field,
  project_fields_to_columns, concat_columns, is_vec_shape,
}
use df_derive.Projection.Validated.{Plain, is_tuple_leaf}
use df_derive.Projection.Lowering.{Projectable, FieldWell, lower_fields-FieldWell}
use df_derive.Parser.{DeriveInput, StructIr, parse_to_ir, validate_struct_input, lower_fields}

concat-is_some :
    (a b : Option (List ColumnIr))
    → is_some a ≡ true
    → is_some b ≡ true
    → is_some (concat_columns a b) ≡ true
concat-is_some (some a) (some b) h k = refl
concat-is_some none b h k = h
concat-is_some (some a) none h k = k

one_column-is_some : (c : Option ColumnIr) → is_some c ≡ true → is_some (one_column c) ≡ true
one_column-is_some (some c) h = refl
one_column-is_some none h = h

-- a leaf that is no tuple has a route, so `TerminalLeafSpec::new` accepts it
terminal-is_some : (l : LeafSpec) → is_tuple_leaf l ≡ false → is_some (new_terminal l) ≡ true
unfolding new_terminal terminal_route is_tuple_leaf
terminal-is_some (LeafSpec.tuple _) h = sym h
terminal-is_some _ h = refl

project_leaf-is_some :
    (root : FieldSource) (name : String) (parent : WrapperShape) (path : List TupleProjectionStep)
    (step : TupleProjectionStep) (l : LeafSpec) (w : WrapperShape)
    → is_tuple_leaf l ≡ false
    → ((t : TerminalLeafSpec)
        → is_some (
            column_of_context
              (field_policy name t)
              root
              path
              step
              (compose_parent_with_element parent w))
          ≡ true)
    → is_some (project_leaf root name parent path step l w) ≡ true
unfolding project_leaf
project_leaf-is_some root name parent path step l w h k =
    elim (new_terminal l)
        as (λ o.
          is_some o ≡ true
          → is_some (elim o [
            | none ↦ none
            | some t ↦ one_column (
                column_of_context (field_policy name t) root path step
                  (compose_parent_with_element parent w))
          ])
            ≡ true) [ none ↦ λ e. e | some t ↦ λ e. one_column-is_some _ (k t) ]
      (terminal-is_some l h)

-- Under a bare parent the context is static, whatever the path.
column-bare :
    (c : ColumnCommon) (root : FieldSource) (path : List TupleProjectionStep)
    (step : TupleProjectionStep) (w : WrapperShape)
    → is_some (column_of_context c root path step (compose_parent_with_element (leaf bare) w))
      ≡ true
unfolding column_of_context compose_parent_with_element from_vec
column-bare c root [] step w = refl
column-bare c root (p ∷ path) step w = refl

-- At the first level the path has one step, whatever the parent.
column-first :
    (c : ColumnCommon) (root : FieldSource) (parent : WrapperShape) (step : TupleProjectionStep)
    (w : WrapperShape)
    → is_some (column_of_context c root [] step (compose_parent_with_element parent w)) ≡ true
unfolding column_of_context compose_parent_with_element from_vec
column-first c root (leaf bare) step w = refl
column-first c root (leaf (optional n a)) step w = refl
column-first c root (vec v) step w = refl

elements-bare-is_some :
    (es : TupleElements) (root : FieldSource) (prefix : String) (index : ℕ)
    (path : List TupleProjectionStep)
    → Plain false es
    → is_some (project_tuple_elements root prefix (leaf bare) index path es) ≡ true
unfolding project_tuple_elements Plain is_vec_shape is_tuple_leaf
elements-bare-is_some no_elements root prefix index path h = refl
elements-bare-is_some (element (LeafSpec.tuple inner) w d rest) root prefix index path h =
    concat-is_some _ _ (elements-bare-is_some inner root _ 0 _ h.2)
      (elements-bare-is_some rest root prefix (suc index) path h.3)
elements-bare-is_some (element l w d rest) root prefix index path h =
    concat-is_some _ _
      (project_leaf-is_some root _ (leaf bare) path _ l w refl λ t. column-bare _ root path _ w)
      (elements-bare-is_some rest root prefix (suc index) path h)

elements-wrapped-is_some :
    (root : FieldSource) (prefix : String) (parent : WrapperShape) (index : ℕ) (es : TupleElements)
    → Plain true es
    → is_some (project_tuple_elements root prefix parent index [] es) ≡ true
unfolding project_tuple_elements Plain is_vec_shape is_tuple_leaf
elements-wrapped-is_some root prefix parent index no_elements h = refl
elements-wrapped-is_some root prefix parent index (element (LeafSpec.tuple inner) w d rest) h =
    ground (arith, h.0)
elements-wrapped-is_some root prefix parent index (element l w d rest) h =
    concat-is_some _ _
      (project_leaf-is_some root _ parent [] _ l w refl λ t. column-first _ root parent _ w)
      (elements-wrapped-is_some root prefix parent (suc index) rest h)

-- What a lowered field is, for its projection to succeed.
field_leaf-is_some :
    (f : FieldIr) (l : LeafSpec)
    → Projectable l f.wrapper_shape
    → is_some (project_field_leaf f l) ≡ true
unfolding Projectable new_terminal terminal_route
field_leaf-is_some f (LeafSpec.tuple es) (inl h) =
    subst
      (λ w.
        is_some (project_tuple_elements (source_of f) (column_name_for_ident f.name) w 0 [] es)
        ≡ true)
      (sym h.0) (elements-bare-is_some es (source_of f) _ 0 [] h.1)
field_leaf-is_some f (LeafSpec.tuple es) (inr h) =
    elements-wrapped-is_some (source_of f) _ f.wrapper_shape 0 es h
field_leaf-is_some f _ h = refl

pub fields-is_some :
    (fs : List FieldIr) → All FieldWell fs → is_some (project_fields_to_columns fs) ≡ true
unfolding project_fields_to_columns project_field
fields-is_some [] h = refl
fields-is_some (f ∷ fs) h =
    concat-is_some _ _ (field_leaf-is_some f f.leaf_spec h.0.0) (fields-is_some fs h.1)

parse_to_ir-Returns :
    (input : DeriveInput) → Returns (λ (r : StructIr). is_some r.columns ≡ true) (parse_to_ir input)
unfolding parse_to_ir
parse_to_ir-Returns input =
    Returns-bind (λ _. Unit) (λ (r : StructIr). is_some r.columns ≡ true)
      (validate_struct_input input.body) _ (Returns-any _)
      λ fields _.
        Returns-bind (All FieldWell) (λ (r : StructIr). is_some r.columns ≡ true)
          (lower_fields input.ident input.type_params fields) _
          (lower_fields-FieldWell input.ident input.type_params fields) λ fs h. fields-is_some fs h

-- Whatever input the parser accepts, its projection to columns meets none of the panics: each
-- `expect` finds its value, and each `debug_assert!` holds.
pub parse_to_ir-is_some :
    (input : DeriveInput) (ir : StructIr) → parse_to_ir input ≡ ok ir → is_some ir.columns ≡ true
parse_to_ir-is_some input ir e = rw e at (parse_to_ir-Returns input)
