-- ===== src/Projection/Shapes.antt =====
-- The shapes of the columns that df-derive-macros/src/lower/projection.rs makes.
use df_derive.Prelude.{
  ℕ, suc, true, ◌≡◌, refl, Option, none, some, String, List, [], ◌∷◌, ◌++◌, inl, inr, Bool-cases,
  All, eqb, length, is_some, All-append,
}
use df_derive.Errors.{ok, Returns, Returns-bind, Returns-any}
use df_derive.Ir.{
  WrapperShape, leaf, bare, LeafSpec, new_terminal, terminal_route, TupleElements, no_elements,
  element, FieldIr, FieldSource, TupleProjectionStep, ColumnCommon, ColumnIr, field_column,
  tuple_static, tuple_parent_option, tuple_parent_vec, from_vec, column_name_for_ident,
}
use df_derive.Lower.{
  field_policy, one_column, column_of_context, compose_parent_with_element, ProjectedColumnContext,
  static, parent_option, parent_vec, is_vec_shape, project_leaf, project_tuple_elements,
  concat_columns, source_of, project_field_leaf, project_field, project_fields_to_columns,
}
use df_derive.Parser.{DeriveInput, StructIr, parse_to_ir, validate_struct_input, lower_fields}
use df_derive.Layers.Validity.{Agrees, VecAgrees, ContextAgrees, compose_parent_with_element-Agrees}
use df_derive.Projection.Elements.{LeafAgrees, ElementsAgree}
use df_derive.Projection.Safety.{parse_to_ir-is_some}
use df_derive.Projection.Lowering.{FieldWell, lower_fields-FieldWell}

-- In the shape of the column, the option counts agree with the access chains.
unfoldable pub ColumnAgrees : ColumnIr → Type 0
unfolding Agrees VecAgrees
ColumnAgrees (field_column c root w) = Agrees w
ColumnAgrees (tuple_static c root path w) = Agrees w
ColumnAgrees (tuple_parent_option c root path access w) = Agrees w
ColumnAgrees (tuple_parent_vec c root step layer access v) = VecAgrees v

-- what holds of the columns, when the projection gives some
unfoldable pub ColumnsAgree : Option (List ColumnIr) → Type 0
unfolding ColumnAgrees
ColumnsAgree none = Unit
ColumnsAgree (some cs) = All ColumnAgrees cs

concat-Agree :
    (a b : Option (List ColumnIr))
    → ColumnsAgree a
    → ColumnsAgree b
    → ColumnsAgree (concat_columns a b)
unfolding ColumnsAgree
concat-Agree none b h k = tt
concat-Agree (some a) none h k = tt
concat-Agree (some a) (some b) h k = All-append ColumnAgrees a b h k

column-Agrees :
    (c : ColumnCommon) (root : FieldSource) (path : List TupleProjectionStep)
    (step : TupleProjectionStep) (ctx : ProjectedColumnContext)
    → ContextAgrees ctx
    → ColumnsAgree (one_column (column_of_context c root path step ctx))
unfolding column_of_context from_vec ContextAgrees ColumnsAgree ColumnAgrees
column-Agrees c root [] step (static w) h = (h, tt)
column-Agrees c root (p ∷ path) step (static w) h = (h, tt)
column-Agrees c root [] step (parent_option w access) h = (h, tt)
column-Agrees c root (p ∷ path) step (parent_option w access) h = (h, tt)
column-Agrees c root [] step (parent_vec v layer access) h = (h, tt)
column-Agrees c root (p ∷ path) step (parent_vec v layer access) h =
    elim (Bool-cases (eqb (suc (length (path ++ step ∷ []))) 1)) [
      | inl e ↦ rw e (h, tt)
      | inr e ↦ rw e tt
    ]

leaf-Agrees :
    (root : FieldSource) (name : String) (parent : WrapperShape) (path : List TupleProjectionStep)
    (step : TupleProjectionStep) (l : LeafSpec) (w : WrapperShape)
    → Agrees parent
    → Agrees w
    → ColumnsAgree (project_leaf root name parent path step l w)
unfolding project_leaf ColumnsAgree
leaf-Agrees root name parent path step l w h k =
    elim (new_terminal l)
      as (λ o. ColumnsAgree (elim o [
        | none ↦ none
        | some t ↦ one_column (
            column_of_context (field_policy name t) root path step
              (compose_parent_with_element parent w))
      ])) [
        | none ↦ tt
        | some t ↦
            column-Agrees (field_policy name t) root path step
              (compose_parent_with_element parent w)
              (compose_parent_with_element-Agrees parent w h k)
      ]

bare-Agrees : Agrees (leaf bare)
unfolding Agrees
bare-Agrees = tt

elements-Agree :
    (es : TupleElements) (root : FieldSource) (prefix : String) (parent : WrapperShape) (index : ℕ)
    (path : List TupleProjectionStep)
    → Agrees parent
    → ElementsAgree es
    → ColumnsAgree (project_tuple_elements root prefix parent index path es)
unfolding project_tuple_elements ElementsAgree LeafAgrees ColumnsAgree
elements-Agree no_elements root prefix parent index path h k = tt
elements-Agree (element (LeafSpec.tuple inner) w d rest) root prefix parent index path h k =
    elim (Bool-cases (is_vec_shape parent)) [
      | inl e ↦ rw e tt
      | inr e ↦ rw e (
          concat-Agree _ _ (elements-Agree inner root _ (leaf bare) 0 _ bare-Agrees k.0)
            (elements-Agree rest root prefix parent (suc index) path h k.2))
    ]
elements-Agree (element l w d rest) root prefix parent index path h k =
    concat-Agree _ _ (leaf-Agrees root _ parent path _ l w h k.1)
      (elements-Agree rest root prefix parent (suc index) path h k.2)

field_leaf-Agrees :
    (f : FieldIr) (l : LeafSpec)
    → Agrees f.wrapper_shape
    → LeafAgrees l
    → ColumnsAgree (project_field_leaf f l)
unfolding new_terminal terminal_route LeafAgrees ColumnsAgree ColumnAgrees
field_leaf-Agrees f (LeafSpec.tuple es) h k =
    elements-Agree es (source_of f) (column_name_for_ident f.name) f.wrapper_shape 0 [] h k
field_leaf-Agrees f _ h k = (h, tt)

fields-Agree : (fs : List FieldIr) → All FieldWell fs → ColumnsAgree (project_fields_to_columns fs)
unfolding project_fields_to_columns project_field ColumnsAgree
fields-Agree [] h = tt
fields-Agree (f ∷ fs) h =
    concat-Agree _ _ (field_leaf-Agrees f f.leaf_spec h.0.1 h.0.2) (fields-Agree fs h.1)

parse_to_ir-Returns :
    (input : DeriveInput) → Returns (λ (r : StructIr). ColumnsAgree r.columns) (parse_to_ir input)
unfolding parse_to_ir
parse_to_ir-Returns input =
    Returns-bind (λ _. Unit) (λ (r : StructIr). ColumnsAgree r.columns)
      (validate_struct_input input.body) _ (Returns-any _)
      λ fields _.
        Returns-bind (All FieldWell) (λ (r : StructIr). ColumnsAgree r.columns)
          (lower_fields input.ident input.type_params fields) _
          (lower_fields-FieldWell input.ident input.type_params fields) λ fs h. fields-Agree fs h

columns-Agree :
    (o : Option (List ColumnIr))
    → is_some o ≡ true
    → ColumnsAgree o
    → (columns : List ColumnIr) × (o ≡ some columns) × All ColumnAgrees columns
unfolding ColumnsAgree
columns-Agree none h k = cc
columns-Agree (some columns) h k = (columns, refl, k)

-- Every struct that the parser accepts has its columns, and in each of them an option count is
-- positive exactly when the access chain beside it has an `Option` step, which is what the generated
-- scan relies on.
pub parse_to_ir-ColumnAgrees :
    (input : DeriveInput) (ir : StructIr)
    → parse_to_ir input ≡ ok ir
    → (columns : List ColumnIr) × (ir.columns ≡ some columns) × All ColumnAgrees columns
parse_to_ir-ColumnAgrees input ir e =
    columns-Agree ir.columns (parse_to_ir-is_some input ir e) (rw e at (parse_to_ir-Returns input))
