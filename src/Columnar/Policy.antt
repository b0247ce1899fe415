-- ===== src/Columnar/Policy.antt =====
-- The policy of nested names that the builders of df-derive-macros/src/codegen/column_emit.rs are given,
-- for the columns of lower/projection.rs.
use df_derive.Prelude.{
  ℕ, suc, ◌≡◌, refl, Option, none, some, String, List, [], ◌∷◌, ◌++◌, inl, inr, Bool-cases, All,
  eqb, length, All-append, subst,
}
use df_derive.Ir.{
  WrapperShape, leaf, bare, LeafSpec, new_terminal, terminal_route, TupleElements, no_elements,
  element, FieldIr, FieldSource, TupleProjectionStep, TerminalLeafSpec, ColumnIr, common, from_vec,
  column_name_for_ident,
}
use df_derive.Lower.{
  field_policy, one_column, column_of_context, compose_parent_with_element, ProjectedColumnContext,
  static, parent_option, parent_vec, is_vec_shape, project_leaf, project_tuple_elements,
  concat_columns, source_of, project_field_leaf, project_field, project_fields_to_columns,
}
use df_derive.Columnar.{emitted_policy}

-- The builder gets the policy of the column.
unfoldable pub HasPolicy : ColumnIr → Type 0
unfolding emitted_policy common
HasPolicy c = emitted_policy c ≡ (common c).nested_name_policy

abbrev AllPolicies : Option (List ColumnIr) → Type 0
AllPolicies none = Unit
AllPolicies (some cs) = All HasPolicy cs

concat-AllPolicies :
    (a b : Option (List ColumnIr))
    → AllPolicies a
    → AllPolicies b
    → AllPolicies (concat_columns a b)
concat-AllPolicies none b h k = tt
concat-AllPolicies (some a) none h k = tt
concat-AllPolicies (some a) (some b) h k = All-append HasPolicy a b h k

column-AllPolicies :
    (name : String) (t : TerminalLeafSpec) (root : FieldSource) (path : List TupleProjectionStep)
    (step : TupleProjectionStep) (ctx : ProjectedColumnContext)
    → AllPolicies (one_column (column_of_context (field_policy name t) root path step ctx))
unfolding column_of_context from_vec HasPolicy
column-AllPolicies name t root [] step (static w) = (refl, tt)
column-AllPolicies name t root (p ∷ path) step (static w) = (refl, tt)
column-AllPolicies name t root [] step (parent_option w access) = (refl, tt)
column-AllPolicies name t root (p ∷ path) step (parent_option w access) = (refl, tt)
column-AllPolicies name t root [] step (parent_vec v layer access) = (refl, tt)
column-AllPolicies name t root (p ∷ path) step (parent_vec v layer access) =
    elim (Bool-cases (eqb (suc (length (path ++ step ∷ []))) 1)) [
      | inl e ↦ rw e (refl, tt)
      | inr e ↦ rw e tt
    ]

leaf-AllPolicies :
    (root : FieldSource) (name : String) (parent : WrapperShape) (path : List TupleProjectionStep)
    (step : TupleProjectionStep) (l : LeafSpec) (w : WrapperShape)
    → AllPolicies (project_leaf root name parent path step l w)
unfolding project_leaf
leaf-AllPolicies root name parent path step l w =
    elim (new_terminal l)
      as (λ o. AllPolicies (elim o [
        | none ↦ none
        | some t ↦ one_column (
            column_of_context (field_policy name t) root path step
              (compose_parent_with_element parent w))
      ])) [
        | none ↦ tt
        | some t ↦ column-AllPolicies name t root path step (compose_parent_with_element parent w)
      ]

elements-AllPolicies :
    (es : TupleElements) (root : FieldSource) (prefix : String) (parent : WrapperShape) (index : ℕ)
    (path : List TupleProjectionStep)
    → AllPolicies (project_tuple_elements root prefix parent index path es)
unfolding project_tuple_elements
elements-AllPolicies no_elements root prefix parent index path = tt
elements-AllPolicies (element (LeafSpec.tuple inner) w d rest) root prefix parent index path =
    elim (Bool-cases (is_vec_shape parent)) [
      | inl e ↦ rw e tt
      | inr e ↦ rw e (
          concat-AllPolicies _ _ (elements-AllPolicies inner root _ (leaf bare) 0 _)
            (elements-AllPolicies rest root prefix parent (suc index) path))
    ]
elements-AllPolicies (element l w d rest) root prefix parent index path =
    concat-AllPolicies _ _ (leaf-AllPolicies root _ parent path _ l w)
      (elements-AllPolicies rest root prefix parent (suc index) path)

field_leaf-AllPolicies : (f : FieldIr) (l : LeafSpec) → AllPolicies (project_field_leaf f l)
unfolding new_terminal terminal_route HasPolicy
field_leaf-AllPolicies f (LeafSpec.tuple es) =
    elements-AllPolicies es (source_of f) (column_name_for_ident f.name) f.wrapper_shape 0 []
field_leaf-AllPolicies f _ = (refl, tt)

fields-AllPolicies : (fs : List FieldIr) → AllPolicies (project_fields_to_columns fs)
unfolding project_fields_to_columns project_field
fields-AllPolicies [] = tt
fields-AllPolicies (f ∷ fs) =
    concat-AllPolicies _ _ (field_leaf-AllPolicies f f.leaf_spec) (fields-AllPolicies fs)

pub project_fields_to_columns-HasPolicy :
    (fs : List FieldIr) (columns : List ColumnIr)
    → project_fields_to_columns fs ≡ some columns
    → All HasPolicy columns
project_fields_to_columns-HasPolicy fs columns h = subst AllPolicies h (fields-AllPolicies fs)
