-- ===== src/Projection/Order.antt =====
-- The columns of df-derive-macros/src/lower/projection.rs against the walk over terminal leaves of
-- df-derive-macros/src/ir/visit.rs.
use df_derive.Prelude.{
  ℕ, suc, ◌≡◌, refl, ap, ◌∙◌, Option, none, some, String, List, [], ◌∷◌, ◌++◌, map, eqb, length,
  Bool-cases, inl, inr,
}
use df_derive.Ir.{
  WrapperShape, leaf, bare, LeafSpec, new_terminal, terminal_route, TerminalLeafSpec, TupleElements,
  no_elements, element, FieldIr, FieldSource, TupleProjectionStep, ColumnCommon, ColumnIr, common,
  from_vec, terminal_leaves, terminal_leaves_of,
}
use df_derive.Lower.{
  field_policy, one_column, column_of_context, compose_parent_with_element, ProjectedColumnContext,
  static, parent_option, parent_vec, is_vec_shape, project_leaf, project_tuple_elements,
  concat_columns, source_of, project_field_leaf, project_field, project_fields_to_columns,
}
use df_derive.Encoder.Lists.{map-append}

-- the leaf that a column encodes
unfoldable pub column_leaf : ColumnIr → LeafSpec
unfolding common
column_leaf c = (common c).leaf_spec.spec

-- the columns, if there are some, encode these leaves in this order
unfoldable pub Encode : List LeafSpec → Option (List ColumnIr) → Type 0
unfolding column_leaf
Encode leaves none = Unit
Encode leaves (some columns) = map column_leaf columns ≡ leaves

concat-Encode :
    (ls ks : List LeafSpec) (a b : Option (List ColumnIr))
    → Encode ls a
    → Encode ks b
    → Encode (ls ++ ks) (concat_columns a b)
unfolding Encode
concat-Encode ls ks none b h k = tt
concat-Encode ls ks (some a) none h k = tt
concat-Encode ls ks (some a) (some b) h k =
    map-append column_leaf a b ∙ ap (◌++ map column_leaf b) h ∙ ap (ls ++◌) k

column-Encode :
    (c : ColumnCommon) (root : FieldSource) (path : List TupleProjectionStep)
    (step : TupleProjectionStep) (ctx : ProjectedColumnContext)
    → Encode (c.leaf_spec.spec ∷ []) (one_column (column_of_context c root path step ctx))
unfolding column_of_context from_vec Encode column_leaf common
column-Encode c root [] step (static w) = refl
column-Encode c root (p ∷ path) step (static w) = refl
column-Encode c root [] step (parent_option w access) = refl
column-Encode c root (p ∷ path) step (parent_option w access) = refl
column-Encode c root [] step (parent_vec v layer access) = refl
column-Encode c root (p ∷ path) step (parent_vec v layer access) =
    elim (Bool-cases (eqb (suc (length (path ++ step ∷ []))) 1)) [
      | inl e ↦ rw e refl
      | inr e ↦ rw e tt
    ]

-- a leaf that has a route keeps itself in `TerminalLeafSpec`
terminal-Encode :
    (l : LeafSpec) (f : TerminalLeafSpec → Option (List ColumnIr))
    → ((t : TerminalLeafSpec) → Encode (t.spec ∷ []) (f t))
    → Encode (l ∷ []) (elim (new_terminal l) [ none ↦ none | some t ↦ f t ])
unfolding new_terminal terminal_route Encode
terminal-Encode (LeafSpec.tuple es) f h = tt
terminal-Encode _ f h = h _

leaf-Encode :
    (root : FieldSource) (name : String) (parent : WrapperShape) (path : List TupleProjectionStep)
    (step : TupleProjectionStep) (l : LeafSpec) (w : WrapperShape)
    → Encode (l ∷ []) (project_leaf root name parent path step l w)
unfolding project_leaf
leaf-Encode root name parent path step l w =
    terminal-Encode l
      (λ t. one_column (
        column_of_context (field_policy name t) root path step
          (compose_parent_with_element parent w)))
      (λ t.
        column-Encode (field_policy name t) root path step (compose_parent_with_element parent w))

elements-Encode :
    (es : TupleElements) (root : FieldSource) (prefix : String) (parent : WrapperShape) (index : ℕ)
    (path : List TupleProjectionStep)
    → Encode (terminal_leaves_of es) (project_tuple_elements root prefix parent index path es)
unfolding project_tuple_elements terminal_leaves Encode
elements-Encode no_elements root prefix parent index path = refl
elements-Encode (element (LeafSpec.tuple inner) w d rest) root prefix parent index path =
    elim (Bool-cases (is_vec_shape parent)) [
      | inl e ↦ rw e tt
      | inr e ↦ rw e (
          concat-Encode (terminal_leaves_of inner) (terminal_leaves_of rest) _ _
            (elements-Encode inner root _ (leaf bare) 0 _)
            (elements-Encode rest root prefix parent (suc index) path))
    ]
elements-Encode (element l w d rest) root prefix parent index path =
    concat-Encode (l ∷ []) (terminal_leaves_of rest) _ _ (leaf-Encode root _ parent path _ l w)
      (elements-Encode rest root prefix parent (suc index) path)

field_leaf-Encode :
    (f : FieldIr) (l : LeafSpec) → Encode (terminal_leaves l) (project_field_leaf f l)
unfolding new_terminal terminal_route terminal_leaves Encode column_leaf
field_leaf-Encode f (LeafSpec.tuple es) = elements-Encode es (source_of f) _ f.wrapper_shape 0 []
field_leaf-Encode f _ = refl

-- the terminal leaves of the fields, in their order
unfoldable pub all_leaves : List FieldIr → List LeafSpec
unfolding terminal_leaves
all_leaves [] = []
all_leaves (f ∷ fs) = terminal_leaves f.leaf_spec ++ all_leaves fs

fields-Encode : (fs : List FieldIr) → Encode (all_leaves fs) (project_fields_to_columns fs)
unfolding project_fields_to_columns project_field all_leaves Encode
fields-Encode [] = refl
fields-Encode (f ∷ fs) =
    concat-Encode (terminal_leaves f.leaf_spec) (all_leaves fs) _ _
      (field_leaf-Encode f f.leaf_spec) (fields-Encode fs)

-- The columns of a struct encode the terminal leaves of its fields, each once and in the order of the
-- walk over them, however deep the tuples are.
pub project_fields_to_columns-all_leaves :
    (fs : List FieldIr) (columns : List ColumnIr)
    → project_fields_to_columns fs ≡ some columns
    → map column_leaf columns ≡ all_leaves fs
unfolding Encode
project_fields_to_columns-all_leaves fs columns e = rw e at (fields-Encode fs)
