-- ===== src/Schema/Unique.antt =====
-- The check for duplicate column names of df-derive-macros/src/codegen/support.rs.
use df_derive.Prelude.{
  Bool, true, false, ◌||◌, ◌≡◌, ◌↔◌, refl, subst, String, List, [], ◌∷◌, contains, ◌==◌, All,
  Bool-cases, inl, inr, arith,
}
use df_derive.Ir.{NestedLeaf, ColumnIr}
use df_derive.Schema.Entries.{
  SchemaFields, and_then_built, validated, field_names, all_fields, schema,
  needs_unique_name_validation, PolarsResult, built, failed, validate_from,
  validate_unique_column_names,
}

-- No name occurs twice.
unfoldable pub Distinct : List String → Type 0
Distinct [] = Unit
Distinct (name ∷ names) = All (λ m. (name == m) ≡ false) names × Distinct names

abbrev FreshIn : List String → List String → Type 0
FreshIn seen names = All (λ m. contains seen m ≡ false) names

or-false : (a b : Bool) → (a || b) ≡ false → (a ≡ false) × (b ≡ false)
or-false a b h = (ground (arith, h), ground (arith, h))

fresh-cons :
    (name : String) (seen names : List String)
    → FreshIn (name ∷ seen) names
    → All (λ m. (name == m) ≡ false) names × FreshIn seen names
fresh-cons name seen [] h = (tt, tt)
fresh-cons name seen (m ∷ names) h =
    let here = or-false (name == m) (contains seen m) h.0 in
    let rest = fresh-cons name seen names h.1 in ((here.0, rest.0), (here.1, rest.1))

fresh-of :
    (name : String) (seen names : List String)
    → All (λ m. (name == m) ≡ false) names
    → FreshIn seen names
    → FreshIn (name ∷ seen) names
fresh-of name seen [] h k = tt
fresh-of name seen (m ∷ names) h k = (rw (h.0, k.0) refl, fresh-of name seen names h.1 k.1)

validate_from_sound :
    (seen names : List String)
    → validate_from seen names ≡ built tt
    → FreshIn seen names × Distinct names
unfolding validate_from Distinct
validate_from_sound seen [] h = (tt, tt)
validate_from_sound seen (name ∷ names) h = elim (Bool-cases (contains seen name)) [
  | inl e ↦ cc (rw e at h)
  | inr e ↦
      let rest = validate_from_sound (name ∷ seen) names (rw e at h) in
      let split = fresh-cons name seen names rest.0 in ((e, split.1), (split.0, rest.1))
]

validate_from_complete :
    (seen names : List String)
    → FreshIn seen names
    → Distinct names
    → validate_from seen names ≡ built tt
unfolding validate_from Distinct
validate_from_complete seen [] h d = refl
validate_from_complete seen (name ∷ names) h d =
    rw h.0 (validate_from_complete (name ∷ seen) names (fresh-of name seen names d.0 h.1) d.1)

fresh-nil : (names : List String) → FreshIn [] names
fresh-nil [] = tt
fresh-nil (m ∷ names) = (refl, fresh-nil names)

-- The generated check accepts a list of column names exactly when no name occurs twice in it.
pub validate_unique_column_names-Distinct :
    (names : List String) → (validate_unique_column_names names ≡ built tt) ↔ Distinct names
unfolding validate_unique_column_names
validate_unique_column_names-Distinct names = (
  λ h. (validate_from_sound [] names h).1,
  λ d. validate_from_complete [] names (fresh-nil names) d,
)

accepted-Distinct :
    (r : PolarsResult (Unit {0})) (fs fields : SchemaFields)
    → (r ≡ built tt → Distinct (field_names fs))
    → and_then_built r (λ _. built fs) ≡ built fields
    → Distinct (field_names fields)
accepted-Distinct (failed e) fs fields k h = cc
accepted-Distinct (built u) fs fields k h = subst (λ x. Distinct (field_names x)) (cc h) (k refl)

validated-Distinct :
    (r : PolarsResult SchemaFields) (b : Bool) (fields : SchemaFields)
    → b ≡ true
    → and_then_built r (λ fs. validated b (field_names fs) fs) ≡ built fields
    → Distinct (field_names fields)
validated-Distinct (failed e) b fields t h = cc
validated-Distinct (built fs) false fields t h = cc
validated-Distinct (built fs) true fields t h =
    accepted-Distinct (validate_unique_column_names (field_names fs)) fs fields
      (validate_unique_column_names-Distinct (field_names fs)).0 h

-- When a column of the struct flattens or prefixes the names of an inner type, a schema that is
-- returned has no name twice.
pub schema-Distinct :
    (inner_schema : NestedLeaf → PolarsResult SchemaFields) (columns : List ColumnIr)
    (fields : SchemaFields)
    → needs_unique_name_validation columns ≡ true
    → schema inner_schema columns ≡ built fields
    → Distinct (field_names fields)
unfolding schema
schema-Distinct inner_schema columns fields n h =
    validated-Distinct (all_fields inner_schema columns) (needs_unique_name_validation columns)
      fields n h
