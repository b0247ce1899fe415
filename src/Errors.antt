-- ===== src/Errors.antt =====
-- The diagnostics of df-derive-macros as values: one constructor for each `syn::Error` that the
-- sources build, with the values that its text interpolates. Spans are left out.
use df_derive.Prelude.{ℕ, Bool, ◌≡◌, refl, String}
use df_derive.Ir.{DateTimeUnit}

pub data UnsupportedCollection : Type 0 where
  hash_map b_tree_map hash_set b_tree_set vec_deque linked_list : UnsupportedCollection

-- The key of a field attribute, as the conflict tests and the labels use it.
pub data FieldOverrideKey : Type 0 where
  skip as_binary as_str as_string decimal time_unit flatten : FieldOverrideKey

pub data Error : Type 0 where
  -- the model's own: a loop ran out of its fuel
  out_of_fuel : Error
  -- `syn` refused the form of an attribute's value
  syn_error : Error
  -- type_analysis
  unsupported_field_type mutable_reference unit_field bare_duration bare_str bare_slice : Error
  unsupported_collection : UnsupportedCollection → Error
  -- lower/errors, with the field's display name
  unannotated_borrowed_bytes unannotated_cow_bytes : String → Bool → Error
  borrowed_slice cow_slice as_str_wrong_base as_string_std_duration as_string_bytes : String → Error
  as_string_slice as_string_tuple decimal_wrong_base time_unit_naive_date : String → Error
  time_unit_naive_time time_unit_wrong_base : String → Error
  bare_binary_u8 binary_inner_option binary_wrong_base binary_cow_slice : String → Error
  binary_borrowed_slice unsupported_wrapped_nested_tuple invalid_flatten_field : String → Error
  unsupported_tuple_attr : String → FieldOverrideKey → Error
  direct_self_reference : String → String → Error
  -- parser
  derive_on_enum derive_on_union : Error
  -- attrs/decimal.rs
  precision_not_u8 scale_not_u8 unknown_decimal_key missing_precision missing_scale : Error
  precision_out_of_range scale_out_of_range : ℕ → Error
  duplicate_precision duplicate_scale scale_exceeds_precision : ℕ → ℕ → Error
  -- attrs/field.rs
  invalid_time_unit : String → Error
  empty_prefix unknown_flatten_key unknown_field_key : Error
  duplicate_prefix : String → String → Error
  -- attrs/field_conflicts.rs
  duplicate_override : String → FieldOverrideKey → Error
  duplicate_decimal : String → ℕ → ℕ → ℕ → ℕ → Error
  duplicate_time_unit : String → DateTimeUnit → DateTimeUnit → Error
  override_conflict : String → FieldOverrideKey → FieldOverrideKey → Error
  -- attrs/container.rs
  invalid_trait_path duplicate_runtime_override : String → Error
  unknown_container_key columnar_without_trait mixed_builtin_runtime : Error

-- `Result<A, syn::Error>`
pub data Result {ℓ} (A : Type ℓ) : Type ℓ where
  err : Error → Result A
  ok : A → Result A

infixl 5 ◌>>=◌ ◌>>◌
-- the `?` of the sources: what follows runs on a value, and an error is returned at once
abbrev pub ◌>>=◌ {ℓ κ} : {A : Type ℓ} {B : Type κ} → Result A → (A → Result B) → Result B
err diagnostic >>= next = err diagnostic
ok value >>= next = next value

abbrev pub ◌>>◌ {ℓ} : {A : Type ℓ} → Result (Unit {0}) → Result A → Result A
first >> second = first >>= λ done. second

-- The fuel sufficed, and a value satisfies `P`.
abbrev pub Finishes {ℓ} : {A : Type ℓ} → (A → Type 0) → Result A → Type 0
Finishes P (ok a) = P a
Finishes P (err out_of_fuel) = ⊥
Finishes P (err _) = Unit

pub Finishes-err {ℓ κ} :
    {A : Type ℓ} {B : Type κ} (P : A → Type 0) (Q : B → Type 0) (e : Error)
    → Finishes P (err e)
    → Finishes Q (err e)
Finishes-err P Q out_of_fuel h = absurd h
Finishes-err P Q _ h = tt

pub Finishes-bind {ℓ κ} :
    {A : Type ℓ} {B : Type κ} (P : A → Type 0) (Q : B → Type 0) (m : Result A) (f : A → Result B)
    → Finishes P m
    → ((a : A) → P a → Finishes Q (f a))
    → Finishes Q (m >>= f)
Finishes-bind P Q (ok a) f h k = k a h
Finishes-bind P Q (err e) f h k = Finishes-err P Q e h

-- What holds of the value, when there is one.
abbrev pub Returns {ℓ} : {A : Type ℓ} → (A → Type 0) → Result A → Type 0
Returns P (ok a) = P a
Returns P (err _) = Unit

pub Returns-bind {ℓ κ} :
    {A : Type ℓ} {B : Type κ} (P : A → Type 0) (Q : B → Type 0) (m : Result A) (f : A → Result B)
    → Returns P m
    → ((a : A) → P a → Returns Q (f a))
    → Returns Q (m >>= f)
Returns-bind P Q (ok a) f h k = k a h
Returns-bind P Q (err e) f h k = tt

pub Returns-self : {A : Type 0} (m : Result A) → Returns (λ a. m ≡ ok a) m
Returns-self (ok a) = refl
Returns-self (err e) = tt

pub Returns-any {ℓ} : {A : Type ℓ} (m : Result A) → Returns (λ _. Unit) m
Returns-any (ok a) = tt
Returns-any (err e) = tt

pub Returns-weaken {ℓ} :
    {A : Type ℓ} (P Q : A → Type 0) (m : Result A)
    → ((a : A) → P a → Q a)
    → Returns P m
    → Returns Q m
Returns-weaken P Q (ok a) f h = f a h
Returns-weaken P Q (err e) f h = tt

pub Returns-eq {ℓ} :
    {A : Type ℓ} (P : A → Type 0) (m : Result A) {a : A} → Returns P m → m ≡ ok a → P a
Returns-eq P m h e = rw e at h

pub Returns-both {ℓ} :
    {A : Type ℓ} (P Q : A → Type 0) (m : Result A)
    → Returns P m
    → Returns Q m
    → Returns (λ a. P a × Q a) m
Returns-both P Q (err e) h k = tt
Returns-both P Q (ok a) h k = (h, k)
