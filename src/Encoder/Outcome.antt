-- ===== src/Encoder/Outcome.antt =====
-- df-derive-macros/src/codegen: what a run of the generated code comes to, and the checked conversions
-- of encoder/wrapper_access.rs.
use df_derive.Prelude.{
  Bool, true, false, String, ℕ, ◌^◌, ◌≤◌, ◌≡◌, refl, ltb, arith, if◌then◌else◌, Bool-cases, ◌⊎◌,
  inl, inr,
}
use df_derive.Ir.{DateTimeUnit}
use df_derive.Decimal128.{ℤ}
use df_derive.Schema.Types.{DataType}

-- The errors of the generated code, each with the values that its text shows.
pub data ComputeError : Type 0 where
  list_offset position : ℕ → ComputeError
  date_time_nanos naive_date_time_nanos : ComputeError
  std_duration chrono_duration : DateTimeUnit → ComputeError
  decimal_precision : ℤ → ℕ → ℕ → ComputeError
  decimal_rescale : ℕ → ComputeError
  display_failed : ComputeError
  -- of a frame that an inner type's own code returns
  nested_height : ℕ → ℕ → ComputeError
  nested_dtype : String → DataType → DataType → ComputeError
  -- errors of Polars and of the inner type
  column_not_found duplicate_column : String → ComputeError
  take_out_of_bounds inner_error : ComputeError

-- A value, an error that the code returns, or no run at all, as the code would not compile.
pub data Outcome {ℓ} (A : Type ℓ) : Type ℓ where
  done : A → Outcome A
  compute_error : ComputeError → Outcome A
  ill_typed : Outcome A

infixl 5 ◌then◌
abbrev pub ◌then◌ {ℓ κ} : {A : Type ℓ} {B : Type κ} → Outcome A → (A → Outcome B) → Outcome B
done a then f = f a
compute_error e then f = compute_error e
ill_typed then f = ill_typed

-- What an expression with `?` in it comes to.
pub data Checked {ℓ} (A : Type ℓ) : Type ℓ where
  fits : A → Checked A
  refused : ComputeError → Checked A

infixl 5 ◌>>=◌
abbrev pub ◌>>=◌ {ℓ κ} : {A : Type ℓ} {B : Type κ} → Checked A → (A → Checked B) → Checked B
fits a >>= f = f a
refused e >>= f = refused e

pub >>=-eq-fits {ℓ κ} :
    {A : Type ℓ} {B : Type κ} (m : Checked A) (f : A → Checked B) (b : B)
    → (m >>= f) ≡ fits b
    → (a : A) × (m ≡ fits a) × (f a ≡ fits b)
>>=-eq-fits (fits a) f b h = (a, refl, h)
>>=-eq-fits (refused e) f b h = cc

pub both-eq-fits {ℓ κ μ} :
    {A : Type ℓ} {B : Type κ} {C : Type μ} (m : Checked A) (n : Checked B) (g : A → B → C) (c : C)
    → (m >>= λ a. n >>= λ b. fits (g a b)) ≡ fits c
    → (a : A) × (b : B) × (m ≡ fits a) × (n ≡ fits b) × (g a b ≡ c)
both-eq-fits (fits a) (fits b) g c h = (a, b, refl, refl, cc h)
both-eq-fits (fits a) (refused e) g c h = cc
both-eq-fits (refused e) n g c h = cc

abbrev pub run {ℓ} : {A : Type ℓ} → Checked A → Outcome A
run (fits a) = done a
run (refused e) = compute_error e

unfoldable pub list_offset_i64 : ℕ → Outcome ℕ
list_offset_i64 n = if ltb n (2 ^ 63) then done n else compute_error (list_offset n)

-- `limit` is one more than the greatest `IdxSize` of Polars
unfoldable pub idx_size_len : ℕ → ℕ → Outcome ℕ
idx_size_len limit n = if ltb n limit then done n else compute_error (position n)

-- An error for a count that does not fit: an offset in `i64`, a position in `IdxSize`.
abbrev pub TooLarge : ℕ → ComputeError → Type 0
TooLarge limit (list_offset n) = 2 ^ 63 ≤ n
TooLarge limit (position n) = limit ≤ n
TooLarge limit _ = ⊥

-- A run against a specification that says what it should come to: where the run returns, the
-- specification has a value, related to the result; where it fails, the specification fails with the
-- same error, or a count did not fit. A run that does not compile refines nothing.
abbrev pub Refines : {A C : Type 0} → ℕ → Checked C → (C → A → Type 0) → Outcome A → Type 0
Refines {C} limit spec P (done a) = (c : C) × (spec ≡ fits c) × P c a
Refines limit spec P (compute_error e) = (spec ≡ refused e) ⊎ TooLarge limit e
Refines limit spec P ill_typed = ⊥

module _ {A C : Type 0} (limit : ℕ) (spec : Checked C) where
  -- the run goes on where the specification goes on
  pub Refines-then :
      {B D : Type 0} (spec' : C → Checked D) (P : C → A → Type 0) (Q : D → B → Type 0)
      (m : Outcome A) (f : A → Outcome B)
      → Refines limit spec P m
      → ((c : C) (a : A) → P c a → Refines limit (spec' c) Q (f a))
      → Refines limit (spec >>= spec') Q (m then f)
  Refines-then spec' P Q (done a) f (c, e, p) k = rw e (k c a p)
  Refines-then spec' P Q (compute_error x) f (inl e) k = inl (rw e)
  Refines-then spec' P Q (compute_error x) f (inr h) k = inr h
  Refines-then spec' P Q ill_typed f h k = absurd h

  -- the run goes on after the specification has ended
  pub Refines-after :
      {B : Type 0} (P : C → A → Type 0) (Q : C → B → Type 0) (m : Outcome A) (f : A → Outcome B)
      → Refines limit spec P m
      → ((c : C) (a : A) → P c a → Refines limit (fits c) Q (f a))
      → Refines limit spec Q (m then f)
  Refines-after P Q (done a) f (c, e, p) k = rw e (k c a p)
  Refines-after P Q (compute_error x) f (inl e) k = inl e
  Refines-after P Q (compute_error x) f (inr h) k = inr h
  Refines-after P Q ill_typed f h k = absurd h

  pub Refines-weaken :
      (P Q : C → A → Type 0) (m : Outcome A)
      → ((c : C) (a : A) → P c a → Q c a)
      → Refines limit spec P m
      → Refines limit spec Q m
  Refines-weaken P Q (done a) f (c, e, p) = (c, e, f c a p)
  Refines-weaken P Q (compute_error x) f h = h
  Refines-weaken P Q ill_typed f h = h

pub either-Refines :
    {A C : Type 0} (limit : ℕ) (spec : Checked C) (P : C → A → Type 0) (b : Bool) (x y : Outcome A)
    → (b ≡ true → Refines limit spec P x)
    → (b ≡ false → Refines limit spec P y)
    → Refines limit spec P (elim b [ true ↦ x | false ↦ y ])
either-Refines limit spec P true x y h k = h refl
either-Refines limit spec P false x y h k = k refl

pub run-Refines : {A : Type 0} (limit : ℕ) (m : Checked A) → Refines limit m (λ a b. a ≡ b) (run m)
run-Refines limit (fits a) = (a, refl, refl)
run-Refines limit (refused e) = inl refl

pub list_offset-Refines :
    {C : Type 0} (limit n : ℕ) (c : C)
    → Refines limit (fits c) (λ c' m. (c' ≡ c) × (m ≡ n)) (list_offset_i64 n)
unfolding list_offset_i64
list_offset-Refines limit n c = elim (Bool-cases (ltb n (2 ^ 63))) [
  | inl e ↦ rw e (c, refl, (refl, refl))
  | inr e ↦ rw e (inr (ground (arith, e)))
]

pub idx_size-Refines :
    {C : Type 0} (limit n : ℕ) (c : C)
    → Refines limit (fits c) (λ c' m. (c' ≡ c) × (m ≡ n)) (idx_size_len limit n)
unfolding idx_size_len
idx_size-Refines limit n c = elim (Bool-cases (ltb n limit)) [
  | inl e ↦ rw e (c, refl, (refl, refl))
  | inr e ↦ rw e (inr (ground (arith, e)))
]
