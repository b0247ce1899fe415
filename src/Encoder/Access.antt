-- ===== src/Encoder/Access.antt =====
-- df-derive-macros/src/codegen/encoder/wrapper_access.rs: the expression that follows an access
-- chain from a base, and what it evaluates to on a value.
use df_derive.Prelude.{
  ℕ, zero, suc, Bool, true, false, Option, none, some, [], ◌∷◌, is_empty, eqb, ltb, if◌then◌else◌,
}
use df_derive.Ir.{AccessChain, option, smart_ptr, option_layers, is_only_options}

-- The token streams that the module builds, as expressions.
pub data RefExpr : Type 0 where
  base : RefExpr
  as_ref : RefExpr → RefExpr
  and_then_as_ref : RefExpr → RefExpr
  -- `(&(*…*(e)))`, through so many smart pointers
  deref : ℕ → RefExpr → RefExpr
  -- `(e).map(|p| (&(*…*(p))))`
  map_deref : ℕ → RefExpr → RefExpr

-- `for _ in 1..n`
abbrev pub and_then_times : ℕ → RefExpr → RefExpr
and_then_times zero e = e
and_then_times (suc n) e = and_then_times n (and_then_as_ref e)

unfoldable pub collapse_options_to_ref : RefExpr → ℕ → RefExpr
collapse_options_to_ref b zero = b
collapse_options_to_ref b (suc n) = and_then_times n (as_ref b)

pub record ChainRef : Type 0 where
  pub expr : RefExpr
  pub has_option : Bool

unfoldable pub apply_pending_smart_ptrs : RefExpr → Bool → ℕ → RefExpr
apply_pending_smart_ptrs e has_option zero = e
apply_pending_smart_ptrs e true (suc n) = map_deref (suc n) e
apply_pending_smart_ptrs e false (suc n) = deref (suc n) e

-- the loop over the steps, with its three variables, and the statement after it
unfoldable pub chain_loop : RefExpr → Bool → ℕ → AccessChain → ChainRef
unfolding apply_pending_smart_ptrs
chain_loop e has_option pending [] = record {
  expr = apply_pending_smart_ptrs e has_option pending;
  has_option = has_option;
}
chain_loop e has_option pending (smart_ptr ∷ steps) = chain_loop e has_option (suc pending) steps
chain_loop e true pending (option ∷ steps) =
    chain_loop (and_then_as_ref (apply_pending_smart_ptrs e true pending)) true 0 steps
chain_loop e false pending (option ∷ steps) =
    chain_loop (as_ref (apply_pending_smart_ptrs e false pending)) true 0 steps

unfoldable pub access_chain_to_ref : RefExpr → AccessChain → ChainRef
unfolding is_only_options option_layers collapse_options_to_ref chain_loop
access_chain_to_ref b chain =
    if is_empty chain
    then record { expr = b; has_option = false }
    else if is_only_options chain
    then record {
      expr =
          if eqb (option_layers chain) 1
          then b
          else collapse_options_to_ref b (option_layers chain);
      has_option = ltb 0 (option_layers chain);
    }
    else chain_loop b false 0 chain

-- A value of a field's type, its references erased.
pub data Value {ℓ} (A : Type ℓ) : Type ℓ where
  payload : A → Value A
  absent : Value A
  present : Value A → Value A
  pointer : Value A → Value A

module _ {ℓ} {A : Type ℓ} where
  -- `as_ref` on an `Option`; nothing on what is no `Option`
  abbrev option_ref : Value A → Option (Value A)
  option_ref absent = some absent
  option_ref (present v) = some (present v)
  option_ref _ = none

  abbrev and_then_ref : Value A → Option (Value A)
  and_then_ref absent = some absent
  and_then_ref (present v) = option_ref v
  and_then_ref _ = none

  unfoldable pub strip_pointers : ℕ → Value A → Option (Value A)
  strip_pointers zero v = some v
  strip_pointers (suc n) (pointer v) = strip_pointers n v
  strip_pointers (suc n) _ = none

  abbrev pub map_strip : ℕ → Value A → Option (Value A)
  map_strip n absent = some absent
  map_strip n (present v) = elim (strip_pointers n v) [ none ↦ none | some w ↦ some (present w) ]
  map_strip n _ = none

  abbrev pub then_value : Option (Value A) → (Value A → Option (Value A)) → Option (Value A)
  then_value none f = none
  then_value (some v) f = f v

  -- What the expression evaluates to; `none` where the generated code would not type-check.
  unfoldable pub eval : Value A → RefExpr → Option (Value A)
  unfolding strip_pointers
  eval v base = some v
  eval v (as_ref e) = then_value (eval v e) option_ref
  eval v (and_then_as_ref e) = then_value (eval v e) and_then_ref
  eval v (deref n e) = then_value (eval v e) (strip_pointers n)
  eval v (map_deref n e) = then_value (eval v e) (map_strip n)
