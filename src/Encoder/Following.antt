-- ===== src/Encoder/Following.antt =====
-- Lemmas on following an access chain, of df-derive-macros/src/codegen/encoder/wrapper_access.rs.
use df_derive.Prelude.{
  ℕ, zero, suc, Bool, true, false, ◌≡◌, refl, sym, ap, ◌∙◌, Option, none, some, [], ◌∷◌, eqb, ltb,
  arith, Bool-cases, inl, inr,
}
use df_derive.Ir.{AccessChain, option, smart_ptr, option_layers, is_only_options}
use df_derive.Encoder.Access.{
  RefExpr, base, as_ref, and_then_as_ref, and_then_times, apply_pending_smart_ptrs, chain_loop,
  access_chain_to_ref, collapse_options_to_ref, Value, payload, absent, present, pointer,
  strip_pointers, map_strip, eval, then_value,
}

-- The values that an access chain is written for: an `Option` for each `Option` step, and the value
-- itself behind each smart pointer.
unfoldable pub El {ℓ} : AccessChain → Type ℓ → Type ℓ
El [] A = A
El (option ∷ c) A = Option (El c A)
El (smart_ptr ∷ c) A = El c A

ltb-suc : (n : ℕ) → ltb 0 (suc n) ≡ true
ltb-suc n = ground arith

module _ {ℓ} {A : Type ℓ} where
  -- All `Option`s of a value as one.
  unfoldable pub collapse : (c : AccessChain) → El c A → Option A
  unfolding El
  collapse [] a = some a
  collapse (option ∷ c) none = none
  collapse (option ∷ c) (some x) = collapse c x
  collapse (smart_ptr ∷ c) x = collapse c x

  unfoldable pub erase : (c : AccessChain) → El c A → Value A
  unfolding El
  erase [] a = payload a
  erase (option ∷ c) none = absent
  erase (option ∷ c) (some x) = present (erase c x)
  erase (smart_ptr ∷ c) x = pointer (erase c x)

  -- the value that the generated code goes on with: an `Option`, or the payload
  unfoldable pub followed : Bool → Option A → Value A
  followed true (some a) = present (payload a)
  followed false (some a) = payload a
  followed b none = absent

  pointers : ℕ → Value A → Value A
  pointers zero v = v
  pointers (suc n) v = pointers n (pointer v)

  pointer-pointers : (n : ℕ) (v : Value A) → pointers n (pointer v) ≡ pointer (pointers n v)
  unfolding pointers
  pointer-pointers zero v = refl
  pointer-pointers (suc n) v = pointer-pointers n (pointer v)

  strip-pointers : (n : ℕ) (v : Value A) → strip_pointers n (pointers n v) ≡ some v
  unfolding strip_pointers pointers
  strip-pointers zero v = refl
  strip-pointers (suc n) v = ap (strip_pointers (suc n)) (pointer-pointers n v) ∙ strip-pointers n v

  apply-direct :
      (v : Value A) (e : RefExpr) (n : ℕ) (w : Value A)
      → eval v e ≡ some (pointers n w)
      → eval v (apply_pending_smart_ptrs e false n) ≡ some w
  unfolding eval apply_pending_smart_ptrs pointers
  apply-direct v e zero w h = h
  apply-direct v e (suc n) w h = rw (h, strip-pointers (suc n) w)

  map_strip-present :
      (n : ℕ) (v w : Value A)
      → strip_pointers n v ≡ some w
      → map_strip n (present v) ≡ some (present w)
  map_strip-present n v w h = rw (map_strip, h)

  apply-present :
      (v : Value A) (e : RefExpr) (n : ℕ) (w : Value A)
      → eval v e ≡ some (present (pointers n w))
      → eval v (apply_pending_smart_ptrs e true n) ≡ some (present w)
  unfolding eval apply_pending_smart_ptrs pointers
  apply-present v e zero w h = h
  apply-present v e (suc n) w h =
      ap (λ o. then_value o (map_strip (suc n))) h
      ∙ map_strip-present (suc n) (pointers (suc n) w) w (strip-pointers (suc n) w)

  apply-absent :
      (v : Value A) (e : RefExpr) (n : ℕ)
      → eval v e ≡ some absent
      → eval v (apply_pending_smart_ptrs e true n) ≡ some absent
  unfolding eval apply_pending_smart_ptrs
  apply-absent v e zero h = h
  apply-absent v e (suc n) h = rw h

  loop-absent :
      (c : AccessChain) (v : Value A) (e : RefExpr) (n : ℕ)
      → eval v e ≡ some absent
      → eval v (chain_loop e true n c).expr ≡ some absent
  unfolding chain_loop eval
  loop-absent [] v e n h = apply-absent v e n h
  loop-absent (smart_ptr ∷ c) v e n h = loop-absent c v e (suc n) h
  loop-absent (option ∷ c) v e n h =
      loop-absent c v (and_then_as_ref (apply_pending_smart_ptrs e true n)) 0
        (rw (apply-absent v e n h))

  loop-present :
      (c : AccessChain) (x : El c A) (v : Value A) (e : RefExpr) (n : ℕ)
      → eval v e ≡ some (present (pointers n (erase c x)))
      → eval v (chain_loop e true n c).expr ≡ some (followed true (collapse c x))
  unfolding chain_loop eval El erase collapse followed pointers
  loop-present [] x v e n h = apply-present v e n (payload x) h
  loop-present (smart_ptr ∷ c) x v e n h = loop-present c x v e (suc n) h
  loop-present (option ∷ c) none v e n h =
      loop-absent c v (and_then_as_ref (apply_pending_smart_ptrs e true n)) 0
        (rw (apply-present v e n absent h))
  loop-present (option ∷ c) (some x) v e n h =
      loop-present c x v (and_then_as_ref (apply_pending_smart_ptrs e true n)) 0
        (rw (apply-present v e n (present (erase c x)) h))

  loop-direct :
      (c : AccessChain) (x : El c A) (v : Value A) (e : RefExpr) (n : ℕ)
      → eval v e ≡ some (pointers n (erase c x))
      → eval v (chain_loop e false n c).expr
        ≡ some (followed (ltb 0 (option_layers c)) (collapse c x))
  unfolding chain_loop eval El erase collapse followed pointers option_layers
  loop-direct [] x v e n h = apply-direct v e n (payload x) h
  loop-direct (smart_ptr ∷ c) x v e n h = loop-direct c x v e (suc n) h
  loop-direct (option ∷ c) none v e n h =
      loop-absent c v (as_ref (apply_pending_smart_ptrs e false n)) 0
        (rw (apply-direct v e n absent h))
      ∙ ap (λ b. some (followed b none)) (sym (ltb-suc (option_layers c)))
  loop-direct (option ∷ c) (some x) v e n h =
      loop-present c x v (as_ref (apply_pending_smart_ptrs e false n)) 0
        (rw (apply-direct v e n (present (erase c x)) h))
      ∙ ap (λ b. some (followed b (collapse c x))) (sym (ltb-suc (option_layers c)))

only_options-loop :
    (c : AccessChain) (e : RefExpr)
    → is_only_options c ≡ true
    → (chain_loop e true 0 c).expr ≡ and_then_times (option_layers c) e
unfolding chain_loop is_only_options option_layers
only_options-loop [] e h = refl
only_options-loop (option ∷ c) e h = only_options-loop c (and_then_as_ref e) h
only_options-loop (smart_ptr ∷ c) e h = ground (arith, h)

loop-has_option :
    (c : AccessChain) (e : RefExpr) (n : ℕ) → (chain_loop e true n c).has_option ≡ true
unfolding chain_loop
loop-has_option [] e n = refl
loop-has_option (option ∷ c) e n = loop-has_option c _ 0
loop-has_option (smart_ptr ∷ c) e n = loop-has_option c e (suc n)

direct-has_option :
    (c : AccessChain) (e : RefExpr) (n : ℕ)
    → (chain_loop e false n c).has_option ≡ ltb 0 (option_layers c)
unfolding chain_loop option_layers
direct-has_option [] e n = refl
direct-has_option (option ∷ c) e n = loop-has_option c _ 0 ∙ sym (ltb-suc (option_layers c))
direct-has_option (smart_ptr ∷ c) e n = direct-has_option c e (suc n)

eqb-two : (n : ℕ) → eqb (suc (suc n)) 1 ≡ false
eqb-two n = ground arith

-- The shortcut for chains of options alone builds what the loop builds.
shortcut-loop :
    (c : AccessChain)
    → (access_chain_to_ref base (option ∷ option ∷ c)).expr
      ≡ (chain_loop base false 0 (option ∷ option ∷ c)).expr
unfolding access_chain_to_ref chain_loop is_only_options option_layers collapse_options_to_ref
    apply_pending_smart_ptrs
shortcut-loop c = elim (Bool-cases (is_only_options c)) [
  | inl h ↦ rw (h, eqb-two (option_layers c), only_options-loop c (and_then_as_ref (as_ref base)) h)
  | inr h ↦ rw h
]

module _ {ℓ} {A : Type ℓ} where
  -- On every value of a field's type, the expression for an access chain evaluates to the value
  -- behind the chain, all its `Option`s collapsed into one, and to the bare value where there is
  -- none: the generated code type-checks and loses nothing else.
  pub access_chain_to_ref-eval :
      (c : AccessChain) (x : El c A)
      → eval (erase c x) (access_chain_to_ref base c).expr
        ≡ some (followed (ltb 0 (option_layers c)) (collapse c x))
  unfolding access_chain_to_ref is_only_options eval erase collapse El followed option_layers
      pointers
  access_chain_to_ref-eval [] x = refl
  access_chain_to_ref-eval (smart_ptr ∷ c) x = loop-direct (smart_ptr ∷ c) x _ base 0 refl
  access_chain_to_ref-eval (option ∷ smart_ptr ∷ c) x =
      loop-direct (option ∷ smart_ptr ∷ c) x _ base 0 refl
  access_chain_to_ref-eval (option ∷ []) none = refl
  access_chain_to_ref-eval (option ∷ []) (some a) = refl
  access_chain_to_ref-eval (option ∷ option ∷ c) x =
      ap (eval (erase (option ∷ option ∷ c) x)) (shortcut-loop c)
      ∙ loop-direct (option ∷ option ∷ c) x _ base 0 refl

-- The flag that says whether the expression is an `Option` is set exactly for the chains with an
-- `Option` step.
pub has_option-option_layers :
    (c : AccessChain) → (access_chain_to_ref base c).has_option ≡ ltb 0 (option_layers c)
unfolding access_chain_to_ref is_only_options option_layers
has_option-option_layers [] = refl
has_option-option_layers (smart_ptr ∷ c) = direct-has_option c base 1
has_option-option_layers (option ∷ c) = elim (Bool-cases (is_only_options c)) [
  | inl h ↦ rw h
  | inr h ↦ rw (h, direct-has_option (option ∷ c) base 0)
]
