-- ===== src/Termination.antt =====
-- The recursions of df-derive-macros/src/type_analysis end: the size of a type is fuel enough.
mod Sizes
use df_derive.Prelude.{
  ℕ, zero, suc, ◌≤◌, ◌<◌, ◌≡◌, ◌≢◌, refl, ap, Bool, true, false, is_some, if◌then◌else◌, ◌==◌, ◌&&◌,
  not, contains, Option, none, some, String, List, arith, inl, inr,
}
use df_derive.Syn.{SynType, size, size_types, SynTypes, no_types, and_type, segment, no_segments}
use df_derive.Errors.{
  Error, Result, ok, err, out_of_fuel, unsupported_collection, bare_duration, bare_str,
  unsupported_field_type, Finishes, Finishes-err, Finishes-bind, ◌>>=◌, ◌>>◌,
}
use df_derive.TypeAnalysis.{
  RawWrapper, PeeledType, Peel, layer, done, peel_round, record_layer, peel_loop,
  peel_type_wrappers, analyze_elems, analyze_base_type, analyze_other_base, analyze_type, analyze,
  reject_unsupported, AnalyzedType, reject_unsupported_collection_type, reject_bare_duration,
  reject_bare_unsized_leaf, is_bare_str_type, unsupported_collection_kind, is_no_arguments, generic,
  path_base, analyze_cow_base, classify_known_base, borrowed_reference_base, borrowed_base,
  bare_generic_param_ident,
}
use Sizes.{RoundShrinks, PeelShrinks, peel_round-RoundShrinks}

size-pos : (t : SynType) → 0 < size t
unfolding size
size-pos (SynType.path q s) = omega arith
size-pos _ = omega arith

-- The types that the loop goes through fit in the size of the first.
abbrev PeeledWithin : ℕ → PeeledType → Type 0
PeeledWithin n p = size p.current_type ≤ n

current-record_layer :
    (w : RawWrapper) (inner : SynType) (p : PeeledType)
    → (record_layer w inner p).current_type ≡ inner
unfolding record_layer
current-record_layer w inner p = ground arith

after_round :
    (f n : ℕ) (p : PeeledType) (r : Result Peel)
    → PeeledWithin n p
    → RoundShrinks p.current_type r
    → ((w : RawWrapper) (inner : SynType)
        → size inner < size p.current_type
        → Finishes (PeeledWithin n) (peel_loop f (record_layer w inner p)))
    → Finishes (PeeledWithin n) (elim r [
      | err e ↦ err e
      | ok done ↦ ok p
      | ok (layer w inner) ↦ peel_loop f (record_layer w inner p)
    ])
after_round f n p (err e) k s next = Finishes-err (PeelShrinks p.current_type) (PeeledWithin n) e s
after_round f n p (ok done) k s next = k
after_round f n p (ok (layer w inner)) k s next = next w inner s

peel_loop-Finishes :
    (f n : ℕ) (p : PeeledType)
    → size p.current_type ≤ f
    → PeeledWithin n p
    → Finishes (PeeledWithin n) (peel_loop f p)
unfolding peel_loop
peel_loop-Finishes zero n p h k = absurd (omega (arith, size-pos p.current_type))
peel_loop-Finishes (suc f) n p h k =
    after_round f n p (peel_round p.current_type) k (peel_round-RoundShrinks p.current_type)
      λ w inner s.
        let c = current-record_layer w inner p in
        peel_loop-Finishes f n (record_layer w inner p) (omega (arith, ap size c))
          (omega (arith, ap size c))

pub peel_type_wrappers-Finishes :
    (f : ℕ) (t : SynType) → size t ≤ f → Finishes (PeeledWithin (size t)) (peel_type_wrappers f t)
unfolding peel_type_wrappers
peel_type_wrappers-Finishes f t h = peel_loop-Finishes f (size t) _ h (omega arith)

abbrev Ends : {A : Type 0} → Result A → Type 0
Ends = Finishes (λ _. Unit)

Ends-if : {A : Type 0} (b : Bool) (m n : Result A) → Ends m → Ends n → Ends (if b then m else n)
Ends-if true m n h k = h
Ends-if false m n h k = k

collection-Ends : (t : SynType) → Ends (reject_unsupported_collection_type t)
unfolding reject_unsupported_collection_type
collection-Ends (SynType.path q s) =
    elim (unsupported_collection_kind q s)
      as (λ o. Ends (elim o [ some c ↦ err (unsupported_collection c) | none ↦ ok tt ])) [
        | some c ↦ tt
        | none ↦ tt
      ]
collection-Ends _ = tt

duration-Ends : (t : SynType) (params : List String) → Ends (reject_bare_duration t params)
unfolding reject_bare_duration
duration-Ends (SynType.path false (segment i a no_segments)) params =
    Ends-if {A = Unit {0}} (i == "Duration" && (is_no_arguments a && not (contains params i)))
      (err bare_duration) (ok tt) tt tt
duration-Ends _ params = tt

unsized-Ends : (t : SynType) → Ends (reject_bare_unsized_leaf t)
unfolding reject_bare_unsized_leaf
unsized-Ends (SynType.slice _) = tt
unsized-Ends t = Ends-if {A = Unit {0}} (is_bare_str_type t) (err bare_str) (ok tt) tt tt

reject-Ends : (t : SynType) (params : List String) → Ends (reject_unsupported t params)
unfolding reject_unsupported
reject-Ends t params = Ends-if (is_some (bare_generic_param_ident t params)) (ok tt) _ tt (
    Finishes-bind (λ _. Unit) (λ _. Unit) (reject_unsupported_collection_type t) _
      (collection-Ends t)
      λ _ _.
        Finishes-bind (λ _. Unit) (λ _. Unit) (reject_bare_duration t params) _
          (duration-Ends t params) λ _ _. unsized-Ends t)

analyze_other_base-Ends : (t : SynType) (params : List String) → Ends (analyze_other_base t params)
unfolding analyze_other_base
analyze_other_base-Ends (SynType.path q s) params =
    elim (bare_generic_param_ident (SynType.path q s) params)
      as (λ o. Ends (elim o [
        | some ident ↦ ok (generic ident)
        | none ↦ ok (path_base q s (analyze_cow_base q s) (classify_known_base q s))
      ])) [ some _ ↦ tt | none ↦ tt ]
analyze_other_base-Ends (SynType.reference m e) params =
    elim (borrowed_reference_base e)
      as (λ o.
        Ends (elim o [ some base ↦ ok (borrowed_base base) | none ↦ err unsupported_field_type ])) [
          | some _ ↦ tt
          | none ↦ tt
        ]
analyze_other_base-Ends t params = tt

-- the recursive call ends on every type smaller than `n`
abbrev EndsBelow : ℕ → (SynType → Result AnalyzedType) → Type 0
EndsBelow n rec = (u : SynType) → size u < n → Ends (rec u)

analyze_elems-Ends :
    (rec : SynType → Result AnalyzedType) (ts : SynTypes)
    → EndsBelow (suc (size_types ts)) rec
    → Ends (analyze_elems rec ts)
unfolding analyze_elems size
analyze_elems-Ends rec no_types h = tt
analyze_elems-Ends rec (and_type t ts) h =
    Finishes-bind (λ _. Unit) (λ _. Unit) (rec t) _ (h t (omega arith))
      λ a _.
        Finishes-bind (λ _. Unit) (λ _. Unit) (analyze_elems rec ts) _
          (analyze_elems-Ends rec ts (λ u l. h u (omega arith))) λ b _. tt

analyze_base_type-Ends :
    (rec : SynType → Result AnalyzedType) (t : SynType) (params : List String)
    → EndsBelow (size t) rec
    → Ends (analyze_base_type rec t params)
unfolding analyze_base_type size
analyze_base_type-Ends rec (SynType.tuple no_types) params h = tt
analyze_base_type-Ends rec (SynType.tuple (and_type t ts)) params h =
    Finishes-bind (λ _. Unit) (λ _. Unit) (analyze_elems rec (and_type t ts)) _
      (analyze_elems-Ends rec (and_type t ts) h) λ b _. tt
analyze_base_type-Ends rec t params h = analyze_other_base-Ends t params

analyze_type-Ends :
    (f : ℕ) (t : SynType) (params : List String) → size t ≤ f → Ends (analyze_type f t params)
unfolding analyze_type
analyze_type-Ends zero t params h = absurd (omega (arith, size-pos t))
analyze_type-Ends (suc f) t params h =
    Finishes-bind (PeeledWithin (size t)) (λ _. Unit) (peel_type_wrappers (suc f) t) _
      (peel_type_wrappers-Finishes (suc f) t h)
      λ p fits.
        Finishes-bind (λ _. Unit) (λ _. Unit) (reject_unsupported p.current_type params) _
          (reject-Ends p.current_type params)
          λ _ _.
            Finishes-bind (λ _. Unit) (λ _. Unit)
              (analyze_base_type (λ e. analyze_type f e params) p.current_type params) _
              (analyze_base_type-Ends _ p.current_type params
                (λ u l. analyze_type-Ends f u params (omega arith)))
              λ _ _. tt

-- The analysis of a type gives an analyzed type or one of the macro's own diagnostics: with the
-- size of the type as fuel, neither the peeling loop nor the recursion on elements runs out.
pub analyze-ne-out_of_fuel :
    (t : SynType) (params : List String) → analyze t params ≢ err out_of_fuel
unfolding analyze
analyze-ne-out_of_fuel t params e = rw e at (analyze_type-Ends (size t) t params (omega arith))
