-- ===== src/Layers/Analyzed.antt =====
-- The wrappers that df-derive-macros/src/type_analysis finds, against their normalized shape.
use df_derive.Prelude.{
  ℕ, zero, suc, false, ◌≡◌, refl, String, List, [], ◌∷◌, ◌++◌, is_empty, Bool-cases, inl, inr,
}
use df_derive.Syn.{SynType, size}
use df_derive.Errors.{Result, ok, err, Returns, Returns-bind, Returns-any, Returns-eq}
use df_derive.TypeAnalysis.{
  RawWrapper, option, vec, smart_ptr, PeeledType, Peel, layer, done, peel_round, record_layer,
  peel_loop, peel_type_wrappers, reject_unsupported, analyze_base_type, analyze_type, analyze,
  AnalyzedBase, AnalyzedType, analyzed,
}
use df_derive.Lower.{normalize_wrappers}
use df_derive.Layers.RoundTrip.{starts_with_smart_ptr, wrappers_of, wrappers_of-normalize_wrappers}

abbrev NoLeadingPtr : PeeledType → Type 0
NoLeadingPtr p = starts_with_smart_ptr p.wrappers ≡ false

-- after a wrapper that is no smart pointer, or after any wrapper where one stands already
starts-snoc :
    (ws : List RawWrapper) (w : RawWrapper)
    → starts_with_smart_ptr ws ≡ false
    → starts_with_smart_ptr (w ∷ []) ≡ false
    → starts_with_smart_ptr (ws ++ w ∷ []) ≡ false
unfolding starts_with_smart_ptr
starts-snoc [] w h k = k
starts-snoc (option ∷ ws) w h k = refl
starts-snoc (vec ∷ ws) w h k = refl
starts-snoc (smart_ptr ∷ ws) w h k = h

starts-snoc-ptr :
    (ws : List RawWrapper)
    → starts_with_smart_ptr ws ≡ false
    → is_empty ws ≡ false
    → starts_with_smart_ptr (ws ++ smart_ptr ∷ []) ≡ false
unfolding starts_with_smart_ptr
starts-snoc-ptr [] h k = cc
starts-snoc-ptr (option ∷ ws) h k = refl
starts-snoc-ptr (vec ∷ ws) h k = refl
starts-snoc-ptr (smart_ptr ∷ ws) h k = h

record_layer-NoLeadingPtr :
    (w : RawWrapper) (inner : SynType) (p : PeeledType)
    → NoLeadingPtr p
    → NoLeadingPtr (record_layer w inner p)
unfolding record_layer starts_with_smart_ptr
record_layer-NoLeadingPtr option inner p h = starts-snoc p.wrappers option h refl
record_layer-NoLeadingPtr vec inner p h = starts-snoc p.wrappers vec h refl
record_layer-NoLeadingPtr smart_ptr inner p h = elim (Bool-cases (is_empty p.wrappers)) [
  | inl e ↦ rw e h
  | inr e ↦ rw e (starts-snoc-ptr p.wrappers h e)
]

after_round :
    (f : ℕ) (p : PeeledType) (r : Result Peel)
    → NoLeadingPtr p
    → ((q : PeeledType) → NoLeadingPtr q → Returns NoLeadingPtr (peel_loop f q))
    → Returns NoLeadingPtr (elim r [
      | err e ↦ err e
      | ok done ↦ ok p
      | ok (layer w inner) ↦ peel_loop f (record_layer w inner p)
    ])
after_round f p (err e) h next = tt
after_round f p (ok done) h next = h
after_round f p (ok (layer w inner)) h next =
    next (record_layer w inner p) (record_layer-NoLeadingPtr w inner p h)

peel_loop-NoLeadingPtr :
    (f : ℕ) (p : PeeledType) → NoLeadingPtr p → Returns NoLeadingPtr (peel_loop f p)
unfolding peel_loop
peel_loop-NoLeadingPtr zero p h = tt
peel_loop-NoLeadingPtr (suc f) p h =
    after_round f p (peel_round p.current_type) h λ q k. peel_loop-NoLeadingPtr f q k

-- the wrappers of an analyzed type
abbrev AnalyzedWell : AnalyzedType → Type 0
AnalyzedWell (analyzed base ws ty d) = starts_with_smart_ptr ws ≡ false

analyze_type-AnalyzedWell :
    (f : ℕ) (t : SynType) (params : List String) → Returns AnalyzedWell (analyze_type f t params)
unfolding analyze_type peel_type_wrappers starts_with_smart_ptr
analyze_type-AnalyzedWell zero t params = tt
analyze_type-AnalyzedWell (suc f) t params =
    Returns-bind NoLeadingPtr AnalyzedWell (peel_type_wrappers (suc f) t) _
      (peel_loop-NoLeadingPtr (suc f)
        (record { wrappers = []; current_type = t; outer_smart_ptr_depth = 0 }) refl)
      λ p h.
        Returns-bind (λ _. Unit) AnalyzedWell (reject_unsupported p.current_type params) _
          (Returns-any _)
          λ _ _.
            Returns-bind (λ _. Unit) AnalyzedWell
              (analyze_base_type (λ elem. analyze_type f elem params) p.current_type params) _
              (Returns-any _) λ base _. h

-- The wrappers that the analysis of any field type finds are read back from their normalized shape:
-- lowering loses none of them, and keeps their order.
pub analyze-wrappers_of :
    (t : SynType) (params : List String) (base : AnalyzedBase) (ws : List RawWrapper) (ty : SynType)
    (d : ℕ)
    → analyze t params ≡ ok (analyzed base ws ty d)
    → wrappers_of (normalize_wrappers ws) ≡ ws
unfolding analyze
analyze-wrappers_of t params base ws ty d e =
    wrappers_of-normalize_wrappers ws
      (Returns-eq AnalyzedWell (analyze t params) (analyze_type-AnalyzedWell (size t) t params) e)
