-- ===== src/Projection/Validated.antt =====
-- Lemmas on the checks of df-derive-macros/src/lower on a tuple's elements.
use df_derive.Prelude.{
  ℕ, Bool, true, false, ◌&&◌, ◌||◌, ◌≡◌, refl, subst, String, List, [], ◌∷◌, if◌then◌else◌, arith,
}
use df_derive.Errors.{Result, ok, err, ◌>>◌, Returns, Returns-bind}
use df_derive.Ir.{WrapperShape, LeafShape, LeafSpec, TupleElements, no_elements, element}
use df_derive.TypeAnalysis.{RawWrapper, AnalyzedBase, AnalyzedTypes, analyzed, no_elems, and_elem}
use df_derive.Lower.{
  is_tuple_base, has_semantic_wrappers, reject_wrapped_in, reject_wrapped_elems,
  default_leaf_for_base, tuple_elements, normalize_wrappers,
}

unfoldable pub is_tuple_leaf : LeafSpec → Bool
is_tuple_leaf (LeafSpec.tuple _) = true
is_tuple_leaf _ = false

-- The elements under a parent that is wrapped or not: a tuple among them is bare, as is the parent.
unfoldable pub Plain : Bool → TupleElements → Type 0
Plain wrapped no_elements = Unit
Plain wrapped (element (LeafSpec.tuple inner) w d rest) =
    (wrapped ≡ false)
    × (w ≡ WrapperShape.leaf LeafShape.bare)
    × Plain false inner
    × Plain wrapped rest
Plain wrapped (element l w d rest) = Plain wrapped rest

unfoldable pub LeafPlain : Bool → LeafSpec → Type 0
unfolding Plain
LeafPlain wrapped (LeafSpec.tuple elements) = Plain wrapped elements
LeafPlain wrapped _ = Unit

check_passed :
    (b : Bool) (e : _) (m n : Result (Unit {0}))
    → (if b then err e else m >> n) ≡ ok tt
    → (b ≡ false) × (m ≡ ok tt) × (n ≡ ok tt)
check_passed true e m n h = ground (arith, h)
check_passed false e (ok u) n h = (refl, refl, h)
check_passed false e (err d) n h = ground (arith, h)

normalize_no_wrappers :
    (ws : List RawWrapper)
    → has_semantic_wrappers ws ≡ false
    → normalize_wrappers ws ≡ WrapperShape.leaf LeafShape.bare
unfolding has_semantic_wrappers normalize_wrappers
normalize_no_wrappers [] h = refl
normalize_no_wrappers (w ∷ ws) h = ground (arith, h)

Plain-element :
    (base : AnalyzedBase) (wrapped : Bool) (ws : List RawWrapper) (l : LeafSpec) (d : ℕ)
    (rest : TupleElements)
    → is_tuple_base base && (wrapped || has_semantic_wrappers ws) ≡ false
    → is_tuple_leaf l ≡ is_tuple_base base
    → LeafPlain (has_semantic_wrappers ws) l
    → Plain wrapped rest
    → Plain wrapped (element l (normalize_wrappers ws) d rest)
unfolding Plain LeafPlain is_tuple_leaf
Plain-element base true ws (LeafSpec.tuple inner) d rest h same k r = ground (arith, h, same)
Plain-element base false ws (LeafSpec.tuple inner) d rest h same k r =
    let bare : has_semantic_wrappers ws ≡ false = ground (arith, h, same) in
    (refl, normalize_no_wrappers ws bare, subst (λ b. Plain b inner) bare k, r)
Plain-element base wrapped ws l d rest h same k r = r

abbrev pub LeafOf : Bool → AnalyzedBase → LeafSpec → Type 0
LeafOf wrapped base l = (is_tuple_leaf l ≡ is_tuple_base base) × LeafPlain wrapped l

mutual
  unfolding reject_wrapped_in default_leaf_for_base is_tuple_leaf is_tuple_base LeafPlain Plain

  pub default_leaf-LeafOf :
      (name : String) (add wrapped : Bool) (base : AnalyzedBase)
      → reject_wrapped_in name wrapped base ≡ ok tt
      → Returns (LeafOf wrapped base) (default_leaf_for_base name add base)
  default_leaf-LeafOf name add wrapped (AnalyzedBase.tuple elements) h =
      Returns-bind (Plain wrapped) (LeafOf wrapped (AnalyzedBase.tuple elements))
        (tuple_elements name elements) _ (tuple_elements-Plain name wrapped elements h)
        λ es p. (refl, p)
  default_leaf-LeafOf name add wrapped AnalyzedBase.borrowed_bytes h = tt
  default_leaf-LeafOf name add wrapped AnalyzedBase.cow_bytes h = tt
  default_leaf-LeafOf name add wrapped AnalyzedBase.borrowed_slice h = tt
  default_leaf-LeafOf name add wrapped AnalyzedBase.cow_slice h = tt
  default_leaf-LeafOf name add wrapped _ h = (refl, tt)

  pub tuple_elements-Plain :
      (name : String) (wrapped : Bool) (ts : AnalyzedTypes)
      → reject_wrapped_elems name wrapped ts ≡ ok tt
      → Returns (Plain wrapped) (tuple_elements name ts)
  tuple_elements-Plain name wrapped no_elems h = tt
  tuple_elements-Plain name wrapped (and_elem (analyzed base ws ty d) rest) h =
      let c =
        check_passed _ _ (reject_wrapped_in name (has_semantic_wrappers ws) base)
          (reject_wrapped_elems name wrapped rest) h in
      Returns-bind (LeafOf (has_semantic_wrappers ws) base) (Plain wrapped)
        (default_leaf_for_base name false base) _
        (default_leaf-LeafOf name false (has_semantic_wrappers ws) base c.1)
        λ l p.
          Returns-bind (Plain wrapped) (Plain wrapped) (tuple_elements name rest) _
            (tuple_elements-Plain name wrapped rest c.2)
            λ es q. Plain-element base wrapped ws l d es c.0 p.0 p.1 q
