-- ===== src/Projection/Elements.antt =====
-- The shapes of the elements of a tuple that df-derive-macros/src/lower/leaf.rs lowers.
use df_derive.Prelude.{Bool, false, String}
use df_derive.Errors.{Returns, Returns-bind}
use df_derive.Ir.{LeafSpec, TupleElements, no_elements, element}
use df_derive.TypeAnalysis.{AnalyzedBase, AnalyzedTypes, analyzed, no_elems, and_elem}
use df_derive.Lower.{default_leaf_for_base, tuple_elements}
use df_derive.Layers.Validity.{Agrees, normalize_wrappers-Agrees}

-- In every element, however deep, the option counts agree with the access chains.
unfoldable mutual
  pub LeafAgrees : LeafSpec → Type 0
  LeafAgrees (LeafSpec.tuple es) = ElementsAgree es
  LeafAgrees _ = Unit

  pub ElementsAgree : TupleElements → Type 0
  ElementsAgree no_elements = Unit
  ElementsAgree (element l w d rest) = LeafAgrees l × Agrees w × ElementsAgree rest

mutual
  unfolding default_leaf_for_base LeafAgrees

  pub default_leaf-LeafAgrees :
      (name : String) (add : Bool) (base : AnalyzedBase)
      → Returns LeafAgrees (default_leaf_for_base name add base)
  default_leaf-LeafAgrees name add (AnalyzedBase.tuple elements) =
      Returns-bind ElementsAgree LeafAgrees (tuple_elements name elements) _
        (tuple_elements-Agree name elements) λ es h. h
  default_leaf-LeafAgrees name add _ = tt

  pub tuple_elements-Agree :
      (name : String) (ts : AnalyzedTypes) → Returns ElementsAgree (tuple_elements name ts)
  tuple_elements-Agree name no_elems = tt
  tuple_elements-Agree name (and_elem (analyzed base ws ty d) rest) =
      Returns-bind LeafAgrees ElementsAgree (default_leaf_for_base name false base) _
        (default_leaf-LeafAgrees name false base)
        λ l h.
          Returns-bind ElementsAgree ElementsAgree (tuple_elements name rest) _
            (tuple_elements-Agree name rest) λ es k. (h, normalize_wrappers-Agrees ws, k)
