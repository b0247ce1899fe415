-- ===== src/Layers/Validity.antt =====
-- Whether a layer has a validity bitmap: the option count in df-derive-macros/src/ir/wrappers.rs,
-- against the access chain in df-derive-macros/src/codegen/encoder/wrapper_access.rs.
use df_derive.Prelude.{
  ℕ, zero, suc, ◌+◌, ◌||◌, ◌≡◌, refl, ap, List, [], ◌∷◌, ◌++◌, ltb, arith, All, All-append,
}
use df_derive.Ir.{
  AccessChain, option, smart_ptr, option_layers, VecLayerSpec, VecLayers, WrapperShape, leaf, vec,
  bare, optional, to_vec, from_option_access, extend,
}
use df_derive.TypeAnalysis.{RawWrapper}
use df_derive.Lower.{
  Pending, normalize_step, normalize_loop, shape_of_pending, normalize_wrappers,
  prepend_option_access, concat_access_chains, prepend_parent_option_access,
  compose_option_with_element, carried_layers, compose_vec_parent_with_element,
  compose_parent_with_element, ProjectedColumnContext, static, parent_option, parent_vec,
}

-- A count of `Option` layers is positive exactly when the chain has an `Option` step.
unfoldable pub CountAgrees : ℕ → AccessChain → Type 0
CountAgrees n access = ltb 0 n ≡ ltb 0 (option_layers access)

unfoldable pub LayerAgrees : VecLayerSpec → Type 0
unfolding CountAgrees
LayerAgrees l = CountAgrees l.option_layers_above l.access

unfoldable pub VecAgrees : VecLayers → Type 0
unfolding LayerAgrees CountAgrees
VecAgrees v = All LayerAgrees (to_vec v.layers) × CountAgrees v.inner_option_layers v.inner_access

unfoldable pub Agrees : WrapperShape → Type 0
unfolding VecAgrees CountAgrees
Agrees (leaf bare) = Unit
Agrees (leaf (optional n access)) = CountAgrees n access
Agrees (vec v) = VecAgrees v

layers-Agree :
    (p : Pending) (ws : List RawWrapper)
    → All LayerAgrees p.layers
    → All LayerAgrees (normalize_loop p ws).layers
unfolding normalize_loop normalize_step LayerAgrees CountAgrees
layers-Agree p [] h = h
layers-Agree p (RawWrapper.option ∷ ws) h = layers-Agree (normalize_step p RawWrapper.option) ws h
layers-Agree p (RawWrapper.smart_ptr ∷ ws) h =
    layers-Agree (normalize_step p RawWrapper.smart_ptr) ws h
layers-Agree p (RawWrapper.vec ∷ ws) h =
    layers-Agree (normalize_step p RawWrapper.vec) ws
      (All-append LayerAgrees p.layers _ h (refl, tt))

from_option_access-Agrees :
    (a : AccessChain) → Agrees (leaf (from_option_access (option_layers a) a))
unfolding Agrees from_option_access CountAgrees
from_option_access-Agrees a =
    elim (option_layers a) as (λ n. n ≡ option_layers a → Agrees (leaf (from_option_access n a))) [
      | zero ↦ λ e. tt
      | suc n ↦ λ e. ap (ltb 0) e
    ]
      refl

shape-Agrees :
    (ls : List VecLayerSpec) (a : AccessChain)
    → All LayerAgrees ls
    → Agrees (shape_of_pending (record { layers = ls; access = a }))
unfolding shape_of_pending Agrees VecAgrees CountAgrees
shape-Agrees [] a h = from_option_access-Agrees a
shape-Agrees (l ∷ ls) a h = (h, refl)

-- In the shape of any wrappers, a layer (and the leaf) has a positive option count exactly when the
-- access chain that the scan follows has an `Option` step.
pub normalize_wrappers-Agrees : (ws : List RawWrapper) → Agrees (normalize_wrappers ws)
unfolding normalize_wrappers
normalize_wrappers-Agrees ws =
    let start : Pending = record { layers = []; access = [] } in
    let p = normalize_loop start ws in shape-Agrees p.layers p.access (layers-Agree start ws tt)

ltb-add : (a b : ℕ) → ltb 0 (a + b) ≡ (ltb 0 a || ltb 0 b)
ltb-add a b = ground arith

option_layers-append :
    (a b : AccessChain) → option_layers (a ++ b) ≡ option_layers a + option_layers b
unfolding option_layers
option_layers-append [] b = omega arith
option_layers-append (option ∷ a) b = omega (arith, option_layers-append a b)
option_layers-append (smart_ptr ∷ a) b = option_layers-append a b

CountAgrees-append :
    (m n : ℕ) (a b : AccessChain) → CountAgrees m a → CountAgrees n b → CountAgrees (m + n) (a ++ b)
unfolding CountAgrees
CountAgrees-append m n a b h k =
    rw (ltb-add m n, h, k, option_layers-append a b, ltb-add (option_layers a) (option_layers b))

CountAgrees-prepend :
    (m n : ℕ) (parent access : AccessChain)
    → CountAgrees m access
    → CountAgrees n parent
    → CountAgrees (m + n) (prepend_parent_option_access parent access)
unfolding CountAgrees prepend_parent_option_access prepend_option_access option_layers
CountAgrees-prepend m n parent access h k = ground arith

compose_option-Agrees : (w : WrapperShape) → Agrees w → Agrees (compose_option_with_element w)
unfolding compose_option_with_element Agrees VecAgrees LayerAgrees CountAgrees from_option_access
    prepend_option_access option_layers
compose_option-Agrees (leaf bare) h = refl
compose_option-Agrees (leaf (optional n access)) h = ground arith
compose_option-Agrees (vec v) h = ((ground arith, h.0.1), h.1)

compose_vec_parent-Agrees :
    (parent : VecLayers) (w : WrapperShape)
    → VecAgrees parent
    → Agrees w
    → VecAgrees (compose_vec_parent_with_element parent w)
unfolding compose_vec_parent_with_element Agrees VecAgrees LayerAgrees CountAgrees extend
    carried_layers concat_access_chains
compose_vec_parent-Agrees parent (leaf bare) h k = (h.0, ground (arith, h.1))
compose_vec_parent-Agrees parent (leaf (optional n access)) h k =
    (h.0, CountAgrees-append parent.inner_option_layers n parent.inner_access access h.1 k)
compose_vec_parent-Agrees parent (vec v) h k = (
  All-append LayerAgrees (to_vec parent.layers) (carried_layers parent v) h.0 (
    CountAgrees-prepend v.layers.first.option_layers_above parent.inner_option_layers
        parent.inner_access v.layers.first.access k.0.0 h.1,
    k.0.1,
  ),
  k.1,
)

-- The shape that a projected column takes from its parent and its element.
unfoldable pub ContextAgrees : ProjectedColumnContext → Type 0
unfolding Agrees VecAgrees
ContextAgrees (static w) = Agrees w
ContextAgrees (parent_option w access) = Agrees w
ContextAgrees (parent_vec v layer access) = VecAgrees v

-- Composing the shape of a tuple field with the shape of one of its elements keeps the agreement:
-- when each of the two has positive option counts exactly where its access chains have `Option`
-- steps, so has the composed shape, on every branch of the composition.
pub compose_parent_with_element-Agrees :
    (parent w : WrapperShape)
    → Agrees parent
    → Agrees w
    → ContextAgrees (compose_parent_with_element parent w)
unfolding compose_parent_with_element ContextAgrees Agrees
compose_parent_with_element-Agrees (leaf bare) w h k = k
compose_parent_with_element-Agrees (leaf (optional n access)) w h k = compose_option-Agrees w k
compose_parent_with_element-Agrees (vec parent) w h k = compose_vec_parent-Agrees parent w h k
