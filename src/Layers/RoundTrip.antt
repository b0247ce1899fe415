-- ===== src/Layers/RoundTrip.antt =====
-- df-derive-macros/src/lower/wrappers.rs read backwards: the wrappers that a shape stands for.
use df_derive.Prelude.{
  ℕ, suc, ◌+◌, Bool, true, false, ◌≡◌, refl, sym, ap, ◌∙◌, List, [], ◌∷◌, ◌++◌, length, append-nil,
  append_assoc, arith, length-append,
}
use df_derive.Ir.{
  AccessChain, AccessStep, VecLayerSpec, WrapperShape, bare, optional, to_vec, vec_depth,
}
use df_derive.TypeAnalysis.{RawWrapper, option, vec, smart_ptr}
use df_derive.Lower.{Pending, normalize_step, normalize_loop, shape_of_pending, normalize_wrappers}

abbrev raw_step : AccessStep → RawWrapper
raw_step AccessStep.option = option
raw_step AccessStep.smart_ptr = smart_ptr

raw_steps : AccessChain → List RawWrapper
raw_steps [] = []
raw_steps (s ∷ ss) = raw_step s ∷ raw_steps ss

raw_layers : List VecLayerSpec → List RawWrapper
unfolding raw_steps
raw_layers [] = []
raw_layers (l ∷ ls) = raw_steps l.access ++ vec ∷ raw_layers ls

-- the wrappers that a shape stands for
unfoldable pub wrappers_of : WrapperShape → List RawWrapper
unfolding raw_layers
wrappers_of (WrapperShape.leaf bare) = []
wrappers_of (WrapperShape.leaf (optional n access)) = raw_steps access
wrappers_of (WrapperShape.vec v) = raw_layers (to_vec v.layers) ++ raw_steps v.inner_access

unfoldable pub starts_with_smart_ptr : List RawWrapper → Bool
starts_with_smart_ptr (smart_ptr ∷ ws) = true
starts_with_smart_ptr _ = false

unfoldable pub vec_wrappers : List RawWrapper → ℕ
vec_wrappers [] = 0
vec_wrappers (vec ∷ ws) = suc (vec_wrappers ws)
vec_wrappers (_ ∷ ws) = vec_wrappers ws

raw_steps-append : (a b : AccessChain) → raw_steps (a ++ b) ≡ raw_steps a ++ raw_steps b
unfolding raw_steps
raw_steps-append [] b = refl
raw_steps-append (s ∷ a) b = ap (raw_step s ∷◌) (raw_steps-append a b)

raw_layers-append : (a b : List VecLayerSpec) → raw_layers (a ++ b) ≡ raw_layers a ++ raw_layers b
unfolding raw_layers
raw_layers-append [] b = refl
raw_layers-append (l ∷ a) b =
    ap (λ r. raw_steps l.access ++ vec ∷ r) (raw_layers-append a b)
    ∙ sym (append_assoc (raw_steps l.access) (vec ∷ raw_layers a) (raw_layers b))

pending_wrappers : Pending → List RawWrapper
unfolding raw_layers
pending_wrappers p = raw_layers p.layers ++ raw_steps p.access

pending-step :
    (p : Pending) (w : RawWrapper)
    → pending_wrappers (normalize_step p w) ≡ pending_wrappers p ++ w ∷ []
unfolding pending_wrappers normalize_step
pending-step p option =
    ap (raw_layers p.layers ++◌) (raw_steps-append p.access (AccessStep.option ∷ []))
    ∙ sym (append_assoc (raw_layers p.layers) (raw_steps p.access) (option ∷ []))
pending-step p smart_ptr =
    ap (raw_layers p.layers ++◌) (raw_steps-append p.access (AccessStep.smart_ptr ∷ []))
    ∙ sym (append_assoc (raw_layers p.layers) (raw_steps p.access) (smart_ptr ∷ []))
pending-step p vec =
    append-nil _
    ∙ raw_layers-append p.layers _
    ∙ sym (append_assoc (raw_layers p.layers) (raw_steps p.access) (vec ∷ []))

pending-loop :
    (p : Pending) (ws : List RawWrapper)
    → pending_wrappers (normalize_loop p ws) ≡ pending_wrappers p ++ ws
unfolding normalize_loop
pending-loop p [] = sym (append-nil _)
pending-loop p (w ∷ ws) =
    pending-loop (normalize_step p w) ws
    ∙ ap (◌++ ws) (pending-step p w)
    ∙ append_assoc (pending_wrappers p) (w ∷ []) ws

wrappers_of-shape :
    (ls : List VecLayerSpec) (a : AccessChain)
    → starts_with_smart_ptr (raw_layers ls ++ raw_steps a) ≡ false
    → wrappers_of (shape_of_pending (record { layers = ls; access = a }))
      ≡ raw_layers ls ++ raw_steps a
unfolding wrappers_of shape_of_pending starts_with_smart_ptr
wrappers_of-shape (l ∷ ls) a h = refl
wrappers_of-shape [] [] h = refl
wrappers_of-shape [] (AccessStep.option ∷ a) h = refl
wrappers_of-shape [] (AccessStep.smart_ptr ∷ a) h = ground arith

-- Normalizing the wrappers of a field loses none of them: they are read back from the shape, in
-- their order, whenever the first is no smart pointer.
pub wrappers_of-normalize_wrappers :
    (ws : List RawWrapper)
    → starts_with_smart_ptr ws ≡ false
    → wrappers_of (normalize_wrappers ws) ≡ ws
unfolding normalize_wrappers pending_wrappers
wrappers_of-normalize_wrappers ws h =
    let start : Pending = record { layers = []; access = [] } in
    let all : pending_wrappers (normalize_loop start ws) ≡ ws = pending-loop start ws in
    let p = normalize_loop start ws in
    wrappers_of-shape p.layers p.access (ap starts_with_smart_ptr all ∙ h) ∙ all

vec_wrappers-append :
    (a b : List RawWrapper) → vec_wrappers (a ++ b) ≡ vec_wrappers a + vec_wrappers b
unfolding vec_wrappers
vec_wrappers-append [] b = omega arith
vec_wrappers-append (vec ∷ a) b = omega (arith, vec_wrappers-append a b)
vec_wrappers-append (option ∷ a) b = vec_wrappers-append a b
vec_wrappers-append (smart_ptr ∷ a) b = vec_wrappers-append a b

layers-loop :
    (p : Pending) (ws : List RawWrapper)
    → length (normalize_loop p ws).layers ≡ length p.layers + vec_wrappers ws
unfolding normalize_loop vec_wrappers normalize_step
layers-loop p [] = omega arith
layers-loop p (vec ∷ ws) =
    omega (arith, layers-loop (normalize_step p vec) ws, length-append p.layers _)
layers-loop p (option ∷ ws) = layers-loop (normalize_step p option) ws
layers-loop p (smart_ptr ∷ ws) = layers-loop (normalize_step p smart_ptr) ws

vec_depth-shape :
    (ls : List VecLayerSpec) (a : AccessChain)
    → vec_depth (shape_of_pending (record { layers = ls; access = a })) ≡ length ls
unfolding vec_depth shape_of_pending
vec_depth-shape [] a = refl
vec_depth-shape (l ∷ ls) a = refl

-- The `Vec` depth of a normalized shape is the number of `Vec` wrappers of the field's type.
pub vec_depth-normalize_wrappers :
    (ws : List RawWrapper) → vec_depth (normalize_wrappers ws) ≡ vec_wrappers ws
unfolding normalize_wrappers
vec_depth-normalize_wrappers ws =
    let start : Pending = record { layers = []; access = [] } in
    let p = normalize_loop start ws in
    omega (arith, vec_depth-shape p.layers p.access, layers-loop start ws)
