-- ===== src/Examples/Shapes.antt =====
-- The theorems on shapes and on the generated scans, at concrete inputs.
use df_derive.Prelude.{ℕ, ◌≡◌, refl, false, some, List, [], ◌∷◌, ltb}
use df_derive.Ir.{
  AccessChain, AccessStep, option_layers, WrapperShape, LeafShape, VecLayers, vec_depth,
}
use df_derive.TypeAnalysis.{RawWrapper, option, vec, smart_ptr}
use df_derive.Lower.{normalize_wrappers, compose_parent_with_element}
use df_derive.Layers.RoundTrip.{
  wrappers_of, starts_with_smart_ptr, vec_wrappers, wrappers_of-normalize_wrappers,
  vec_depth-normalize_wrappers,
}
use df_derive.Layers.Validity.{
  Agrees, VecAgrees, LayerAgrees, CountAgrees, ContextAgrees, normalize_wrappers-Agrees,
  compose_parent_with_element-Agrees,
}
use df_derive.Encoder.{base, access_chain_to_ref, eval}
use df_derive.Encoder.Following.{
  El, erase, followed, collapse, access_chain_to_ref-eval, has_option-option_layers,
}

-- `Option<Vec<Box<Vec<Option<…>>>>>`
abbrev some_wrappers : List RawWrapper
some_wrappers = option ∷ vec ∷ smart_ptr ∷ vec ∷ option ∷ []

some_wrappers-no_ptr : starts_with_smart_ptr some_wrappers ≡ false
unfolding starts_with_smart_ptr
some_wrappers-no_ptr = refl

wrappers_of-normalize_wrappers_example :
    wrappers_of (normalize_wrappers some_wrappers) ≡ some_wrappers
wrappers_of-normalize_wrappers_example =
    wrappers_of-normalize_wrappers some_wrappers some_wrappers-no_ptr

vec_depth-normalize_wrappers_example :
    vec_depth (normalize_wrappers some_wrappers) ≡ vec_wrappers some_wrappers
vec_depth-normalize_wrappers_example = vec_depth-normalize_wrappers some_wrappers

normalize_wrappers-Agrees_example : Agrees (normalize_wrappers some_wrappers)
normalize_wrappers-Agrees_example = normalize_wrappers-Agrees some_wrappers

abbrev optional_shape : WrapperShape
optional_shape = WrapperShape.leaf (LeafShape.optional 1 (AccessStep.option ∷ []))

abbrev pub two_layers : VecLayers
two_layers = record {
  layers = record {
    first = record { option_layers_above = 1; access = AccessStep.option ∷ [] };
    rest = record { option_layers_above = 0; access = AccessStep.smart_ptr ∷ [] } ∷ [];
  };
  inner_option_layers = 1;
  inner_access = AccessStep.option ∷ [];
}

optional_shape-Agrees : Agrees optional_shape
unfolding Agrees CountAgrees option_layers
optional_shape-Agrees = refl

pub two_layers-Agrees : VecAgrees two_layers
unfolding VecAgrees LayerAgrees CountAgrees option_layers
two_layers-Agrees = ((refl, (refl, tt)), refl)

two_layers_shape-Agrees : Agrees (WrapperShape.vec two_layers)
unfolding Agrees
two_layers_shape-Agrees = two_layers-Agrees

compose_parent_with_element-Agrees_example :
    ContextAgrees (compose_parent_with_element (WrapperShape.vec two_layers) optional_shape)
compose_parent_with_element-Agrees_example =
    compose_parent_with_element-Agrees (WrapperShape.vec two_layers) optional_shape
      two_layers_shape-Agrees optional_shape-Agrees

abbrev mixed_chain : AccessChain
mixed_chain = AccessStep.option ∷ AccessStep.smart_ptr ∷ AccessStep.option ∷ []

mixed_value : El mixed_chain ℕ
unfolding El
mixed_value = some (some 7)

access_chain_to_ref-eval_example :
    eval (erase mixed_chain mixed_value) (access_chain_to_ref base mixed_chain).expr
    ≡ some (followed (ltb 0 (option_layers mixed_chain)) (collapse mixed_chain mixed_value))
access_chain_to_ref-eval_example = access_chain_to_ref-eval mixed_chain mixed_value

has_option-option_layers_example :
    (access_chain_to_ref base mixed_chain).has_option ≡ ltb 0 (option_layers mixed_chain)
has_option-option_layers_example = has_option-option_layers mixed_chain
