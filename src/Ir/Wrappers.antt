-- ===== src/Ir/Wrappers.antt =====
-- df-derive-macros/src/ir/wrappers.rs and non_empty.rs
use df_derive.Prelude.{
  ℕ, zero, suc, Bool, Option, none, some, List, [], ◌∷◌, ◌++◌, length, any, ltb,
}
use df_derive.Ir.Access.{AccessChain}

pub record NonEmpty {ℓ} (A : Type ℓ) : Type ℓ where
  pub first : A
  pub rest : List A

module _ {ℓ} {A : Type ℓ} where
  unfoldable pub from_vec : List A → Option (NonEmpty A)
  from_vec [] = none
  from_vec (x ∷ xs) = some (record { first = x; rest = xs })

  abbrev pub to_vec : NonEmpty A → List A
  to_vec xs = xs.first ∷ xs.rest

  -- `Extend`
  unfoldable pub extend : NonEmpty A → List A → NonEmpty A
  extend xs ys = record xs { rest = xs.rest ++ ys }

pub data LeafShape : Type 0 where
  bare : LeafShape
  optional : ℕ → AccessChain → LeafShape

-- `NonZeroUsize::new` is `none` at 0
unfoldable pub from_option_access : ℕ → AccessChain → LeafShape
from_option_access zero access = bare
from_option_access (suc n) access = optional (suc n) access

unfoldable pub leaf_option_layers : LeafShape → ℕ
leaf_option_layers bare = 0
leaf_option_layers (optional n access) = n

pub record VecLayerSpec : Type 0 where
  pub option_layers_above : ℕ
  pub access : AccessChain

unfoldable pub has_outer_validity : VecLayerSpec → Bool
has_outer_validity l = ltb 0 l.option_layers_above

pub record VecLayers : Type 0 where
  pub layers : NonEmpty VecLayerSpec
  pub inner_option_layers : ℕ
  pub inner_access : AccessChain

unfoldable pub depth : VecLayers → ℕ
depth v = suc (length v.layers.rest)

unfoldable pub any_outer_validity : VecLayers → Bool
unfolding has_outer_validity
any_outer_validity v = any has_outer_validity (to_vec v.layers)

unfoldable pub has_inner_option : VecLayers → Bool
has_inner_option v = ltb 0 v.inner_option_layers

pub data WrapperShape : Type 0 where
  leaf : LeafShape → WrapperShape
  vec : VecLayers → WrapperShape

unfoldable pub vec_depth : WrapperShape → ℕ
unfolding depth
vec_depth (leaf _) = 0
vec_depth (vec v) = depth v
