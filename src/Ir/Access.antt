-- ===== src/Ir/Access.antt =====
-- df-derive-macros/src/ir/access.rs
use df_derive.Prelude.{ℕ, suc, Bool, true, false, List, [], ◌∷◌, all}

pub data AccessStep : Type 0 where
  option : AccessStep
  smart_ptr : AccessStep

-- `AccessChain`, whose one field is the list of steps, outermost first
abbrev pub AccessChain : Type 0
AccessChain = List AccessStep

abbrev pub is_option_step : AccessStep → Bool
is_option_step option = true
is_option_step smart_ptr = false

unfoldable pub option_layers : AccessChain → ℕ
option_layers [] = 0
option_layers (option ∷ steps) = suc (option_layers steps)
option_layers (smart_ptr ∷ steps) = option_layers steps

unfoldable pub is_single_plain_option : AccessChain → Bool
is_single_plain_option (option ∷ []) = true
is_single_plain_option _ = false

unfoldable pub is_only_options : AccessChain → Bool
is_only_options = all is_option_step
