-- ===== src/Attrs/Items.antt =====
-- The items of an attribute as `syn`'s `parse_nested_meta` hands them over, in order: a key and what
-- follows it. A value of another form than the source asks for is `syn`'s own error.
use df_derive.Prelude.{ℕ, String, List, [], ◌∷◌}
use df_derive.Errors.{Result, ok, err, syn_error, ◌>>=◌}

pub data Literal : Type 0 where
  int : ℕ → Literal
  text : String → Literal
  other_literal : Literal

-- `key = literal`, inside `decimal(...)` and `flatten(...)`
pub record SubMeta : Type 0 where
  pub key : String
  pub value : Literal

pub data MetaValue : Type 0 where
  no_value : MetaValue
  assigned : Literal → MetaValue
  nested : List SubMeta → MetaValue

pub record Meta : Type 0 where
  pub key : String
  pub value : MetaValue

-- `#[name(metas)]`
pub record Attribute : Type 0 where
  pub name : String
  pub metas : List Meta

unfoldable pub literal_int : Literal → Result ℕ
literal_int (int n) = ok n
literal_int _ = err syn_error

unfoldable pub literal_text : Literal → Result String
literal_text (text s) = ok s
literal_text _ = err syn_error

unfoldable pub assigned_text : MetaValue → Result String
unfolding literal_text
assigned_text (assigned l) = literal_text l
assigned_text _ = err syn_error

-- a closure run on the items in order, with the variables that it captures, up to an error
unfoldable pub for_each {ℓ κ} :
    {S : Type ℓ} {A : Type κ} → (S → A → Result S) → S → List A → Result S
for_each f s [] = ok s
for_each f s (x ∷ xs) = do s' ← f s x; for_each f s' xs
