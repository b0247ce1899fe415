-- ===== src/Attributes/Decimals.antt =====
-- What `decimal(precision = …, scale = …)` accepts.
use df_derive.Prelude.{
  ℕ, ◌≤◌, Bool, true, false, ◌&&◌, ◌≡◌, refl, Option, none, some, List, [], ◌∷◌, arith, ltb, leb,
  ◌==◌, if◌then◌else◌, Bool-cases, inl, inr,
}
use df_derive.Errors.{
  Error, Result, ok, duplicate_precision, duplicate_scale, precision_not_u8, scale_not_u8,
  precision_out_of_range, scale_out_of_range, ◌>>◌, Returns, Returns-bind, Returns-any, Returns-eq,
}
use df_derive.Attrs.{
  SubMeta, literal_int, MetaValue, nested, no_value, assigned, for_each, DecimalKeys, fits_u8,
  reject_second, check, decimal_key, decimal_of_keys, parse_decimal_attr,
}

-- A loop keeps what each of its rounds keeps.
pub for_each-Returns {ℓ κ} :
    {S : Type ℓ} {A : Type κ} (P : S → Type 0) (f : S → A → Result S) (xs : List A) (s : S)
    → ((s : S) (x : A) → P s → Returns P (f s x))
    → P s
    → Returns P (for_each f s xs)
unfolding for_each
for_each-Returns P f [] s keeps h = h
for_each-Returns P f (x ∷ xs) s keeps h =
    Returns-bind P P (f s x) _ (keeps s x h) λ s' h'. for_each-Returns P f xs s' keeps h'

abbrev InRange : Option ℕ → ℕ → Type 0
InRange none low = Unit
InRange (some n) low = (low ≤ n) × (n ≤ 38)

abbrev KeysInRange : DecimalKeys → Type 0
KeysInRange keys = InRange keys.precision 1 × InRange keys.scale 0

Returns-if {ℓ} :
    {A : Type ℓ} (P : A → Type 0) (b : Bool) (m n : Result A)
    → Returns P m
    → Returns P n
    → Returns P (if b then m else n)
Returns-if P true m n h k = h
Returns-if P false m n h k = k

precision-InRange :
    (keys : DecimalKeys) (n : ℕ)
    → KeysInRange keys
    → leb 1 n && leb n 38 ≡ true
    → KeysInRange (record keys { precision = some n })
precision-InRange keys n h fits = ((ground (arith, fits), ground (arith, fits)), h.1)

scale-InRange :
    (keys : DecimalKeys) (n : ℕ)
    → KeysInRange keys
    → leb n 38 ≡ true
    → KeysInRange (record keys { scale = some n })
scale-InRange keys n h fits = (h.0, (omega arith, ground (arith, fits)))

-- the checks of one key: its width, its range and that it is the first
ranged_key-Returns :
    (fits range : Bool) (width out : Error) (slot : Option ℕ) (second : ℕ → Error)
    (keys : DecimalKeys)
    → (range ≡ true → KeysInRange keys)
    → Returns KeysInRange
        (check fits width >> (check range out >> (reject_second slot second >> ok keys)))
unfolding check
ranged_key-Returns false range width out slot second keys h = tt
ranged_key-Returns true false width out slot second keys h = tt
ranged_key-Returns true true width out none second keys h = h refl
ranged_key-Returns true true width out (some existing) second keys h = tt

key-InRange :
    (keys : DecimalKeys) (sub : SubMeta)
    → KeysInRange keys
    → Returns KeysInRange (decimal_key keys sub)
unfolding decimal_key
key-InRange keys sub h =
    Returns-if KeysInRange (sub.key == "precision") _ _
      (Returns-bind (λ _. Unit) KeysInRange (literal_int sub.value) _ (Returns-any _)
        λ n _.
          ranged_key-Returns (fits_u8 n) (leb 1 n && leb n 38) precision_not_u8
            (precision_out_of_range n) keys.precision (λ existing. duplicate_precision existing n)
            (record keys { precision = some n }) (precision-InRange keys n h))
      (Returns-if KeysInRange (sub.key == "scale") _ _
        (Returns-bind (λ _. Unit) KeysInRange (literal_int sub.value) _ (Returns-any _)
          λ n _.
            ranged_key-Returns (fits_u8 n) (leb n 38) scale_not_u8 (scale_out_of_range n) keys.scale
              (λ existing. duplicate_scale existing n) (record keys { scale = some n })
              (scale-InRange keys n h))
        tt)

abbrev ValidDecimal : ℕ × ℕ → Type 0
ValidDecimal d = (1 ≤ d.0) × (d.0 ≤ 38) × (d.1 ≤ d.0)

of_keys-ValidDecimal :
    (p s : Option ℕ)
    → KeysInRange (record { precision = p; scale = s })
    → Returns ValidDecimal (decimal_of_keys (record { precision = p; scale = s }))
unfolding decimal_of_keys
of_keys-ValidDecimal none s h = tt
of_keys-ValidDecimal (some p) none h = tt
of_keys-ValidDecimal (some p) (some s) h = elim (Bool-cases (ltb p s)) [
  | inl e ↦ rw e tt
  | inr e ↦ rw e (h.0.0, h.0.1, ground (arith, e))
]

attr-ValidDecimal : (v : MetaValue) → Returns ValidDecimal (parse_decimal_attr v)
unfolding parse_decimal_attr
attr-ValidDecimal (nested subs) =
    Returns-bind KeysInRange ValidDecimal (for_each decimal_key _ subs) _
      (for_each-Returns KeysInRange decimal_key subs _ key-InRange (tt, tt))
      λ keys h. of_keys-ValidDecimal keys.precision keys.scale h
attr-ValidDecimal no_value = tt
attr-ValidDecimal (assigned _) = tt

-- A `decimal` attribute that is accepted has a precision from 1 to 38 and a scale that is at most
-- the precision, in whatever order and form its keys were written.
pub parse_decimal_attr-bounds :
    (v : MetaValue) (p s : ℕ) → parse_decimal_attr v ≡ ok (p, s) → (1 ≤ p) × (p ≤ 38) × (s ≤ p)
parse_decimal_attr-bounds v p s e =
    Returns-eq ValidDecimal (parse_decimal_attr v) (attr-ValidDecimal v) e
