-- ===== src/Attrs/Decimal.antt =====
-- df-derive-macros/src/attrs/decimal.rs
use df_derive.Prelude.{
  ℕ, Bool, true, false, ◌&&◌, Option, none, some, ltb, leb, ◌==◌, if◌then◌else◌,
}
use df_derive.Errors.{
  Error, Result, ok, err, precision_not_u8, scale_not_u8, unknown_decimal_key, missing_precision,
  missing_scale, precision_out_of_range, scale_out_of_range, duplicate_precision, duplicate_scale,
  scale_exceeds_precision, syn_error, ◌>>=◌, ◌>>◌,
}
use df_derive.Attrs.Items.{SubMeta, literal_int, MetaValue, nested, for_each}

-- the variables that the closure of `parse_decimal_attr` writes
pub record DecimalKeys : Type 0 where
  pub precision : Option ℕ
  pub scale : Option ℕ

unfoldable pub check : Bool → Error → Result (Unit {0})
check true e = ok tt
check false e = err e

abbrev pub reject_second : Option ℕ → (ℕ → Error) → Result (Unit {0})
reject_second none e = ok tt
reject_second (some existing) e = err (e existing)

-- `base10_parse::<u8>()`
abbrev pub fits_u8 : ℕ → Bool
fits_u8 n = ltb n 256

unfoldable pub decimal_key : DecimalKeys → SubMeta → Result DecimalKeys
unfolding check literal_int
decimal_key keys sub =
    if sub.key == "precision"
    then (do
      value ← literal_int sub.value
      check (fits_u8 value) precision_not_u8
      check (leb 1 value && leb value 38) (precision_out_of_range value)
      reject_second keys.precision (λ existing. duplicate_precision existing value)
      ok (record keys { precision = some value }))
    else if sub.key == "scale"
    then (do
      value ← literal_int sub.value
      check (fits_u8 value) scale_not_u8
      check (leb value 38) (scale_out_of_range value)
      reject_second keys.scale (λ existing. duplicate_scale existing value)
      ok (record keys { scale = some value }))
    else err unknown_decimal_key

abbrev required : Option ℕ → Error → Result ℕ
required (some n) e = ok n
required none e = err e

-- what follows the loop over the keys
unfoldable pub decimal_of_keys : DecimalKeys → Result (ℕ × ℕ)
decimal_of_keys keys = do
  p ← required keys.precision missing_precision
  s ← required keys.scale missing_scale
  if ltb p s then err (scale_exceeds_precision s p) else ok (p, s)

unfoldable pub parse_decimal_attr : MetaValue → Result (ℕ × ℕ)
unfolding decimal_key decimal_of_keys for_each
parse_decimal_attr (nested subs) = do
  keys ← for_each decimal_key (record { precision = none; scale = none }) subs
  decimal_of_keys keys
parse_decimal_attr _ = err syn_error
