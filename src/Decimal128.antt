-- ===== src/Decimal128.antt =====
-- df-derive-core/src/lib.rs: `Decimal128Encode` for `rust_decimal::Decimal`. The scale and the
-- mantissa of the decimal, which that crate gives, are arguments. The crate keeps a scale of at most
-- 28, and the powers of ten are then below 2^127, so `pow` does not overflow.
pub mod Rounding
pub mod Bounds
use Prim.Native.Nat.{compare, Ordering}
use df_derive.Prelude.{
  ℕ, zero, suc, ◌+◌, ◌-◌, ◌*◌, ◌/◌, ◌%◌, ◌^◌, Bool, true, false, Option, none, some, ltb, leb, eqb,
  if◌then◌else◌,
}

-- an `i128`, before its bounds: `pos n` is n, and `negsuc n` is -(n + 1)
pub data ℤ : Type 0 where
  pos negsuc : ℕ → ℤ

abbrev pub decimal128_max_scale : ℕ
decimal128_max_scale = 38

unfoldable pub unsigned_abs : ℤ → ℕ
unsigned_abs (pos n) = n
unsigned_abs (negsuc n) = suc n

unfoldable pub is_negative : ℤ → Bool
is_negative (pos n) = false
is_negative (negsuc n) = true

-- `-n` for what was cast from unsigned
unfoldable pub neg : ℕ → ℤ
neg zero = pos zero
neg (suc n) = negsuc n

unfoldable pub with_sign : Bool → ℕ → ℤ
unfolding neg
with_sign negative n = if negative then neg n else pos n

-- the magnitudes of an `i128`: up to 2^127 - 1 above, and one more below 0
unfoldable pub in_i128 : ℤ → Bool
in_i128 (pos n) = ltb n (2 ^ 127)
in_i128 (negsuc n) = ltb n (2 ^ 127)

-- `checked_mul` by a power of ten
unfoldable pub checked_mul : ℤ → ℕ → Option ℤ
unfolding with_sign unsigned_abs is_negative in_i128
checked_mul m pow =
    let product = with_sign (is_negative m) (unsigned_abs m * pow) in
    if in_i128 product then some product else none

-- the quotient, rounded by comparing the remainder with the half
unfoldable pub round_half_even : ℕ → ℕ → ℕ
round_half_even abs pow =
    let q = abs / pow in
    elim (compare (abs % pow) (pow / 2)) [
      | Ordering.gt ↦ q + 1
      | Ordering.lt ↦ q
      | Ordering.eq ↦ q + q % 2
    ]

unfoldable pub try_to_i128_mantissa : ℕ → ℤ → ℕ → Option ℤ
unfolding checked_mul round_half_even with_sign unsigned_abs is_negative
try_to_i128_mantissa source_scale mantissa target_scale =
    if ltb decimal128_max_scale target_scale
    then none
    else if eqb source_scale target_scale
    then some mantissa
    else if ltb source_scale target_scale
    then checked_mul mantissa (10 ^ (target_scale - source_scale))
    else some (
        with_sign (is_negative mantissa)
          (round_half_even (unsigned_abs mantissa) (10 ^ (source_scale - target_scale))))
