-- ===== src/Decimal128/Bounds.antt =====
-- The rescaling of df-derive-core/src/lib.rs and the bounds of `i128`.
use Prim.Native.Nat.{compare, Ordering}
use native.Mathlib.Nat.{div-add-mod', one-le-pow, le-mul_of_pos_right}
use df_derive.Prelude.{
  ℕ, zero, suc, ◌+◌, ◌-◌, ◌*◌, ◌/◌, ◌%◌, ◌^◌, ◌≤◌, ◌<◌, ◌≡◌, sym, ◌∙◌, true, some, arith, ◌⊎◌, inl,
  inr, Bool-cases,
}
use df_derive.Decimal128.{
  ℤ, pos, negsuc, unsigned_abs, is_negative, neg, in_i128, with_sign, checked_mul, round_half_even,
  try_to_i128_mantissa,
}
use df_derive.Decimal128.Rounding.{pow10-even, rescaled-bound, rescale-up, rescale-down}

rounds-within :
    (abs pow q r h : ℕ)
    → q * pow + r ≡ abs
    → q ≤ q * pow
    → 0 < h
    → (elim (compare r h) [ Ordering.gt ↦ q + 1 | Ordering.lt ↦ q | Ordering.eq ↦ q + q % 2 ]) ≤ abs
rounds-within abs pow q r h e l p = ground arith

round_half_even-within : (abs d : ℕ) → 0 < d → round_half_even abs (10 ^ d) ≤ abs
unfolding round_half_even
round_half_even-within abs d h =
    rounds-within abs (10 ^ d) (abs / 10 ^ d) (abs % 10 ^ d) (10 ^ d / 2)
      (div-add-mod' abs (10 ^ d))
      (le-mul_of_pos_right (abs / 10 ^ d) (one-le-pow d 10 (omega arith))) (pow10-even d h).1

with_sign-in_i128 :
    (m : ℤ) (k : ℕ)
    → k ≤ unsigned_abs m
    → in_i128 m ≡ true
    → in_i128 (with_sign (is_negative m) k) ≡ true
unfolding in_i128 with_sign is_negative unsigned_abs neg
with_sign-in_i128 (pos n) k h i = ground (arith, i)
with_sign-in_i128 (negsuc n) zero h i = ground (arith, i)
with_sign-in_i128 (negsuc n) (suc k) h i = ground (arith, i)

checked-in_i128 : (m r : ℤ) (p : ℕ) → checked_mul m p ≡ some r → in_i128 r ≡ true
unfolding checked_mul
checked-in_i128 m r p h =
    elim (Bool-cases (in_i128 (with_sign (is_negative m) (unsigned_abs m * p)))) [
      | inl e ↦ cc (rw e at h, e)
      | inr e ↦ cc (rw e at h)
    ]

rescale-same :
    (source target : ℕ) (m : ℤ)
    → source ≡ target
    → target ≤ 38
    → try_to_i128_mantissa source m target ≡ some m
unfolding try_to_i128_mantissa
rescale-same source target m e h = ground arith

trichotomy : (a b : ℕ) → (a < b) ⊎ ((a ≡ b) ⊎ (b < a))
trichotomy a b = ground arith

-- Whatever the scales, a rescaled mantissa is an `i128` when the mantissa is: no branch wraps, and a
-- scale-up that would is `none`.
pub try_to_i128_mantissa-in_i128 :
    (source : ℕ) (mantissa : ℤ) (target : ℕ) (r : ℤ)
    → in_i128 mantissa ≡ true
    → try_to_i128_mantissa source mantissa target ≡ some r
    → in_i128 r ≡ true
try_to_i128_mantissa-in_i128 source mantissa target r i h =
    let small = rescaled-bound source target mantissa r h in
    elim (trichotomy source target) [
      | inl l ↦
          checked-in_i128 mantissa r (10 ^ (target - source))
            (sym (rescale-up source target mantissa l small) ∙ h)
      | inr (inl e) ↦ cc (sym (rescale-same source target mantissa e small) ∙ h, i)
      | inr (inr l) ↦ cc (
        sym (rescale-down source target mantissa l small) ∙ h,
        with_sign-in_i128 mantissa
            (round_half_even (unsigned_abs mantissa) (10 ^ (source - target)))
            (round_half_even-within (unsigned_abs mantissa) (source - target) (omega arith)) i,
      )
    ]
