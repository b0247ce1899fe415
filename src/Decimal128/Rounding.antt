-- ===== src/Decimal128/Rounding.antt =====
-- The rescaling of df-derive-core/src/lib.rs, and rounding to the nearest, ties to even.
use Prim.Native.Nat.{compare, Ordering}
use native.Mathlib.Nat.{
  div-add-mod', mod-lt, add-mul, pow-suc, one-le-pow, pow-le-pow_right, mul-div_cancel,
  mul-mod_left, mul-pos,
}
use df_derive.Prelude.{
  ℕ, zero, suc, ◌+◌, ◌-◌, ◌*◌, ◌/◌, ◌%◌, ◌^◌, ◌≤◌, ◌<◌, ◌≡◌, refl, sym, ap, ◌∙◌, Bool, true, false,
  some, arith, ◌⊎◌, inl, inr, Bool-cases,
}
use df_derive.Decimal128.{
  ℤ, pos, negsuc, unsigned_abs, is_negative, neg, in_i128, with_sign, checked_mul, round_half_even,
  try_to_i128_mantissa,
}

-- `k` is the multiple of `pow` nearest to `abs`, the even one of two.
unfoldable pub NearestEven : ℕ → ℕ → ℕ → Type 0
NearestEven abs pow k =
    (2 * (k * pow) ≤ 2 * abs + pow)
    × (2 * abs ≤ 2 * (k * pow) + pow)
    × ((2 * (k * pow) ≡ 2 * abs + pow) ⊎ (2 * abs ≡ 2 * (k * pow) + pow) → k % 2 ≡ 0)

pub pow10-even : (d : ℕ) → 0 < d → (10 ^ d ≡ 2 * (10 ^ d / 2)) × (0 < 10 ^ d / 2)
pow10-even (suc d) h = omega (arith, pow-suc 10 d, one-le-pow d 10 (omega arith))
pow10-even zero h = omega arith

nearest :
    (abs pow q r h : ℕ)
    → q * pow + r ≡ abs
    → r < pow
    → pow ≡ 2 * h
    → 0 < h
    → NearestEven abs pow
        (elim (compare r h) [ Ordering.gt ↦ q + 1 | Ordering.lt ↦ q | Ordering.eq ↦ q + q % 2 ])
unfolding NearestEven
nearest abs pow q r h e l even p = ground (arith, add-mul q 1 pow)

round_half_even-NearestEven :
    (abs d : ℕ) → 0 < d → NearestEven abs (10 ^ d) (round_half_even abs (10 ^ d))
unfolding round_half_even
round_half_even-NearestEven abs d h =
    let even = pow10-even d h in
    nearest abs (10 ^ d) (abs / 10 ^ d) (abs % 10 ^ d) (10 ^ d / 2) (div-add-mod' abs (10 ^ d))
      (mod-lt abs (one-le-pow d 10 (omega arith))) even.0 even.1

-- The power of ten between two scales is an `i128`.
pub power-fits : (d : ℕ) → d ≤ 38 → 10 ^ d < 2 ^ 127
power-fits d h =
    let small : 10 ^ d ≤ 10 ^ 38 = pow-le-pow_right (omega arith) h in omega (arith, small)

-- A decimal whose scale, at most 28, is above the target scale is always rescaled: to the nearest
-- multiple of the power of ten, the even one where two are as near, under its own sign. The power of
-- ten fits an `i128`.
pub try_to_i128_mantissa-NearestEven :
    (source : ℕ) (mantissa : ℤ) (target : ℕ)
    → source ≤ 28
    → target < source
    → (10 ^ (source - target) < 2 ^ 127)
      × ((k : ℕ) × (try_to_i128_mantissa source mantissa target
            ≡ some (with_sign (is_negative mantissa) k))
          × NearestEven (unsigned_abs mantissa) (10 ^ (source - target)) k)
unfolding try_to_i128_mantissa
try_to_i128_mantissa-NearestEven source mantissa target h l = (
  power-fits (source - target) (omega arith),
  (
    round_half_even (unsigned_abs mantissa) (10 ^ (source - target)),
    ground arith,
    round_half_even-NearestEven (unsigned_abs mantissa) (source - target) (omega arith),
  ),
)

round-exact : (n d : ℕ) → 0 < d → round_half_even (n * 10 ^ d) (10 ^ d) ≡ n
unfolding round_half_even
round-exact n d h =
    let even = pow10-even d h in
    let q : n * 10 ^ d / 10 ^ d ≡ n = mul-div_cancel n (one-le-pow d 10 (omega arith)) in
    let r : n * 10 ^ d % 10 ^ d ≡ 0 = mul-mod_left n (10 ^ d) in ground (arith, q, r, even)

abs-with_sign : (b : Bool) (n : ℕ) → unsigned_abs (with_sign b n) ≡ n
unfolding unsigned_abs with_sign neg
abs-with_sign true zero = refl
abs-with_sign true (suc n) = refl
abs-with_sign false n = refl

is_negative-neg : (n : ℕ) → 0 < n → is_negative (neg n) ≡ true
unfolding is_negative neg
is_negative-neg zero h = absurd (omega arith)
is_negative-neg (suc n) h = refl

sign-back :
    (m : ℤ) (p : ℕ)
    → 0 < p
    → with_sign (is_negative (with_sign (is_negative m) (unsigned_abs m * p))) (unsigned_abs m) ≡ m
unfolding unsigned_abs with_sign neg is_negative
sign-back (pos n) p h = refl
sign-back (negsuc n) p h =
    ap (λ b. with_sign b (suc n))
      (is_negative-neg (suc n * p) (mul-pos {m = suc n} {n = p} (omega arith) h))

pub checked-some :
    (m r : ℤ) (p : ℕ)
    → checked_mul m p ≡ some r
    → with_sign (is_negative m) (unsigned_abs m * p) ≡ r
unfolding checked_mul
checked-some m r p h =
    elim (Bool-cases (in_i128 (with_sign (is_negative m) (unsigned_abs m * p)))) [
      | inl e ↦ cc (rw e at h)
      | inr e ↦ cc (rw e at h)
    ]

pub rescaled-bound :
    (source target : ℕ) (m r : ℤ) → try_to_i128_mantissa source m target ≡ some r → target ≤ 38
unfolding try_to_i128_mantissa
rescaled-bound source target m r h = ground (arith, h)

pub rescale-up :
    (source target : ℕ) (m : ℤ)
    → source < target
    → target ≤ 38
    → try_to_i128_mantissa source m target ≡ checked_mul m (10 ^ (target - source))
unfolding try_to_i128_mantissa
rescale-up source target m l h = ground arith

pub rescale-down :
    (source target : ℕ) (m : ℤ)
    → target < source
    → target ≤ 38
    → try_to_i128_mantissa source m target
      ≡ some (with_sign (is_negative m) (round_half_even (unsigned_abs m) (10 ^ (source - target))))
unfolding try_to_i128_mantissa
rescale-down source target m l h = ground arith

-- A mantissa that is rescaled to a larger scale without overflow comes back unchanged when it is
-- rescaled to the scale that it came from.
pub try_to_i128_mantissa-roundtrip :
    (source : ℕ) (mantissa : ℤ) (target : ℕ) (r : ℤ)
    → source < target
    → try_to_i128_mantissa source mantissa target ≡ some r
    → try_to_i128_mantissa target r source ≡ some mantissa
try_to_i128_mantissa-roundtrip source mantissa target r l h =
    let small = rescaled-bound source target mantissa r h in
    let d = target - source in
    let scaled =
      checked-some mantissa r (10 ^ d) (sym (rescale-up source target mantissa l small) ∙ h) in
    let size : unsigned_abs r ≡ unsigned_abs mantissa * 10 ^ d =
      ap unsigned_abs (sym scaled)
      ∙ abs-with_sign (is_negative mantissa) (unsigned_abs mantissa * 10 ^ d) in
    let rounded : round_half_even (unsigned_abs r) (10 ^ d) ≡ unsigned_abs mantissa =
      ap (λ n. round_half_even n (10 ^ d)) size
      ∙ round-exact (unsigned_abs mantissa) d (omega arith) in
    rescale-down target source r l (omega arith)
    ∙ ap (λ k. some (with_sign (is_negative r) k)) rounded
    ∙ ap (λ x. some (with_sign (is_negative x) (unsigned_abs mantissa))) (sym scaled)
    ∙ ap some (sign-back mantissa (10 ^ d) (one-le-pow d 10 (omega arith)))
