-- ===== src/Encoder/Leaves/Bits.antt =====
-- Validity bitmaps of df-derive-macros/src/codegen/encoder/leaf.rs that are filled before the loops
-- (`mb_decl_filled`) and cleared at the nulls.
use df_derive.Prelude.{
  ℕ, suc, Bool, true, false, ◌≡◌, sym, ◌∙◌, some, none, List, [], ◌∷◌, ◌++◌, length, replicate, set,
  arith, append_assoc,
}
use df_derive.Encoder.Lists.{nullable, nullable-true, nullable-false, set-append, length-nullable}
use df_derive.Encoder.Decoding.{length-snoc}

-- The first `n` bits are settled, and the next `r` are still as they were filled.
abbrev pub Filled : Bool → List Bool → ℕ → ℕ → Type 0
Filled fill all n r = (bits : List Bool) × (all ≡ bits ++ replicate r fill) × (length bits ≡ n)

bits-snoc :
    (fill : Bool) (bits : List Bool) (b : Bool) (r : ℕ)
    → bits ++ b ∷ replicate r fill ≡ (bits ++ b ∷ []) ++ replicate r fill
bits-snoc fill bits b r = sym (append_assoc bits (b ∷ []) (replicate r fill))

pub Filled-kept :
    (fill : Bool) (all : List Bool) (n r : ℕ)
    → Filled fill all n (suc r)
    → Filled fill all (suc n) r
Filled-kept fill all n r (bits, h, k) =
    (bits ++ fill ∷ [], h ∙ bits-snoc fill bits fill r, omega (arith, length-snoc bits fill, k))

pub Filled-set :
    (fill : Bool) (all : List Bool) (n r : ℕ) (c : Bool)
    → Filled fill all n (suc r)
    → Filled fill (set all n c) (suc n) r
Filled-set fill all n r c (bits, h, k) = (
  bits ++ c ∷ [],
  rw (h, set-append bits (replicate r fill) fill c n k) (bits-snoc fill bits c r),
  omega (arith, length-snoc bits c, k),
)

module _ {ℓ} {T : Type ℓ} where
  pub nullable-kept :
      (xs : List T) (x : T) (all : List Bool) (r : ℕ)
      → Filled true all (length xs) (suc r)
      → nullable (xs ++ x ∷ []) all ≡ nullable xs all ++ some x ∷ []
  nullable-kept xs x all r (bits, h, k) = rw h (nullable-true xs bits x r k)

  pub nullable-cleared :
      (xs : List T) (x : T) (all : List Bool) (r : ℕ)
      → Filled true all (length xs) (suc r)
      → nullable (xs ++ x ∷ []) (set all (length xs) false) ≡ nullable xs all ++ none ∷ []
  nullable-cleared xs x all r (bits, h, k) = rw h (nullable-false xs bits x r k)

  pub length-nullable-Filled :
      (xs : List T) (all : List Bool) (r : ℕ)
      → Filled true all (length xs) r
      → length (nullable xs all) ≡ length xs
  length-nullable-Filled xs all r (bits, h, k) = rw h (length-nullable xs bits r k)
