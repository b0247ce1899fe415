-- ===== src/Encoder/Lists.antt =====
-- The layout of an Arrow list array, as the specification of the buffers: row `i` holds the child's
-- entries from offset `i` up to offset `i + 1`, and is null where its validity bit is false.
use df_derive.Prelude.{
  ℕ, zero, suc, ◌+◌, ◌≤◌, Bool, true, false, ◌≡◌, refl, ap, Option, none, some, List, [], ◌∷◌, ◌++◌,
  length, map, take, drop, replicate, set, arith, All, length-append,
}

module _ {ℓ} {T : Type ℓ} where
  unfoldable pub slice : List T → ℕ → ℕ → List T
  slice xs from to = drop from (take to xs)

  abbrev pub row_of : Bool → List T → Option (List T)
  row_of true xs = some xs
  row_of false xs = none

  -- The rows from the offset `from` on; without a bitmap every row is valid.
  unfoldable pub list_rows : ℕ → List ℕ → Option (List Bool) → List T → List (Option (List T))
  unfolding slice
  list_rows from [] bits xs = []
  list_rows from (to ∷ offsets) none xs = some (slice xs from to) ∷ list_rows to offsets none xs
  list_rows from (to ∷ offsets) (some []) xs = []
  list_rows from (to ∷ offsets) (some (b ∷ bits)) xs =
      row_of b (slice xs from to) ∷ list_rows to offsets (some bits) xs

  -- A primitive array: the values, null where the bit is false.
  unfoldable pub nullable : List T → List Bool → List (Option T)
  nullable [] bits = []
  nullable (x ∷ xs) [] = []
  nullable (x ∷ xs) (true ∷ bits) = some x ∷ nullable xs bits
  nullable (x ∷ xs) (false ∷ bits) = none ∷ nullable xs bits

  take-append : (n : ℕ) (xs ys : List T) → n ≤ length xs → take n (xs ++ ys) ≡ take n xs
  take-append zero xs ys h = refl
  take-append (suc n) [] ys h = absurd (omega arith)
  take-append (suc n) (x ∷ xs) ys h = ap (x ∷◌) (take-append n xs ys (omega arith))

  take-length : (n : ℕ) (xs : List T) → length xs ≤ n → take n xs ≡ xs
  take-length zero [] h = refl
  take-length zero (x ∷ xs) h = absurd (omega arith)
  take-length (suc n) [] h = refl
  take-length (suc n) (x ∷ xs) h = ap (x ∷◌) (take-length n xs (omega arith))

  drop-length : (xs ys : List T) → drop (length xs) (xs ++ ys) ≡ ys
  drop-length [] ys = refl
  drop-length (x ∷ xs) ys = drop-length xs ys

  -- more entries at the end leave the rows before them as they were
  pub list_rows-grow :
      (offsets : List ℕ) (from : ℕ) (bits : Option (List Bool)) (xs ys : List T)
      → All (λ n. n ≤ length xs) offsets
      → list_rows from offsets bits (xs ++ ys) ≡ list_rows from offsets bits xs
  unfolding list_rows slice
  list_rows-grow [] from bits xs ys h = refl
  list_rows-grow (to ∷ offsets) from none xs ys h =
      rw (take-append to xs ys h.0, list_rows-grow offsets to none xs ys h.1)
  list_rows-grow (to ∷ offsets) from (some []) xs ys h = refl
  list_rows-grow (to ∷ offsets) from (some (b ∷ bits)) xs ys h =
      rw (take-append to xs ys h.0, list_rows-grow offsets to (some bits) xs ys h.1)

-- the offset that the next row starts at
unfoldable pub last_offset : ℕ → List ℕ → ℕ
last_offset from [] = from
last_offset from (to ∷ offsets) = last_offset to offsets

-- no offset is below the one before it
unfoldable pub Ascending : ℕ → List ℕ → Type 0
Ascending from [] = Unit
Ascending from (to ∷ offsets) = (from ≤ to) × Ascending to offsets

pub Ascending-snoc :
    (offsets : List ℕ) (from n : ℕ)
    → Ascending from offsets
    → last_offset from offsets ≤ n
    → Ascending from (offsets ++ n ∷ [])
unfolding Ascending last_offset
Ascending-snoc [] from n h k = (k, tt)
Ascending-snoc (to ∷ offsets) from n h k = (h.0, Ascending-snoc offsets to n h.1 k)

pub last_offset-snoc : (offsets : List ℕ) (from n : ℕ) → last_offset from (offsets ++ n ∷ []) ≡ n
unfolding last_offset
last_offset-snoc [] from n = refl
last_offset-snoc (to ∷ offsets) from n = last_offset-snoc offsets to n

module _ {ℓ} {T : Type ℓ} where
  rows-snoc-all :
      (offsets : List ℕ) (from n : ℕ) (zs : List T)
      → list_rows from (offsets ++ n ∷ []) none zs
        ≡ list_rows from offsets none zs ++ some (slice zs (last_offset from offsets) n) ∷ []
  unfolding list_rows last_offset
  rows-snoc-all [] from n zs = refl
  rows-snoc-all (to ∷ offsets) from n zs =
      ap (some (slice zs from to) ∷◌) (rows-snoc-all offsets to n zs)

  rows-snoc-bits :
      (offsets : List ℕ) (bits : List Bool) (from n : ℕ) (b : Bool) (zs : List T)
      → length bits ≡ length offsets
      → list_rows from (offsets ++ n ∷ []) (some (bits ++ b ∷ [])) zs
        ≡ list_rows from offsets (some bits) zs
          ++ row_of b (slice zs (last_offset from offsets) n) ∷ []
  unfolding list_rows last_offset
  rows-snoc-bits [] [] from n b zs h = refl
  rows-snoc-bits [] (c ∷ bits) from n b zs h = absurd (omega arith)
  rows-snoc-bits (to ∷ offsets) [] from n b zs h = absurd (omega arith)
  rows-snoc-bits (to ∷ offsets) (c ∷ bits) from n b zs h =
      ap (row_of c (slice zs from to) ∷◌) (rows-snoc-bits offsets bits to n b zs (omega arith))

  -- the new entries, sliced from where the old ones end
  pub slice-new :
      (xs ys : List T) (n : ℕ) → n ≡ length xs + length ys → slice (xs ++ ys) (length xs) n ≡ ys
  unfolding slice
  slice-new xs ys n h =
      rw (take-length n (xs ++ ys) (omega (arith, length-append xs ys, h)), drop-length xs ys)

  -- A row pushed on a layer without a bitmap, and on one with a bitmap.
  pub list_rows-push :
      (offsets : List ℕ) (xs ys : List T) (n : ℕ)
      → All (λ k. k ≤ length xs) offsets
      → last_offset 0 offsets ≡ length xs
      → n ≡ length xs + length ys
      → list_rows 0 (offsets ++ n ∷ []) none (xs ++ ys)
        ≡ list_rows 0 offsets none xs ++ some ys ∷ []
  list_rows-push offsets xs ys n within last h = rw (
    rows-snoc-all offsets 0 n (xs ++ ys),
    last,
    slice-new xs ys n h,
    list_rows-grow offsets 0 none xs ys within,
  )

  pub list_rows-push-bit :
      (offsets : List ℕ) (bits : List Bool) (b : Bool) (xs ys : List T) (n : ℕ)
      → All (λ k. k ≤ length xs) offsets
      → last_offset 0 offsets ≡ length xs
      → n ≡ length xs + length ys
      → length bits ≡ length offsets
      → list_rows 0 (offsets ++ n ∷ []) (some (bits ++ b ∷ [])) (xs ++ ys)
        ≡ list_rows 0 offsets (some bits) xs ++ row_of b ys ∷ []
  list_rows-push-bit offsets bits b xs ys n within last h same = rw (
    rows-snoc-bits offsets bits 0 n b (xs ++ ys) same,
    last,
    slice-new xs ys n h,
    list_rows-grow offsets 0 (some bits) xs ys within,
  )

  pub nullable-true :
      (xs : List T) (bits : List Bool) (x : T) (r : ℕ)
      → length bits ≡ length xs
      → nullable (xs ++ x ∷ []) (bits ++ replicate (suc r) true)
        ≡ nullable xs (bits ++ replicate (suc r) true) ++ some x ∷ []
  unfolding nullable
  nullable-true [] [] x r h = refl
  nullable-true [] (b ∷ bits) x r h = absurd (omega arith)
  nullable-true (y ∷ xs) [] x r h = absurd (omega arith)
  nullable-true (y ∷ xs) (true ∷ bits) x r h =
      ap (some y ∷◌) (nullable-true xs bits x r (omega arith))
  nullable-true (y ∷ xs) (false ∷ bits) x r h =
      ap (none ∷◌) (nullable-true xs bits x r (omega arith))

  pub nullable-false :
      (xs : List T) (bits : List Bool) (x : T) (r : ℕ)
      → length bits ≡ length xs
      → nullable (xs ++ x ∷ []) (set (bits ++ replicate (suc r) true) (length xs) false)
        ≡ nullable xs (bits ++ replicate (suc r) true) ++ none ∷ []
  unfolding nullable
  nullable-false [] [] x r h = refl
  nullable-false [] (b ∷ bits) x r h = absurd (omega arith)
  nullable-false (y ∷ xs) [] x r h = absurd (omega arith)
  nullable-false (y ∷ xs) (true ∷ bits) x r h =
      ap (some y ∷◌) (nullable-false xs bits x r (omega arith))
  nullable-false (y ∷ xs) (false ∷ bits) x r h =
      ap (none ∷◌) (nullable-false xs bits x r (omega arith))

  pub length-nullable :
      (xs : List T) (bits : List Bool) (r : ℕ)
      → length bits ≡ length xs
      → length (nullable xs (bits ++ replicate r true)) ≡ length xs
  unfolding nullable
  length-nullable [] bits r h = refl
  length-nullable (x ∷ xs) [] r h = absurd (omega arith)
  length-nullable (x ∷ xs) (true ∷ bits) r h = ap suc (length-nullable xs bits r (omega arith))
  length-nullable (x ∷ xs) (false ∷ bits) r h = ap suc (length-nullable xs bits r (omega arith))

  pub length-list_rows :
      (offsets : List ℕ) (from : ℕ) (xs : List T)
      → length (list_rows from offsets none xs) ≡ length offsets
  unfolding list_rows
  length-list_rows [] from xs = refl
  length-list_rows (to ∷ offsets) from xs = ap suc (length-list_rows offsets to xs)

  pub length-list_rows-bits :
      (offsets : List ℕ) (bits : List Bool) (from : ℕ) (xs : List T)
      → length bits ≡ length offsets
      → length (list_rows from offsets (some bits) xs) ≡ length offsets
  unfolding list_rows
  length-list_rows-bits [] bits from xs h = refl
  length-list_rows-bits (to ∷ offsets) [] from xs h = absurd (omega arith)
  length-list_rows-bits (to ∷ offsets) (b ∷ bits) from xs h =
      ap suc (length-list_rows-bits offsets bits to xs (omega arith))

pub set-append :
    (bits rest : List Bool) (b c : Bool) (n : ℕ)
    → length bits ≡ n
    → set (bits ++ b ∷ rest) n c ≡ bits ++ c ∷ rest
set-append [] rest b c zero h = refl
set-append [] rest b c (suc n) h = absurd (omega arith)
set-append (a ∷ bits) rest b c zero h = absurd (omega arith)
set-append (a ∷ bits) rest b c (suc n) h = ap (a ∷◌) (set-append bits rest b c n (omega arith))

pub map-append {ℓ κ} :
    {A : Type ℓ} {B : Type κ} (f : A → B) (xs ys : List A) → map f (xs ++ ys) ≡ map f xs ++ map f ys
map-append f [] ys = refl
map-append f (x ∷ xs) ys = ap (f x ∷◌) (map-append f xs ys)

pub length-map {ℓ κ} :
    {A : Type ℓ} {B : Type κ} (f : A → B) (xs : List A) → length (map f xs) ≡ length xs
length-map f [] = refl
length-map f (x ∷ xs) = ap suc (length-map f xs)
