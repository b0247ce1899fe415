-- ===== src/Encoder/LayerPush.antt =====
-- Lemmas on one turn of the loops of df-derive-macros/src/codegen/encoder/shape_walk.rs.
use df_derive.Prelude.{
  inl, inr, ℕ, ◌+◌, ◌≤◌, Bool, true, false, ◌≡◌, refl, sym, ap, ◌∙◌, subst, Option, none, some,
  is_some, List, [], ◌∷◌, ◌++◌, length, arith, All, append-nil, append_assoc,
}
use df_derive.Ir.{VecLayerSpec, has_outer_validity}
use df_derive.Encoder.Outcome.{
  Outcome, Checked, fits, ◌>>=◌, done, compute_error, ill_typed, Refines, Refines-then,
}
use df_derive.Encoder.Scan.{LayerBuf, Bufs, entries, scan_each, enter_layer, push_validity}
use df_derive.Encoder.Lists.{
  row_of, list_rows, last_offset, list_rows-push, list_rows-push-bit, length-list_rows,
  length-list_rows-bits,
}
use df_derive.Encoder.Decoding.{Cell, each, each_option, decode, BitsWell, Well, Added, length-snoc}

abbrev pub pushed_bits : Option (List Bool) → Bool → Option (List Bool)
pushed_bits none bit = none
pushed_bits (some bits) bit = some (bits ++ bit ∷ [])

abbrev pub rows_in {ℓ} : {R : Type ℓ} → Option (List R) → List R
rows_in none = []
rows_in (some rows) = rows

-- the bitmap and the rows of a layer after one more row, valid or not
pub list_rows-pushed {ℓ} :
    {T : Type ℓ} (has bit : Bool) (validity : Option (List Bool)) (pushed : List ℕ) (xs ys : List T)
    (n : ℕ)
    → All (λ k. k ≤ length xs) pushed
    → last_offset 0 pushed ≡ length xs
    → n ≡ length xs + length ys
    → BitsWell has validity (length pushed)
    → (has ≡ false → bit ≡ true)
    → BitsWell has (pushed_bits validity bit) (length (pushed ++ n ∷ []))
      × (list_rows 0 (pushed ++ n ∷ []) (pushed_bits validity bit) (xs ++ ys)
          ≡ list_rows 0 pushed validity xs ++ row_of bit ys ∷ [])
list_rows-pushed true bit none pushed xs ys n within last e w s = absurd w
list_rows-pushed true bit (some bits) pushed xs ys n within last e w s = (
  omega (arith, w, length-snoc bits bit, length-snoc pushed n),
  list_rows-push-bit pushed bits bit xs ys n within last e w,
)
list_rows-pushed false bit none pushed xs ys n within last e w s =
    (tt, rw (s refl) (list_rows-push pushed xs ys n within last e))
list_rows-pushed false bit (some bits) pushed xs ys n within last e w s = absurd w

rows-length {ℓ} :
    {T : Type ℓ} (has : Bool) (validity : Option (List Bool)) (pushed : List ℕ) (xs : List T)
    → BitsWell has validity (length pushed)
    → length (list_rows 0 pushed validity xs) ≡ length pushed
rows-length true none pushed xs w = absurd w
rows-length true (some bits) pushed xs w = length-list_rows-bits pushed bits 0 xs w
rows-length false none pushed xs w = length-list_rows pushed 0 xs
rows-length false (some bits) pushed xs w = absurd w

-- What `enter_layer` leaves: the bit pushed, and below what the loop over the rows leaves.
abbrev pub Entered :
    {C B : Type 0}
    → List ℕ
    → Option (List Bool)
    → Bool
    → (List C → B → Type 0)
    → Option (List C)
    → LayerBuf × B
    → Type 0
Entered pushed validity bit I o b =
    (b.0 ≡ record { pushed = pushed; validity = pushed_bits validity bit })
    × I (rows_in o) b.1
    × (is_some o ≡ bit)

pub enter_layer-Refines :
    {R C B : Type 0} (limit : ℕ) (step : R → B → Outcome B) (c : R → Checked C)
    (I : List C → B → Type 0) (has : Bool) (o : Option (List R)) (pushed : List ℕ)
    (validity : Option (List Bool)) (bs : B) (n : ℕ)
    → BitsWell has validity n
    → (has ≡ false → (rows : List R) × (o ≡ some rows))
    → Refines limit (each c (rows_in o)) I (scan_each step (rows_in o) bs)
    → Refines limit
        (each_option (each c) o)
        (Entered pushed validity (is_some o) I)
        (enter_layer has o (scan_each step) (record { pushed = pushed; validity = validity }, bs))
unfolding enter_layer push_validity scan_each
enter_layer-Refines limit step c I true o pushed none bs n w s k = absurd w
enter_layer-Refines limit step c I false o pushed (some bits) bs n w s k = absurd w
enter_layer-Refines limit step c I false none pushed none bs n w s k = absurd (cc (s refl).1)
enter_layer-Refines limit step c I true none pushed (some bits) bs n w s (cs, e, i) =
    (none, refl, (refl, subst (λ l. I l bs) (cc) i, refl))
enter_layer-Refines limit step c I true (some rows) pushed (some bits) bs n w s k =
    Refines-then limit (each c rows) (λ cs. fits (some cs)) I _ (scan_each step rows bs) _ k
      λ cs bs' i. (some cs, refl, (refl, i, refl))
enter_layer-Refines limit step c I false (some rows) pushed none bs n w s k =
    Refines-then limit (each c rows) (λ cs. fits (some cs)) I _ (scan_each step rows bs) _ k
      λ cs bs' i. (some cs, refl, (refl, i, refl))

-- the leaves below a list of rows
abbrev pub sum_each {ℓ} : {X : Type ℓ} → (X → ℕ) → List X → ℕ
sum_each f [] = 0
sum_each f (x ∷ xs) = f x + sum_each f xs

module _ {S N : Type 0} (limit : ℕ) (count : S → ℕ) (W : S → ℕ → Type 0)
    (dec : S → List (Option N)) where
  pub length-decode :
      ((b : S) (r : ℕ) → W b r → length (dec b) ≡ count b)
      → (ls : List VecLayerSpec) (b : Bufs ls S) (r : ℕ) → Well count W ls b r
      → length (decode dec ls b) ≡ entries count ls b
  unfolding Well decode entries Bufs
  length-decode sized [] b r w = sized b r w
  length-decode sized (l ∷ ls) (lb, bs) r w =
      rows-length (has_outer_validity l) lb.validity lb.pushed (decode dec ls bs) w.3

  Added-after :
      (ls : List VecLayerSpec) (n : Cell ls N) (b b1 : Bufs ls S) (r : ℕ)
      (spec : Checked (List (Cell ls N))) (m : Outcome (Bufs ls S)) (s : ℕ)
      → Added count W dec ls b s (n ∷ []) b1
      → Refines limit spec (Added count W dec ls b1 r) m
      → Refines limit (spec >>= λ ns. fits (n ∷ ns)) (Added count W dec ls b r) m
  Added-after ls n b b1 r spec (done b2) s h (ns, e, h2) = rw e (
    n ∷ ns,
    refl,
    (
      h2.0,
      h2.1 ∙ ap (◌++ ns) h.1 ∙ append_assoc (decode dec ls b) (n ∷ []) ns,
      omega (arith, h.2, h2.2),
    ),
  )
  Added-after ls n b b1 r spec (compute_error x) s h (inl e) = inl (rw e)
  Added-after ls n b b1 r spec (compute_error x) s h (inr k) = inr k
  Added-after ls n b b1 r spec ill_typed s h k = absurd k

  -- Rows that each add their cell add their cells in order.
  pub scan_each-Refines {ℓ} :
      {X : Type ℓ} (ls : List VecLayerSpec) (step : X → Bufs ls S → Outcome (Bufs ls S))
      (leaves : X → ℕ) (c : X → Checked (Cell ls N))
      → ((x : X) (b : Bufs ls S) (r : ℕ)
          → Well count W ls b (leaves x + r)
          → Refines limit (c x) (λ new. Added count W dec ls b r (new ∷ [])) (step x b))
      → (xs : List X) (b : Bufs ls S) (r : ℕ) → Well count W ls b (sum_each leaves xs + r)
      → Refines limit (each c xs) (Added count W dec ls b r) (scan_each step xs b)
  unfolding scan_each
  scan_each-Refines ls step leaves c row [] b r w = (
    [],
    refl,
    (subst (Well count W ls b) (omega arith) w, sym (append-nil (decode dec ls b)), omega arith),
  )
  scan_each-Refines ls step leaves c row (x ∷ xs) b r w =
      Refines-then limit (c x) (λ n. each c xs >>= λ ns. fits (n ∷ ns))
        (λ new. Added count W dec ls b (sum_each leaves xs + r) (new ∷ []))
        (Added count W dec ls b r) (step x b) (scan_each step xs)
        (row x b (sum_each leaves xs + r) (subst (Well count W ls b) (omega arith) w))
        λ n b1 h1.
          Added-after ls n b b1 r (each c xs) (scan_each step xs b1) (sum_each leaves xs + r) h1
            (scan_each-Refines ls step leaves c row xs b1 r h1.0)
