-- ===== src/Encoder/Leaves/Nested.antt =====
-- The nested leaf of df-derive-macros/src/codegen/encoder/emit.rs: references, and positions among them.
use df_derive.Prelude.{
  ◌≤◌, ℕ, zero, suc, ◌+◌, ◌<◌, Bool, true, false, ◌≡◌, refl, sym, ap, ◌∙◌, subst, Option, none,
  some, List, [], ◌∷◌, ◌++◌, length, get_elem?, map, arith, length-append, All,
}
use df_derive.Ir.{VecLayers, to_vec, has_inner_option}
use df_derive.Layers.Validity.{VecAgrees}
use df_derive.Encoder.Outcome.{fits, Refines, Refines-after, idx_size_len, idx_size-Refines}
use df_derive.Encoder.Leaf.{NestedBuf, nested_pieces, push_arm}
use df_derive.Encoder.Scan.{Row, emit_rows}
use df_derive.Encoder.Lists.{map-append, length-map}
use df_derive.Encoder.Decoding.{each_option, IsLeaf, length-snoc}
use df_derive.Encoder.Column.{Encodes, cells, emit_rows-Refines}

-- Polars' `take` of a column by positions, a null where the position is one.
abbrev pub gather {ℓ} : {T : Type ℓ} → List T → Option ℕ → Option T
gather xs none = none
gather xs (some i) = get_elem? xs i

abbrev pub nested_rows : {V : Type 0} → Bool → NestedBuf V → List (Option V)
nested_rows true b = map (gather b.nested_flat) b.positions
nested_rows false b = map some b.nested_flat

abbrev InRange {ℓ} : {T : Type ℓ} → List T → Option ℕ → Type 0
InRange xs none = Unit
InRange xs (some i) = i < length xs

-- the positions that are no null are k, k + 1, … up to n, in order
unfoldable pub Enumerates : ℕ → List (Option ℕ) → ℕ → Type 0
Enumerates k [] n = k ≡ n
Enumerates k (none ∷ ps) n = Enumerates k ps n
Enumerates k (some i ∷ ps) n = (i ≡ k) × Enumerates (suc k) ps n

pub Enumerates-le : (k : ℕ) (ps : List (Option ℕ)) (n : ℕ) → Enumerates k ps n → k ≤ n
unfolding Enumerates
Enumerates-le k [] n h = omega arith
Enumerates-le k (none ∷ ps) n h = Enumerates-le k ps n h
Enumerates-le k (some i ∷ ps) n h = omega (arith, Enumerates-le (suc k) ps n h.1)

Enumerates-some :
    (k : ℕ) (ps : List (Option ℕ)) (n : ℕ)
    → Enumerates k ps n
    → Enumerates k (ps ++ some n ∷ []) (suc n)
unfolding Enumerates
Enumerates-some k [] n h = (sym h, ap suc h)
Enumerates-some k (none ∷ ps) n h = Enumerates-some k ps n h
Enumerates-some k (some i ∷ ps) n h = (h.0, Enumerates-some (suc k) ps n h.1)

Enumerates-none :
    (k : ℕ) (ps : List (Option ℕ)) (n : ℕ) → Enumerates k ps n → Enumerates k (ps ++ none ∷ []) n
unfolding Enumerates
Enumerates-none k [] n h = h
Enumerates-none k (none ∷ ps) n h = Enumerates-none k ps n h
Enumerates-none k (some i ∷ ps) n h = (h.0, Enumerates-none (suc k) ps n h.1)

Enumerates-InRange :
    {T : Type 0} (xs : List T) (k : ℕ) (ps : List (Option ℕ))
    → Enumerates k ps (length xs)
    → All (InRange xs) ps
unfolding Enumerates
Enumerates-InRange xs k [] h = tt
Enumerates-InRange xs k (none ∷ ps) h = (tt, Enumerates-InRange xs k ps h)
Enumerates-InRange xs k (some i ∷ ps) h = (
  omega (arith, h.0, Enumerates-le (suc k) ps (length xs) h.1),
  Enumerates-InRange xs (suc k) ps h.1,
)

abbrev pub NestedWell : {V : Type 0} → Bool → NestedBuf V → ℕ → Type 0
NestedWell true b r = Enumerates 0 b.positions (length b.nested_flat)
NestedWell false b r = Unit

module _ {ℓ} {T : Type ℓ} where
  get_elem?-append :
      (xs ys : List T) (i : ℕ) → i < length xs → get_elem? (xs ++ ys) i ≡ get_elem? xs i
  get_elem?-append [] ys i h = absurd (omega arith)
  get_elem?-append (x ∷ xs) ys zero h = refl
  get_elem?-append (x ∷ xs) ys (suc i) h = get_elem?-append xs ys i (omega arith)

  get_elem?-length : (xs : List T) (x : T) → get_elem? (xs ++ x ∷ []) (length xs) ≡ some x
  get_elem?-length [] x = refl
  get_elem?-length (y ∷ xs) x = get_elem?-length xs x

  gather-grow :
      (xs ys : List T) (ps : List (Option ℕ))
      → All (InRange xs) ps
      → map (gather (xs ++ ys)) ps ≡ map (gather xs) ps
  gather-grow xs ys [] h = refl
  gather-grow xs ys (none ∷ ps) h = ap (none ∷◌) (gather-grow xs ys ps h.1)
  gather-grow xs ys (some i ∷ ps) h =
      rw (get_elem?-append xs ys i h.0, gather-grow xs ys ps h.1) refl

module _ (V : Type 0) (limit : ℕ) where
  abbrev Pushed : Bool → NestedBuf V → ℕ → Option V → NestedBuf V → Type 0
  Pushed io b r new b' =
      NestedWell io b' r
      × (nested_rows io b' ≡ nested_rows io b ++ new ∷ [])
      × ((nested_pieces {V = V} limit io).count b' ≡ (nested_pieces {V = V} limit io).count b + 1)

  nested-Pushed :
      (b : NestedBuf V) (r : ℕ) (v : V)
      → NestedWell true b (suc r)
      → Pushed true b r (some v) (record {
        nested_flat = b.nested_flat ++ v ∷ [];
        positions = b.positions ++ some (length b.nested_flat) ∷ [];
      })
  unfolding nested_pieces
  nested-Pushed b r v w =
      let flat = b.nested_flat ++ v ∷ [] in
      (
        subst (Enumerates 0 (b.positions ++ some (length b.nested_flat) ∷ []))
            (sym (length-snoc b.nested_flat v))
            (Enumerates-some 0 b.positions (length b.nested_flat) w),
        map-append (gather flat) b.positions (some (length b.nested_flat) ∷ [])
            ∙ rw
                (
                  gather-grow b.nested_flat (v ∷ []) b.positions
                      (Enumerates-InRange b.nested_flat 0 b.positions w),
                  get_elem?-length b.nested_flat v,
                )
                refl,
        length-append b.positions (some (length b.nested_flat) ∷ []),
      )

  nested-absent :
      (b : NestedBuf V) (r : ℕ)
      → NestedWell true b (suc r)
      → Pushed true b r none (record b { positions = b.positions ++ none ∷ [] })
  unfolding nested_pieces
  nested-absent b r w = (
    Enumerates-none 0 b.positions (length b.nested_flat) w,
    map-append (gather b.nested_flat) b.positions (none ∷ []),
    length-append b.positions (none ∷ []),
  )

  nested-pushes :
      (io : Bool) (o : Option V) (b : NestedBuf V) (r : ℕ)
      → (io ≡ false → (v : V) × (o ≡ some v))
      → NestedWell io b (suc r)
      → Refines limit (each_option fits o) (Pushed io b r) ((nested_pieces limit io).push io o b)
  unfolding nested_pieces push_arm
  nested-pushes true (some v) b r s w =
      Refines-after limit (fits (some v)) (λ c m. (c ≡ some v) × (m ≡ length b.nested_flat))
        (Pushed true b r) (idx_size_len limit (length b.nested_flat)) _
        (idx_size-Refines limit (length b.nested_flat) (some v))
        λ c m e. (c, refl, rw (e.0, e.1) (nested-Pushed b r v w))
  nested-pushes false (some v) b r s w = (
    some v,
    refl,
    (tt, map-append some b.nested_flat (v ∷ []), length-append b.nested_flat (v ∷ [])),
  )
  nested-pushes true none b r s w = (none, refl, nested-absent b r w)
  nested-pushes false none b r s w = absurd (cc (s refl).1)

  pub nested_pieces-IsLeaf :
      (io : Bool)
      → IsLeaf {V = V} limit (nested_pieces limit io) io fits (nested_rows io) (NestedWell io)
  unfolding nested_pieces Enumerates
  nested_pieces-IsLeaf true = record {
    start_well = λ t. refl;
    start_empty = λ t. refl;
    start_count = λ t. refl;
    sized = λ b r w. length-map (gather b.nested_flat) b.positions;
    pushes = nested-pushes true;
  }
  nested_pieces-IsLeaf false = record {
    start_well = λ t. tt;
    start_empty = λ t. refl;
    start_count = λ t. refl;
    sized = λ b r w. length-map some b.nested_flat;
    pushes = nested-pushes false;
  }

-- On every list of items, the loops that collect the references of a nested struct under one or more
-- `Vec`s compile and return, unless a count is too large. Gathered at the positions, the references
-- decode under the list layers to the items with all `Option`s between two lists collapsed, and where
-- the struct is behind an `Option`, the positions name each reference once and in order. This holds for
-- shapes whose option counts agree with their access chains.
pub emit_rows-Encodes_nested :
    (V : Type 0) (limit : ℕ) (v : VecLayers) (items : List (Row (to_vec v.layers) v.inner_access V))
    → VecAgrees v
    → Refines limit
        (cells fits v items)
        (Encodes
          (nested_pieces limit (has_inner_option v)).count
          (NestedWell (has_inner_option v))
          (nested_rows (has_inner_option v))
          (to_vec v.layers))
        (emit_rows (nested_pieces limit (has_inner_option v)) v items)
emit_rows-Encodes_nested V limit v items agrees =
    emit_rows-Refines limit (nested_pieces limit (has_inner_option v)) fits
      (nested_rows (has_inner_option v)) (NestedWell (has_inner_option v)) v
      (nested_pieces-IsLeaf V limit (has_inner_option v)) items agrees
