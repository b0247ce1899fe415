-- ===== src/Encoder/Decoding.antt =====
-- The rows that the buffers of df-derive-macros/src/codegen/encoder/shape_walk.rs decode to.
use df_derive.Prelude.{
  ℕ, suc, ◌+◌, ◌≤◌, Bool, true, false, ◌≡◌, refl, Option, none, some, List, [], ◌∷◌, ◌++◌, length,
  ltb, arith, All, length-append,
}
use df_derive.Ir.{AccessChain, AccessStep, option_layers, VecLayerSpec, has_outer_validity}
use df_derive.Encoder.Following.{El, collapse}
use df_derive.Encoder.Outcome.{Checked, fits, ◌>>=◌, Refines}
use df_derive.Encoder.Leaf.{Leaf}
use df_derive.Encoder.Scan.{Row, Bufs, entries}
use df_derive.Encoder.Lists.{list_rows, last_offset, Ascending}

-- What a row is in the column: a null, or the list of the cells below.
unfoldable pub Cell : List VecLayerSpec → Type 0 → Type 0
Cell [] N = Option N
Cell (l ∷ ls) N = Option (List (Cell ls N))

-- What `f` makes of each item, in order, up to the first error.
abbrev pub each {ℓ} : {X : Type ℓ} {C : Type 0} → (X → Checked C) → List X → Checked (List C)
each f [] = fits []
each f (x ∷ xs) = f x >>= λ c. each f xs >>= λ cs. fits (c ∷ cs)

abbrev pub each_option {ℓ} :
    {X : Type ℓ} {C : Type 0} → (X → Checked C) → Option X → Checked (Option C)
each_option f none = fits none
each_option f (some x) = f x >>= λ c. fits (some c)

-- The specification: all `Option`s between two lists are one null, and each leaf is stored.
unfoldable pub cell :
    {V N : Type 0} (stored : V → Checked N) (inner : AccessChain) (ls : List VecLayerSpec)
    → Row ls inner V
    → Checked (Cell ls N)
unfolding Cell Row El collapse
cell stored inner [] x = each_option stored (collapse inner x)
cell stored inner (l ∷ ls) x = each_option (each (cell stored inner ls)) (collapse l.access x)

unfoldable pub decode :
    {S N : Type 0} → (S → List (Option N)) → (ls : List VecLayerSpec) → Bufs ls S → List (Cell ls N)
unfolding Cell Bufs list_rows
decode dec [] b = dec b
decode dec (l ∷ ls) (lb, bs) = list_rows 0 lb.pushed lb.validity (decode dec ls bs)

abbrev pub BitsWell : Bool → Option (List Bool) → ℕ → Type 0
BitsWell true (some bits) n = length bits ≡ n
BitsWell true none n = ⊥
BitsWell false (some bits) n = ⊥
BitsWell false none n = Unit

-- Buffers between two rows, when `r` leaves are still to come; W says it of the leaf's storage.
unfoldable pub Well :
    {S : Type 0} → (S → ℕ) → (S → ℕ → Type 0) → (ls : List VecLayerSpec) → Bufs ls S → ℕ → Type 0
unfolding Bufs entries has_outer_validity last_offset Ascending
Well count W [] b r = W b r
Well count W (l ∷ ls) (lb, bs) r =
    Well count W ls bs r
    × All (λ n. n ≤ entries count ls bs) lb.pushed
    × (last_offset 0 lb.pushed ≡ entries count ls bs)
    × BitsWell (has_outer_validity l) lb.validity (length lb.pushed)
    × Ascending 0 lb.pushed

-- A run that adds the cells `new` below, with `r` leaves to come after it.
abbrev pub Added :
    {S N : Type 0}
    → (S → ℕ)
    → (S → ℕ → Type 0)
    → (S → List (Option N))
    → (ls : List VecLayerSpec) → Bufs ls S
    → ℕ
    → List (Cell ls N)
    → Bufs ls S
    → Type 0
Added count W dec ls b r new b' =
    Well count W ls b' r
    × (decode dec ls b' ≡ decode dec ls b ++ new)
    × (entries count ls b' ≡ entries count ls b + length new)

-- What is required of the pieces of a leaf, for a shape with or without an inner option: the storage
-- stays well, and each push adds what the leaf is stored as, or a null, to what the storage decodes to.
pub record IsLeaf {V S N : Type 0} (limit : ℕ) (leaf : Leaf V S) (inner_option : Bool)
    (stored : V → Checked N) (dec : S → List (Option N)) (W : S → ℕ → Type 0) : Type 0 where
  pub start_well : (total : ℕ) → W (leaf.start total) total
  pub start_empty : (total : ℕ) → dec (leaf.start total) ≡ []
  pub start_count : (total : ℕ) → 0 ≡ leaf.count (leaf.start total)
  pub sized : (b : S) (r : ℕ) → W b r → length (dec b) ≡ leaf.count b
  pub pushes :
      (o : Option V) (b : S) (r : ℕ)
      → (inner_option ≡ false → (v : V) × (o ≡ some v))
      → W b (suc r)
      → Refines limit
          (each_option stored o)
          (λ new b'. W b' r × (dec b' ≡ dec b ++ new ∷ []) × (leaf.count b' ≡ leaf.count b + 1))
          (leaf.push inner_option o b)

pub length-snoc {ℓ} : {A : Type ℓ} (xs : List A) (x : A) → length (xs ++ x ∷ []) ≡ suc (length xs)
length-snoc xs x = omega (arith, length-append xs (x ∷ []))

pub collapse-some {ℓ} :
    {A : Type ℓ} (c : AccessChain) (x : El c A)
    → ltb 0 (option_layers c) ≡ false
    → (a : A) × (collapse c x ≡ some a)
unfolding El collapse option_layers
collapse-some [] x h = (x, refl)
collapse-some (AccessStep.option ∷ c) x h = ground (arith, h)
collapse-some (AccessStep.smart_ptr ∷ c) x h = collapse-some c x h
