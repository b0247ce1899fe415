-- ===== src/Encoder/Column.antt =====
-- A whole emission, from the precount to the last row.
use df_derive.Prelude.{
  ℕ, ◌+◌, Bool, true, false, ◌≡◌, refl, ap, ◌∙◌, subst, Option, none, some, List, [], ◌∷◌, ◌++◌,
  length, arith, if◌then◌else◌,
}
use df_derive.Ir.{
  AccessChain, VecLayerSpec, VecLayers, has_outer_validity, has_inner_option, to_vec,
}
use df_derive.Layers.Validity.{CountAgrees, VecAgrees}
use df_derive.Encoder.Following.{collapse}
use df_derive.Encoder.Outcome.{Checked, Refines, Refines-weaken}
use df_derive.Encoder.Leaf.{Leaf}
use df_derive.Encoder.Scan.{
  Row, Bufs, entries, scan_each, scan_row, precount_each, precount_row, start_bufs, emit_rows,
}
use df_derive.Encoder.Decoding.{Cell, each, cell, decode, BitsWell, Well, Added, IsLeaf}
use df_derive.Encoder.LayerPush.{rows_in, sum_each, scan_each-Refines}
use df_derive.Encoder.Emission.{leaf_count, scan_row-Refines}

precount_each-sum {ℓ} :
    {X : Type ℓ} (step : X → ℕ → ℕ) (f : X → ℕ)
    → ((x : X) (t : ℕ) → step x t ≡ t + f x)
    → (xs : List X) (t : ℕ) → precount_each step xs t ≡ t + sum_each f xs
precount_each-sum step f h [] t = omega arith
precount_each-sum step f h (x ∷ xs) t =
    omega (arith, precount_each-sum step f h xs (step x t), h x t)

sum_each-ones {ℓ} :
    {X : Type ℓ} (f : X → ℕ) → ((x : X) → f x ≡ 1) → (xs : List X) → sum_each f xs ≡ length xs
sum_each-ones f h [] = refl
sum_each-ones f h (x ∷ xs) = omega (arith, h x, sum_each-ones f h xs)

precount_rows :
    {V : Type 0} (f : V → ℕ) (rows : Option (List V)) (t n : ℕ)
    → n ≡ sum_each f (rows_in rows)
    → ((xs : List V) → sum_each f xs ≡ length xs)
    → elim rows [ none ↦ t | some xs ↦ t + length xs ] ≡ t + n
precount_rows f none t n h ones = omega arith
precount_rows f (some xs) t n h ones = omega (arith, ones xs)

precount_deep :
    {V : Type 0} (step : V → ℕ → ℕ) (f : V → ℕ) (rows : Option (List V)) (t : ℕ)
    → ((x : V) (t : ℕ) → step x t ≡ t + f x)
    → elim rows [ none ↦ t | some xs ↦ precount_each step xs t ] ≡ t + sum_each f (rows_in rows)
precount_deep step f none t h = omega arith
precount_deep step f (some xs) t h = precount_each-sum step f h xs t

precount_row-leaf_count :
    (V : Type 0) (inner : AccessChain)
    → (ls : List VecLayerSpec) (x : Row ls inner V) (t : ℕ)
    → precount_row V inner ls x t ≡ t + leaf_count V inner ls x
unfolding precount_row leaf_count Row
precount_row-leaf_count V inner [] x t = refl
precount_row-leaf_count V inner (l ∷ []) x t =
    precount_rows (leaf_count V inner []) (collapse l.access x) t _ refl
      (sum_each-ones (leaf_count V inner []) (λ y. refl))
precount_row-leaf_count V inner (l ∷ k ∷ ls) x t =
    precount_deep (precount_row V inner (k ∷ ls)) (leaf_count V inner (k ∷ ls))
      (collapse l.access x) t (λ y s. precount_row-leaf_count V inner (k ∷ ls) y s)

bits-start : (b : Bool) → BitsWell b (if b then some [] else none) 0
bits-start true = refl
bits-start false = tt

module _ {V S N : Type 0} (limit : ℕ) (leaf : Leaf V S) (io : Bool) (stored : V → Checked N)
    (dec : S → List (Option N)) (W : S → ℕ → Type 0) (laws : IsLeaf limit leaf io stored dec W)
    (inner : AccessChain) where
  start-entries :
      (ls : List VecLayerSpec) (t : ℕ) → 0 ≡ entries leaf.count ls (start_bufs leaf inner ls t)
  unfolding start_bufs entries
  start-entries [] t = laws.start_count t
  start-entries (l ∷ ls) t = refl

  start-Well :
      (ls : List VecLayerSpec) (t : ℕ) → Well leaf.count W ls (start_bufs leaf inner ls t) t
  unfolding Well start_bufs entries
  start-Well [] t = laws.start_well t
  start-Well (l ∷ ls) t =
      (start-Well ls t, tt, start-entries ls t, bits-start (has_outer_validity l), tt)

  start-decode : (ls : List VecLayerSpec) (t : ℕ) → decode dec ls (start_bufs leaf inner ls t) ≡ []
  unfolding decode start_bufs
  start-decode [] t = laws.start_empty t
  start-decode (l ∷ ls) t = refl

-- The buffers of a finished field: they decode to the cells, and each bitmap is as long as its array.
unfoldable pub Encodes :
    {S N : Type 0}
    → (S → ℕ)
    → (S → ℕ → Type 0)
    → (S → List (Option N))
    → (ls : List VecLayerSpec) → List (Cell ls N)
    → Bufs ls S
    → Type 0
unfolding decode Well
Encodes count W dec ls cells b = (decode dec ls b ≡ cells) × Well count W ls b 0

-- The items of a field, each stored.
unfoldable pub cells :
    {V N : Type 0} (stored : V → Checked N) (v : VecLayers)
    → List (Row (to_vec v.layers) v.inner_access V)
    → Checked (List (Cell (to_vec v.layers) N))
unfolding cell
cells stored v items = each (cell stored v.inner_access (to_vec v.layers)) items

pub emit_rows-Refines :
    {V S N : Type 0} (limit : ℕ) (leaf : Leaf V S) (stored : V → Checked N)
    (dec : S → List (Option N)) (W : S → ℕ → Type 0) (v : VecLayers)
    → IsLeaf limit leaf (has_inner_option v) stored dec W
    → (items : List (Row (to_vec v.layers) v.inner_access V)) → VecAgrees v
    → Refines limit
        (cells stored v items)
        (Encodes leaf.count W dec (to_vec v.layers))
        (emit_rows leaf v items)
unfolding emit_rows VecAgrees CountAgrees has_inner_option Encodes cells
emit_rows-Refines {V} limit leaf stored dec W v laws items agrees =
    let ls = to_vec v.layers in
    let inner = v.inner_access in
    let io = has_inner_option v in
    let total = precount_each (precount_row V inner ls) items 0 in
    let count =
      precount_each-sum (precount_row V inner ls) (leaf_count V inner ls)
        (precount_row-leaf_count V inner ls) items 0 in
    let start = start_bufs leaf inner ls total in
    Refines-weaken limit (each (cell stored inner ls) items) (Added leaf.count W dec ls start 0)
      (Encodes leaf.count W dec ls) (scan_each (scan_row leaf inner ls) items start)
      (λ new b h.
        (h.1 ∙ ap (◌++ new) (start-decode limit leaf io stored dec W laws inner ls total), h.0))
      (scan_each-Refines limit leaf.count W dec ls (scan_row leaf inner ls) (leaf_count V inner ls)
        (cell stored inner ls)
        (scan_row-Refines limit leaf io stored dec W laws inner agrees.1 ls agrees.0) items start 0
        (subst (Well leaf.count W ls start) (omega (arith, count))
          (start-Well limit leaf io stored dec W laws inner ls total)))
