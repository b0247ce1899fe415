-- ===== src/Encoder/Emission.antt =====
-- One row of the loops of df-derive-macros/src/codegen/encoder/shape_walk.rs, through all its layers.
use df_derive.Prelude.{
  ℕ, ◌+◌, ◌≤◌, Bool, true, false, ◌≡◌, refl, sym, ap, ◌∙◌, subst, Option, none, some, is_some, List,
  [], ◌∷◌, ◌++◌, length, ltb, arith, All, All-append, length-append,
}
use df_derive.Ir.{AccessChain, option_layers, VecLayerSpec, has_outer_validity}
use df_derive.Layers.Validity.{LayerAgrees, CountAgrees}
use df_derive.Encoder.Access.{base, access_chain_to_ref}
use df_derive.Encoder.Following.{El, collapse, has_option-option_layers}
use df_derive.Encoder.Outcome.{
  Checked, fits, Refines, Refines-after, list_offset_i64, list_offset-Refines,
}
use df_derive.Encoder.Leaf.{Leaf}
use df_derive.Encoder.Scan.{Row, Bufs, entries, push_offset, scan_row}
use df_derive.Encoder.Lists.{row_of, list_rows, last_offset-snoc, Ascending-snoc}
use df_derive.Encoder.Decoding.{
  Cell, each, each_option, cell, decode, Well, Added, IsLeaf, collapse-some,
}
use df_derive.Encoder.LayerPush.{
  Entered, pushed_bits, rows_in, list_rows-pushed, length-decode, enter_layer-Refines, sum_each,
  scan_each-Refines,
}

-- The leaves below a row.
unfoldable pub leaf_count :
    (V : Type 0) (inner : AccessChain) (ls : List VecLayerSpec) → Row ls inner V → ℕ
unfolding Row El collapse
leaf_count V inner [] x = 1
leaf_count V inner (l ∷ ls) x = sum_each (leaf_count V inner ls) (rows_in (collapse l.access x))

has_option-outer :
    (l : VecLayerSpec)
    → LayerAgrees l
    → (access_chain_to_ref base l.access).has_option ≡ has_outer_validity l
unfolding LayerAgrees CountAgrees has_outer_validity
has_option-outer l h = has_option-option_layers l.access ∙ sym h

All-weaken : (xs : List ℕ) (m n : ℕ) → m ≤ n → All (λ k. k ≤ m) xs → All (λ k. k ≤ n) xs
All-weaken [] m n h a = tt
All-weaken (x ∷ xs) m n h a = (omega (arith, a.0), All-weaken xs m n h a.1)

row_of-is_some {ℓ} : {T : Type ℓ} (o : Option (List T)) → row_of (is_some o) (rows_in o) ≡ o
row_of-is_some none = refl
row_of-is_some (some xs) = refl

layer_bufs :
    (S : Type 0) (l : VecLayerSpec) (ls : List VecLayerSpec)
    → List ℕ
    → Option (List Bool)
    → Bufs ls S
    → Bufs (l ∷ ls) S
unfolding Bufs
layer_bufs S l ls pushed validity bs = (record { pushed = pushed; validity = validity }, bs)

module _ {V S N : Type 0} (limit : ℕ) (leaf : Leaf V S) (io : Bool) (stored : V → Checked N)
    (dec : S → List (Option N)) (W : S → ℕ → Type 0)
    (laws : IsLeaf limit leaf io stored dec W) where
  -- A layer whose loop has run, once its offset is pushed.
  push_offset-Added :
      (l : VecLayerSpec) (ls : List VecLayerSpec) (pushed : List ℕ) (validity : Option (List Bool))
      (bs bs' : Bufs ls S) (s r : ℕ) (o : Option (List (Cell ls N))) (bit : Bool)
      → Well leaf.count W (l ∷ ls) (layer_bufs S l ls pushed validity bs) s
      → (has_outer_validity l ≡ false → bit ≡ true)
      → is_some o ≡ bit
      → Added leaf.count W dec ls bs r (rows_in o) bs'
      → Added leaf.count W dec
          (l ∷ ls)
          (layer_bufs S l ls pushed validity bs)
          r
          (unfold Cell in o ∷ [])
          (layer_bufs S l ls
            (pushed ++ entries leaf.count ls bs' ∷ [])
            (pushed_bits validity bit)
            bs')
  unfolding Well decode entries Bufs layer_bufs Cell
  push_offset-Added l ls pushed validity bs bs' s r o bit w sure same h =
      let k : length (decode dec ls bs) ≡ entries leaf.count ls bs =
        length-decode limit leaf.count W dec laws.sized ls bs s w.0 in
      let within : All (λ n. n ≤ length (decode dec ls bs)) pushed =
        subst (λ m. All (λ n. n ≤ m) pushed) (sym k) w.1 in
      let p =
        list_rows-pushed (has_outer_validity l) bit validity pushed (decode dec ls bs) (rows_in o)
          (entries leaf.count ls bs') within (w.2 ∙ sym k)
          (h.2 ∙ ap (◌+ length (rows_in o)) (sym k)) w.3 sure in
      (
        (
          h.0,
          All-append (λ n. n ≤ entries leaf.count ls bs') pushed (entries leaf.count ls bs' ∷ [])
              (All-weaken pushed (entries leaf.count ls bs) (entries leaf.count ls bs')
                (omega (arith, h.2)) w.1)
              (omega arith, tt),
          last_offset-snoc pushed 0 (entries leaf.count ls bs'),
          p.0,
          Ascending-snoc pushed 0 (entries leaf.count ls bs') w.4 (omega (arith, h.2, w.2)),
        ),
        rw h.1 (
            p.1
            ∙ ap (λ b. list_rows 0 pushed validity (decode dec ls bs) ++ row_of b (rows_in o) ∷ [])
                (sym same)
            ∙ ap (λ c. list_rows 0 pushed validity (decode dec ls bs) ++ c ∷ [])
                (row_of-is_some o)),
        length-append pushed (entries leaf.count ls bs' ∷ []),
      )

  pub scan_row-Refines :
      (inner : AccessChain)
      → io ≡ ltb 0 (option_layers inner)
      → (ls : List VecLayerSpec) → All LayerAgrees ls
      → (x : Row ls inner V) (b : Bufs ls S) (r : ℕ)
      → Well leaf.count W ls b (leaf_count V inner ls x + r)
      → Refines limit
          (cell stored inner ls x)
          (λ new. Added leaf.count W dec ls b r (new ∷ []))
          (scan_row leaf inner ls x b)
  unfolding layer_bufs push_offset LayerAgrees CountAgrees has_outer_validity scan_row leaf_count
      Well decode entries cell Row Bufs Cell
  scan_row-Refines inner agrees [] a x b r w =
      subst
        (λ h.
          Refines limit (each_option stored (collapse inner x))
            (λ new. Added leaf.count W dec [] b r (new ∷ [])) (leaf.push h (collapse inner x) b))
        (agrees ∙ sym (has_option-option_layers inner))
        (laws.pushes (collapse inner x) b r (λ e. collapse-some inner x (sym agrees ∙ e))
          (subst (W b) (omega arith) w))
  scan_row-Refines inner agrees (l ∷ ls) a x (lb, bs) r w =
      let o = collapse l.access x in
      let sure = λ (e : has_outer_validity l ≡ false). collapse-some l.access x (sym a.0 ∙ e) in
      let below =
        scan_each-Refines limit leaf.count W dec ls (scan_row leaf inner ls) (leaf_count V inner ls)
          (cell stored inner ls) (λ x b r w. scan_row-Refines inner agrees ls a.1 x b r w)
          (rows_in o) bs r w.0 in
      rw (has_option-outer l a.0) (
        Refines-after limit (each_option (each (cell stored inner ls)) o)
          (Entered lb.pushed lb.validity (is_some o) (Added leaf.count W dec ls bs r))
          (λ new. Added leaf.count W dec (l ∷ ls) (lb, bs) r (new ∷ [])) _ _
          (enter_layer-Refines limit (scan_row leaf inner ls) (cell stored inner ls)
            (Added leaf.count W dec ls bs r) (has_outer_validity l) o lb.pushed lb.validity bs
            (length lb.pushed) w.3 sure below)
          λ new b1 h1.
            Refines-after limit (fits new) (λ c m. (c ≡ new) × (m ≡ entries leaf.count ls b1.1))
              (λ new. Added leaf.count W dec (l ∷ ls) (lb, bs) r (new ∷ []))
              (list_offset_i64 (entries leaf.count ls b1.1)) _
              (list_offset-Refines limit (entries leaf.count ls b1.1) new)
              λ c m e. (
                c,
                refl,
                rw (e.0, e.1, h1.0)
                    (push_offset-Added l ls lb.pushed lb.validity bs b1.1
                      (leaf_count V inner (l ∷ ls) x + r) r new (is_some o) w
                      (λ f. ap is_some (sure f).1) h1.2 h1.1),
              ))
