-- ===== src/Encoder/Scalar/Rows.antt =====
-- The row-wise encoders of df-derive-macros/src/codegen/encoder/leaf.rs against the items.
use df_derive.Prelude.{
  ℕ, suc, ◌+◌, Bool, true, false, ◌≡◌, refl, sym, ap, ◌∙◌, subst, Option, none, some, List, [], ◌∷◌,
  ◌++◌, length, map, ltb, arith, length-append,
}
use df_derive.Ir.{LeafShape, option_layers}
use df_derive.Encoder.Outcome.{
  done, ◌then◌, Checked, fits, run, run-Refines, Refines, Refines-then, Refines-weaken,
}
use df_derive.Encoder.Leaf.{Leaf, NumericBuf, push_arm}
use df_derive.Encoder.Following.{El, collapse}
use df_derive.Encoder.Scan.{Row, Bufs, scan_each, scan_row}
use df_derive.Encoder.Lists.{nullable, map-append, length-map}
use df_derive.Encoder.Decoding.{
  Cell, each, each_option, cell, decode, Well, Added, IsLeaf, length-snoc,
}
use df_derive.Encoder.LayerPush.{sum_each, scan_each-Refines}
use df_derive.Encoder.Emission.{leaf_count, scan_row-Refines}
use df_derive.Encoder.Leaves.Booleans.{bool_array}
use df_derive.Encoder.Scalar.{
  LeafArmKind, bare, option, is_option, vec_leaf, NumericStore, numeric_leaf, MappedStore,
  mapped_leaf, BoolStore, arm_kind, arm_access, emit_scalar,
}

nullable-snoc :
    {N : Type 0} (xs : List N) (bits : List Bool) (x : N) (b : Bool)
    → length bits ≡ length xs
    → nullable (xs ++ x ∷ []) (bits ++ b ∷ []) ≡ nullable xs bits ++ nullable (x ∷ []) (b ∷ [])
unfolding nullable
nullable-snoc [] [] x b h = refl
nullable-snoc [] (c ∷ bits) x b h = absurd (omega arith)
nullable-snoc (y ∷ xs) [] x b h = absurd (omega arith)
nullable-snoc (y ∷ xs) (true ∷ bits) x b h =
    ap (some y ∷◌) (nullable-snoc xs bits x b (omega arith))
nullable-snoc (y ∷ xs) (false ∷ bits) x b h = ap (none ∷◌) (nullable-snoc xs bits x b (omega arith))

length-nullable_same :
    {N : Type 0} (xs : List N) (bits : List Bool)
    → length bits ≡ length xs
    → length (nullable xs bits) ≡ length xs
unfolding nullable
length-nullable_same [] bits h = refl
length-nullable_same (x ∷ xs) [] h = absurd (omega arith)
length-nullable_same (x ∷ xs) (true ∷ bits) h = ap suc (length-nullable_same xs bits (omega arith))
length-nullable_same (x ∷ xs) (false ∷ bits) h = ap suc (length-nullable_same xs bits (omega arith))

abbrev pub Always : {S : Type 0} → S → ℕ → Type 0
Always b r = Unit

abbrev pub SameLength : {N : Type 0} → NumericBuf N → ℕ → Type 0
SameLength b r = length b.leaf_validity ≡ length b.flat

module _ {V N : Type 0} (limit : ℕ) (stored : V → Checked N) where
  -- a push of the stored leaf, from what it adds to the storage
  stored-pushes :
      {S : Type 0} (v : V) (P : Option N → S → Type 0) (f : N → S)
      → ((n : N) → P (some n) (f n))
      → Refines limit (each_option stored (some v)) P (run (stored v) then λ n. done (f n))
  stored-pushes v P f h =
      Refines-then limit (stored v) (λ n. fits (some n)) (λ n m. n ≡ m) P (run (stored v)) _
        (run-Refines limit (stored v)) λ n m e. (some n, refl, rw (sym e) (h n))

  pub vec_leaf-IsLeaf : IsLeaf limit (vec_leaf stored) false stored (map some) Always
  unfolding vec_leaf push_arm
  vec_leaf-IsLeaf = record {
    start_well = λ t. tt;
    start_empty = λ t. refl;
    start_count = λ t. refl;
    sized = λ b r w. length-map some b;
    pushes = λ o b r s w.
        subst
          (λ o.
            Refines limit (each_option stored o)
              (λ new b'. Unit × (map some b' ≡ map some b ++ new ∷ []) × (length b' ≡ length b + 1))
              ((vec_leaf stored).push false o b))
          (sym (s refl).1)
          (stored-pushes (s refl).0 _ (λ n. b ++ n ∷ [])
            λ n. (tt, map-append some b (n ∷ []), length-append b (n ∷ [])));
  }

  numeric_option-pushes :
      (default : N) (o : Option V) (b : NumericBuf N) (r : ℕ)
      → SameLength b (suc r)
      → Refines limit
          (each_option stored o)
          (λ new b'.
            SameLength b' r
            × (nullable b'.flat b'.leaf_validity ≡ nullable b.flat b.leaf_validity ++ new ∷ [])
            × (length b'.flat ≡ length b.flat + 1))
          ((numeric_leaf stored default option).push true o b)
  unfolding numeric_leaf push_arm nullable
  numeric_option-pushes default (some v) b r w = stored-pushes v _ _ λ n. (
    omega (arith, w, length-snoc b.flat n, length-snoc b.leaf_validity true),
    nullable-snoc b.flat b.leaf_validity n true w,
    length-append b.flat (n ∷ []),
  )
  numeric_option-pushes default none b r w = (
    none,
    refl,
    (
      omega (arith, w, length-snoc b.flat default, length-snoc b.leaf_validity false),
      nullable-snoc b.flat b.leaf_validity default false w,
      length-append b.flat (default ∷ []),
    ),
  )

  pub numeric_option-IsLeaf :
      (default : N)
      → IsLeaf {S = NumericBuf N} limit
          (numeric_leaf stored default option)
          true
          stored
          (λ b. nullable b.flat b.leaf_validity)
          SameLength
  unfolding numeric_leaf nullable
  numeric_option-IsLeaf default = record {
    start_well = λ t. refl;
    start_empty = λ t. refl;
    start_count = λ t. refl;
    sized = λ b r w. length-nullable_same b.flat b.leaf_validity w;
    pushes = λ o b r s w. numeric_option-pushes default o b r w;
  }

  mapped_option-pushes :
      (o : Option V) (b : List (Option N)) (r : ℕ)
      → Refines limit
          (each_option stored o)
          (λ new b'. Always b' r × (b' ≡ b ++ new ∷ []) × (length b' ≡ length b + 1))
          ((mapped_leaf stored option).push true o b)
  unfolding mapped_leaf push_arm
  mapped_option-pushes (some v) b r =
      stored-pushes v _ _ λ n. (tt, refl, length-append b (some n ∷ []))
  mapped_option-pushes none b r = (none, refl, (tt, refl, length-append b (none ∷ [])))

  pub mapped_option-IsLeaf :
      IsLeaf {S = List (Option N)} limit (mapped_leaf stored option) true stored (λ b. b) Always
  unfolding mapped_leaf
  mapped_option-IsLeaf = record {
    start_well = λ t. tt;
    start_empty = λ t. refl;
    start_count = λ t. refl;
    sized = λ b r w. refl;
    pushes = λ o b r s w. mapped_option-pushes o b r;
  }

-- What the finished buffers of each arm hold.
abbrev pub numeric_rows : {N : Type 0} (kind : LeafArmKind) → NumericStore N kind → List (Option N)
numeric_rows bare b = map some b
numeric_rows option b = nullable b.flat b.leaf_validity

abbrev pub mapped_rows : {N : Type 0} (kind : LeafArmKind) → MappedStore N kind → List (Option N)
mapped_rows bare b = map some b
mapped_rows option b = b

abbrev pub bool_rows : (kind : LeafArmKind) → BoolStore kind → List (Option Bool)
bool_rows bare b = map some b
bool_rows option b = bool_array true b

-- the shape of a field under no `Vec`: an `Option` shape has an `Option` on its chain
abbrev pub HasOption : LeafShape → Type 0
HasOption LeafShape.bare = Unit
HasOption (LeafShape.optional n access) = ltb 0 (option_layers access) ≡ true

-- The items of a field, each behind its access chain and stored.
unfoldable pub rows_of :
    {V N : Type 0} (stored : V → Checked N) (shape : LeafShape)
    → List (El (arm_access shape) V)
    → Checked (List (Option N))
rows_of stored shape items = each (λ x. each_option stored (collapse (arm_access shape) x)) items

flag :
    (shape : LeafShape)
    → HasOption shape
    → is_option (arm_kind shape) ≡ ltb 0 (option_layers (arm_access shape))
unfolding is_option arm_kind arm_access option_layers
flag LeafShape.bare h = refl
flag (LeafShape.optional n access) h = sym h

sum-ones : {X : Type 0} (xs : List X) → sum_each (λ x. 1) xs ≡ length xs
sum-ones [] = refl
sum-ones (x ∷ xs) = omega (arith, sum-ones xs)

pub emit_scalar-Refines :
    {V S N : Type 0} (limit : ℕ) (leaf : Leaf V S) (stored : V → Checked N)
    (dec : S → List (Option N)) (W : S → ℕ → Type 0) (shape : LeafShape)
    → HasOption shape
    → IsLeaf limit leaf (is_option (arm_kind shape)) stored dec W
    → (items : List (El (arm_access shape) V))
    → Refines limit
        (rows_of stored shape items)
        (λ rows b. (dec b ≡ rows) × W b 0)
        (emit_scalar leaf shape items)
unfolding emit_scalar rows_of scan_row Row leaf_count Well decode cell Cell Bufs
emit_scalar-Refines {V} limit leaf stored dec W shape h laws items =
    let inner = arm_access shape in
    let start = leaf.start (length items) in
    Refines-weaken limit (each (cell stored inner []) items) (Added leaf.count W dec [] start 0)
      (λ rows b. (dec b ≡ rows) × W b 0) (scan_each (scan_row leaf inner []) items start)
      (λ new b a. (a.1 ∙ ap (◌++ new) (laws.start_empty (length items)), a.0))
      (scan_each-Refines limit leaf.count W dec [] (scan_row leaf inner []) (leaf_count V inner [])
        (cell stored inner [])
        (scan_row-Refines limit leaf (is_option (arm_kind shape)) stored dec W laws inner
          (flag shape h) [] tt)
        items start 0
        (subst (W start) (omega (arith, sum-ones items)) (laws.start_well (length items))))
