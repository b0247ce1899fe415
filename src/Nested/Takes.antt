-- ===== src/Nested/Takes.antt =====
-- The branches of df-derive-macros/src/codegen/encoder/nested_columns.rs against one way to make a column.
use df_derive.Prelude.{
  ℕ, suc, ◌+◌, ◌≤◌, Bool, true, false, ◌≡◌, refl, sym, ap, ◌∙◌, subst, Option, none, some, String,
  List, [], ◌∷◌, ◌++◌, length, replicate, is_empty, get_elem?, eqb, arith, All, if◌then◌else◌,
  Bool-cases, inl, inr, ◌==◌,
}
use mathlib.Core.Path.{fun_ext}
use df_derive.Ir.{NestedNamePolicy}
use df_derive.Encoder.{Checked, fits, refused, ◌>>=◌}
use df_derive.Encoder.Leaves.Nested.{Enumerates, Enumerates-le}
use df_derive.Schema.{DataType, SchemaFields}
use df_derive.Nested.{
  Series, Frame, validate_nested_frame, find_column, validate_nested_column_dtype, take_rows,
  NestedMaterializeKind, leaf_optional, vec, Columns, consume_nested_columns, nested_df_decl,
  build_inner_col_direct, build_inner_col_take, materialize_nested_columns,
}

get_elem?-prefix :
    {A : Type 0} (pre : List A) (x : A) (xs : List A)
    → get_elem? (pre ++ x ∷ xs) (length pre) ≡ some x
get_elem?-prefix [] x xs = refl
get_elem?-prefix (y ∷ pre) x xs = get_elem?-prefix pre x xs

snoc-append {ℓ} :
    {A : Type ℓ} (pre : List A) (x : A) (xs : List A) → (pre ++ x ∷ []) ++ xs ≡ pre ++ x ∷ xs
snoc-append [] x xs = refl
snoc-append (y ∷ pre) x xs = ap (y ∷◌) (snoc-append pre x xs)

snoc-length {ℓ} : {A : Type ℓ} (pre : List A) (x : A) → length (pre ++ x ∷ []) ≡ suc (length pre)
snoc-length [] x = refl
snoc-length (y ∷ pre) x = ap suc (snoc-length pre x)

Enumerates-length : (k : ℕ) (ps : List (Option ℕ)) (n : ℕ) → Enumerates k ps n → n ≤ k + length ps
unfolding Enumerates
Enumerates-length k [] n h = omega arith
Enumerates-length k (none ∷ ps) n h = omega (arith, Enumerates-length k ps n h)
Enumerates-length k (some i ∷ ps) n h = omega (arith, Enumerates-length (suc k) ps n h.1)

module _ {X : Type 0} (l : List (Option X)) (ps : List (Option ℕ)) (r : List (Option X))
    (h : take_rows l ps ≡ fits r) where
  take_rows-some :
      (i : ℕ) (x : Option X) → get_elem? l i ≡ some x → take_rows l (some i ∷ ps) ≡ fits (x ∷ r)
  unfolding take_rows
  take_rows-some i x e = ground arith

  take_rows-null : take_rows l (none ∷ ps) ≡ fits (none ∷ r)
  unfolding take_rows
  take_rows-null = ground arith

-- positions without a null name every row, in order
take_rows-all :
    {X : Type 0} (pre rows : List (Option X)) (ps : List (Option ℕ))
    → Enumerates (length pre) ps (length pre + length rows)
    → length ps ≡ length rows
    → take_rows (pre ++ rows) ps ≡ fits rows
unfolding Enumerates take_rows
take_rows-all pre [] [] h e = refl
take_rows-all pre (x ∷ rows) [] h e = absurd (omega arith)
take_rows-all pre rows (none ∷ ps) h e =
    absurd (omega (arith, Enumerates-length (length pre) ps (length pre + length rows) h, e))
take_rows-all pre [] (some i ∷ ps) h e = absurd (omega arith)
take_rows-all pre (x ∷ rows) (some i ∷ ps) h e =
    let rest : take_rows (pre ++ x ∷ rows) ps ≡ fits rows =
      subst (λ l. take_rows l ps ≡ fits rows) (snoc-append pre x rows)
        (take_rows-all (pre ++ x ∷ []) rows ps
          (subst (λ k. Enumerates k ps (k + length rows)) (sym (snoc-length pre x))
            (subst (Enumerates (suc (length pre)) ps) (omega arith) h.1))
          (omega (arith, e))) in
    rw h.0
      (take_rows-some (pre ++ x ∷ rows) ps rows rest (length pre) x (get_elem?-prefix pre x rows))

-- where every position is a null, so is every row
take_rows-none :
    {X : Type 0} (k : ℕ) (ps : List (Option ℕ))
    → Enumerates k ps k
    → take_rows {X = X} [] ps ≡ fits (replicate (length ps) none)
unfolding Enumerates take_rows
take_rows-none k [] h = refl
take_rows-none k (none ∷ ps) h =
    take_rows-null [] ps (replicate (length ps) none) (take_rows-none k ps h)
take_rows-none k (some i ∷ ps) h = absurd (omega (arith, Enumerates-le (suc k) ps k h.1))

suc-ne-zero : (n : ℕ) → eqb (suc n) 0 ≡ false
suc-ne-zero n = ground arith

-- the kinds that keep positions
abbrev pub KeepsPositions : NestedMaterializeKind → Type 0
KeepsPositions leaf_optional = Unit
KeepsPositions (vec true) = Unit
KeepsPositions _ = ⊥

-- What a `DataFrame` of Polars is: each column has as many rows as the frame.
abbrev pub Rectangular : {X : Type 0} → Frame X → Type 0
Rectangular df = All (λ (c : String × Series _). length c.1.rows ≡ df.height) df.columns

module _ {V X : Type 0} (inner_schema : Checked SchemaFields)
    (columnar_from_refs : List V → Checked (Frame X)) (same : DataType → DataType → Bool)
    (policy : NestedNamePolicy) (parent_name : String) where
  direct_of_take :
      (positions : List (Option ℕ)) (name : String) (dtype : DataType) (r : Checked (Series X))
      → ((s : Series X) → r ≡ fits s → take_rows s.rows positions ≡ fits s.rows)
      → (r >>= λ s. validate_nested_column_dtype same s name dtype >>= λ _. fits s.rows) ≡ (
          r >>= λ s.
          validate_nested_column_dtype same s name dtype >>= λ _. take_rows s.rows positions)
  direct_of_take positions name dtype (fits s) h =
      ap (λ rows. validate_nested_column_dtype same s name dtype >>= λ _. rows) (sym (h s refl))
  direct_of_take positions name dtype (refused e) h = refl

  find_column-rows :
      (n : ℕ) (cols : List (String × Series X)) (name : String) (s : Series X)
      → All (λ (c : String × Series X). length c.1.rows ≡ n) cols
      → find_column cols name ≡ fits s
      → length s.rows ≡ n
  unfolding find_column
  find_column-rows n [] name s all e = cc
  find_column-rows n ((m, t) ∷ cols) name s all e = elim (Bool-cases (m == name)) [
    | inl found ↦ ground (arith, all.0, found, e)
    | inr other ↦ ground (arith, other, e, find_column-rows n cols name s all.1)
  ]

  -- on a frame that is as long as the positions, which name each of its rows, nothing is taken
  direct-take :
      (df : Frame X) (positions : List (Option ℕ))
      → Rectangular df
      → Enumerates 0 positions df.height
      → length positions ≡ df.height
      → build_inner_col_direct inner_schema columnar_from_refs same policy parent_name df
        ≡ build_inner_col_take inner_schema columnar_from_refs same policy parent_name df positions
  unfolding build_inner_col_direct build_inner_col_take
  direct-take df positions rect e k = fun_ext λ name. fun_ext λ dtype.
      direct_of_take positions name dtype (find_column df.columns name) λ s found.
        let n = find_column-rows df.height df.columns name s rect found in
        take_rows-all [] s.rows positions (subst (Enumerates 0 positions) (omega (arith, n)) e)
          (omega (arith, n, k))

  -- One way for all branches: every column is taken by the positions, of no rows if there are none.
  unfoldable pub taken_columns : List V → List (Option ℕ) → Checked (Columns X)
  unfolding consume_nested_columns nested_df_decl build_inner_col_take take_rows
  taken_columns flat positions =
      let absent =
        consume_nested_columns inner_schema columnar_from_refs same policy parent_name
          (λ name dtype. take_rows [] positions) in
      let taken =
        nested_df_decl inner_schema columnar_from_refs same policy parent_name flat >>= λ df.
        consume_nested_columns inner_schema columnar_from_refs same policy parent_name (
          build_inner_col_take inner_schema columnar_from_refs same policy parent_name df
            positions) in
      if is_empty flat then absent else taken

  direct_frame :
      (flat : List V) (positions : List (Option ℕ)) (r : Checked (Frame X))
      → ((df : Frame X) → r ≡ fits df → Rectangular df)
      → Enumerates 0 positions (length flat)
      → length positions ≡ length flat
      → (r >>= (λ df. validate_nested_frame df (length flat) >>= λ _. fits df) >>= λ df.
          consume_nested_columns inner_schema columnar_from_refs same policy parent_name
            (build_inner_col_direct inner_schema columnar_from_refs same policy parent_name df))
        ≡ (r >>= (λ df. validate_nested_frame df (length flat) >>= λ _. fits df) >>= λ df.
            consume_nested_columns inner_schema columnar_from_refs same policy parent_name (
              build_inner_col_take inner_schema columnar_from_refs same policy parent_name df
                positions))
  unfolding validate_nested_frame
  direct_frame flat positions (refused e) rect en k = refl
  direct_frame flat positions (fits df) rect en k =
      elim (Bool-cases (eqb df.height (length flat))) [
        | inl same_height ↦
            let h : df.height ≡ length flat = ground (arith, same_height) in
            rw same_height (
              ap (consume_nested_columns inner_schema columnar_from_refs same policy parent_name) (
                direct-take df positions (rect df refl) (subst (Enumerates 0 positions) (sym h) en)
                  (k ∙ sym h)))
        | inr other ↦ rw other refl
      ]

  if_taken :
      (flat : List V) (positions : List (Option ℕ)) (taken : Checked (Columns X))
      (direct : Checked (Columns X))
      → (length positions ≡ length flat → direct ≡ taken)
      → (if eqb (length flat) (length positions) then direct else taken) ≡ taken
  if_taken flat positions taken direct h =
      elim (Bool-cases (eqb (length flat) (length positions))) [
        | inl same_length ↦ rw same_length (h (ground (arith, same_length)))
        | inr other ↦ rw other refl
      ]

  absent-taken :
      (positions : List (Option ℕ))
      → Enumerates 0 positions 0
      → consume_nested_columns inner_schema columnar_from_refs same policy parent_name
          (λ name dtype. fits (replicate (length positions) none))
        ≡ taken_columns [] positions
  unfolding taken_columns
  absent-taken positions en =
      ap
        (λ (rows : Checked (List (Option X))).
          consume_nested_columns inner_schema columnar_from_refs same policy parent_name
            (λ name dtype. rows))
        (sym (take_rows-none 0 positions en))

  -- For a nested struct behind an `Option`, every branch of the generated code, the fast ones included
  -- (no row at all, no value at all, a value in every row), makes the columns that taking every column
  -- by the positions makes, or fails with the same error. The positions are those of the values in
  -- order, and Polars' frames have columns of their own height.
  pub materialize_nested_columns-taken :
      (kind : NestedMaterializeKind) (flat : List V) (positions : List (Option ℕ))
      → KeepsPositions kind
      → Enumerates 0 positions (length flat)
      → ((df : Frame X) → columnar_from_refs flat ≡ fits df → Rectangular df)
      → materialize_nested_columns inner_schema columnar_from_refs same policy parent_name kind flat
          positions
          (length positions)
        ≡ taken_columns flat positions
  unfolding materialize_nested_columns taken_columns nested_df_decl
  materialize_nested_columns-taken leaf_optional [] positions k en rect = absent-taken positions en
  materialize_nested_columns-taken leaf_optional (v ∷ flat) positions k en rect =
      if_taken (v ∷ flat) positions _ _
        (direct_frame (v ∷ flat) positions (columnar_from_refs (v ∷ flat)) rect en)
  materialize_nested_columns-taken (vec true) [] [] k en rect = absent-taken [] en
  materialize_nested_columns-taken (vec true) (v ∷ flat) [] k en rect =
      absurd (omega (arith, Enumerates-length 0 [] (suc (length flat)) en))
  materialize_nested_columns-taken (vec true) [] (p ∷ ps) k en rect =
      rw (suc-ne-zero (length ps)) (absent-taken (p ∷ ps) en)
  materialize_nested_columns-taken (vec true) (v ∷ flat) (p ∷ ps) k en rect =
      rw (suc-ne-zero (length ps)) (
        if_taken (v ∷ flat) (p ∷ ps) _ _
          (direct_frame (v ∷ flat) (p ∷ ps) (columnar_from_refs (v ∷ flat)) rect en))
  materialize_nested_columns-taken (vec false) flat positions k en rect = absurd k
  materialize_nested_columns-taken NestedMaterializeKind.leaf_bare flat positions k en rect =
      absurd k
