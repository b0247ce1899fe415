-- ===== src/Encoder/Leaves/Booleans.antt =====
-- `bool_bare_leaf_pieces` and `bool_inner_option_leaf_pieces` of
-- df-derive-macros/src/codegen/encoder/vec.rs.
use df_derive.Prelude.{
  ℕ, zero, suc, ◌+◌, Bool, true, false, ◌≡◌, refl, sym, ap, ◌∙◌, subst, Option, none, some, List,
  [], ◌∷◌, ◌++◌, length, map, take, replicate, set, arith, append-nil, if◌then◌else◌,
}
use df_derive.Ir.{VecLayerSpec, VecLayers, to_vec, has_inner_option}
use df_derive.Layers.Validity.{VecAgrees}
use df_derive.Encoder.Outcome.{fits, Refines, Refines-weaken}
use df_derive.Encoder.Leaf.{BoolBuf, bool_pieces, push_arm, start_bits}
use df_derive.Encoder.Scan.{Row, Bufs, emit_rows}
use df_derive.Encoder.Lists.{nullable, map-append, length-map, list_rows, set-append}
use df_derive.Encoder.Decoding.{each_option, decode, Well, IsLeaf}
use df_derive.Encoder.Column.{Encodes, cells, emit_rows-Refines}
use df_derive.Encoder.Leaves.Bits.{
  Filled, Filled-kept, Filled-set, nullable-kept, nullable-cleared, length-nullable-Filled,
}

-- the Arrow array that `leaf_arr_expr` makes of the bitmaps
abbrev pub bool_array : Bool → BoolBuf → List (Option Bool)
bool_array true b = nullable b.values b.leaf_validity
bool_array false b = map some b.values

-- the same of the values set so far
abbrev pub settled : Bool → BoolBuf → List (Option Bool)
settled true b = nullable (take b.leaf_idx b.values) b.leaf_validity
settled false b = map some (take b.leaf_idx b.values)

abbrev pub BoolWell : Bool → BoolBuf → ℕ → Type 0
BoolWell true b r = Filled false b.values b.leaf_idx r × Filled true b.leaf_validity b.leaf_idx r
BoolWell false b r = Filled false b.values b.leaf_idx r

take-prefix : (bits rest : List Bool) (n : ℕ) → length bits ≡ n → take n (bits ++ rest) ≡ bits
take-prefix [] rest zero h = refl
take-prefix [] rest (suc n) h = absurd (omega arith)
take-prefix (b ∷ bits) rest zero h = absurd (omega arith)
take-prefix (b ∷ bits) rest (suc n) h = ap (b ∷◌) (take-prefix bits rest n (omega arith))

take-next :
    (bits rest : List Bool) (b c : Bool) (n : ℕ)
    → length bits ≡ n
    → take (suc n) (bits ++ b ∷ rest) ≡ take n (bits ++ c ∷ rest) ++ b ∷ []
take-next [] rest b c zero h = refl
take-next [] rest b c (suc n) h = absurd (omega arith)
take-next (a ∷ bits) rest b c zero h = absurd (omega arith)
take-next (a ∷ bits) rest b c (suc n) h = ap (a ∷◌) (take-next bits rest b c n (omega arith))

abbrev set_to : Bool → List Bool → ℕ → List Bool
set_to v values n = if v then set values n true else values

take-set_to :
    (v : Bool) (values : List Bool) (n r : ℕ)
    → Filled false values n (suc r)
    → take (suc n) (set_to v values n) ≡ take n values ++ v ∷ []
take-set_to true values n r (bits, h, k) =
    rw (h, set-append bits (replicate r false) false true n k)
      (take-next bits (replicate r false) true false n k)
take-set_to false values n r (bits, h, k) =
    rw h (take-next bits (replicate r false) false false n k)

Filled-set_to :
    (v : Bool) (values : List Bool) (n r : ℕ)
    → Filled false values n (suc r)
    → Filled false (set_to v values n) (suc n) r
Filled-set_to true values n r w = Filled-set false values n r true w
Filled-set_to false values n r w = Filled-kept false values n r w

length-settled :
    (values : List Bool) (n r : ℕ) → Filled false values n r → length (take n values) ≡ n
length-settled values n r (bits, h, k) = rw (h, take-prefix bits (replicate r false) n k) k

take-all : (values : List Bool) (n : ℕ) → Filled false values n 0 → take n values ≡ values
take-all values n (bits, h, k) = rw (h, take-prefix bits [] n k) (sym (append-nil bits))

module _ (limit : ℕ) where
  abbrev Pushed : Bool → BoolBuf → ℕ → Option Bool → BoolBuf → Type 0
  Pushed io b r new b' =
      BoolWell io b' r × (settled io b' ≡ settled io b ++ new ∷ []) × (b'.leaf_idx ≡ b.leaf_idx + 1)

  abbrev AtSettled : BoolBuf → ℕ → Type 0
  AtSettled b r = Filled true b.leaf_validity (length (take b.leaf_idx b.values)) (suc r)

  bool-Pushed :
      (b : BoolBuf) (r : ℕ) (v : Bool)
      → BoolWell true b (suc r)
      → Pushed true b r
          (some v)
          (record b { values = set_to v b.values b.leaf_idx; leaf_idx = suc b.leaf_idx })
  bool-Pushed b r v (w, u) =
      let k = length-settled b.values b.leaf_idx (suc r) w in
      let u' : AtSettled b r = subst (λ n. Filled true b.leaf_validity n (suc r)) (sym k) u in
      (
        (Filled-set_to v b.values b.leaf_idx r w, Filled-kept true b.leaf_validity b.leaf_idx r u),
        rw (take-set_to v b.values b.leaf_idx r w)
            (nullable-kept (take b.leaf_idx b.values) v b.leaf_validity r u'),
        omega arith,
      )

  bool-cleared :
      (b : BoolBuf) (r : ℕ)
      → BoolWell true b (suc r)
      → Pushed true b r none (record b {
        leaf_validity = set b.leaf_validity b.leaf_idx false;
        leaf_idx = suc b.leaf_idx;
      })
  bool-cleared b r (w, u) =
      let k = length-settled b.values b.leaf_idx (suc r) w in
      let u' : AtSettled b r = subst (λ n. Filled true b.leaf_validity n (suc r)) (sym k) u in
      let p = nullable-cleared (take b.leaf_idx b.values) false b.leaf_validity r u' in
      (
        (
          Filled-kept false b.values b.leaf_idx r w,
          Filled-set true b.leaf_validity b.leaf_idx r false u,
        ),
        rw (take-set_to false b.values b.leaf_idx r w) (
            subst
              (λ n.
                nullable (take b.leaf_idx b.values ++ false ∷ []) (set b.leaf_validity n false)
                ≡ nullable (take b.leaf_idx b.values) b.leaf_validity ++ none ∷ [])
              k p),
        omega arith,
      )

  bool-pushes :
      (io : Bool) (o : Option Bool) (b : BoolBuf) (r : ℕ)
      → (io ≡ false → (v : Bool) × (o ≡ some v))
      → BoolWell io b (suc r)
      → Refines limit (each_option fits o) (Pushed io b r) ((bool_pieces io).push io o b)
  unfolding bool_pieces push_arm
  bool-pushes true (some v) b r s w = (some v, refl, bool-Pushed b r v w)
  bool-pushes true none b r s w = (none, refl, bool-cleared b r w)
  bool-pushes false (some v) b r s w = (
    some v,
    refl,
    (
      Filled-set_to v b.values b.leaf_idx r w,
      rw (take-set_to v b.values b.leaf_idx r w)
          (map-append some (take b.leaf_idx b.values) (v ∷ [])),
      omega arith,
    ),
  )
  bool-pushes false none b r s w = absurd (cc (s refl).1)

  pub bool_pieces-IsLeaf :
      (io : Bool) → IsLeaf limit (bool_pieces io) io fits (settled io) (BoolWell io)
  unfolding bool_pieces start_bits nullable
  bool_pieces-IsLeaf true = record {
    start_well = λ t. (([], refl, refl), ([], refl, refl));
    start_empty = λ t. refl;
    start_count = λ t. refl;
    sized = λ b r w.
        let k = length-settled b.values b.leaf_idx r w.0 in
        length-nullable-Filled (take b.leaf_idx b.values) b.leaf_validity r
          (subst (λ n. Filled true b.leaf_validity n r) (sym k) w.1)
        ∙ k;
    pushes = bool-pushes true;
  }
  bool_pieces-IsLeaf false = record {
    start_well = λ t. ([], refl, refl);
    start_empty = λ t. refl;
    start_count = λ t. refl;
    sized = λ b r w.
        length-map some (take b.leaf_idx b.values) ∙ length-settled b.values b.leaf_idx r w;
    pushes = bool-pushes false;
  }

pub settled-all : (io : Bool) (b : BoolBuf) → BoolWell io b 0 → settled io b ≡ bool_array io b
settled-all true b w = ap (λ xs. nullable xs b.leaf_validity) (take-all b.values b.leaf_idx w.0)
settled-all false b w = ap (map some) (take-all b.values b.leaf_idx w)

-- two readings of a leaf that agree on finished storage agree on the columns
decode_ext :
    {S N : Type 0} (count : S → ℕ) (W : S → ℕ → Type 0) (dec dec' : S → List (Option N))
    → ((b : S) → W b 0 → dec b ≡ dec' b)
    → (ls : List VecLayerSpec) (b : Bufs ls S) → Well count W ls b 0
    → decode dec ls b ≡ decode dec' ls b
unfolding decode Well Bufs
decode_ext count W dec dec' h [] b w = h b w
decode_ext count W dec dec' h (l ∷ ls) (lb, bs) w =
    ap (list_rows 0 lb.pushed lb.validity) (decode_ext count W dec dec' h ls bs w.0)

-- On every list of items, the scan with the pieces of a Boolean leaf, in any shape of one or more `Vec`s
-- whose option counts agree with its access chains, compiles and returns, unless a count is too large,
-- and its bits, which are `false` before the loops, decode under the list layers to the items with all
-- `Option`s between two lists collapsed.
pub emit_rows-Encodes_bool :
    (limit : ℕ) (v : VecLayers) (items : List (Row (to_vec v.layers) v.inner_access Bool))
    → VecAgrees v
    → Refines limit
        (cells fits v items)
        (Encodes
          (bool_pieces (has_inner_option v)).count
          (BoolWell (has_inner_option v))
          (bool_array (has_inner_option v))
          (to_vec v.layers))
        (emit_rows (bool_pieces (has_inner_option v)) v items)
unfolding Encodes
emit_rows-Encodes_bool limit v items agrees =
    let io = has_inner_option v in
    let leaf = bool_pieces io in
    Refines-weaken limit (cells fits v items)
      (Encodes leaf.count (BoolWell io) (settled io) (to_vec v.layers))
      (Encodes leaf.count (BoolWell io) (bool_array io) (to_vec v.layers)) (emit_rows leaf v items)
      (λ new b h. (
        sym (
              decode_ext leaf.count (BoolWell io) (settled io) (bool_array io) (settled-all io)
                (to_vec v.layers) b h.1)
            ∙ h.0,
        h.1,
      ))
      (emit_rows-Refines limit leaf fits (settled io) (BoolWell io) v (bool_pieces-IsLeaf limit io)
        items agrees)
