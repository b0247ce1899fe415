-- ===== src/Encoder/VecBool/BareScan.antt =====
-- `bool_bare_depth1_body` of df-derive-macros/src/codegen/encoder/vec.rs against the scan of one list
-- layer, over a leaf that is stored in a plain `Vec`.
use df_derive.Prelude.{
  Bool, false, ◌≡◌, ◌∙◌, refl, sym, ap, none, List, [], ◌∷◌, ◌++◌, length, ltb, append-nil,
  append_assoc, if◌then◌else◌,
}
use df_derive.Ir.{VecLayerSpec, option_layers}
use df_derive.Encoder.Access.{access_chain_to_ref}
use df_derive.Encoder.Outcome.{
  Outcome, fits, done, compute_error, ill_typed, ◌then◌, list_offset_i64,
}
use df_derive.Encoder.Following.{El, collapse, has_option-option_layers}
use df_derive.Encoder.Decoding.{collapse-some}
use df_derive.Encoder.Leaf.{push_arm}
use df_derive.Encoder.Scan.{Row, Bufs, entries, push_offset, enter_layer, scan_each, scan_row}
use df_derive.Encoder.Scalar.{vec_leaf}
use df_derive.Encoder.VecBool.{BareBools, plain_bools, bare_turn}

-- the same buffers as those of a scan of the layers `ls`, without a bitmap
unfoldable pub bare_layers : (ls : List VecLayerSpec) → BareBools → Bufs ls (List Bool)
unfolding Bufs
bare_layers [] b = b.flat
bare_layers (l ∷ ls) b = (record { pushed = b.inner_offsets; validity = none }, bare_layers ls b)

-- pushed one by one, the values are at the end of the buffer
push_each :
    (rows : List (Row [] [] Bool)) (flat : Bufs [] (List Bool))
    → scan_each (scan_row {V = Bool} (vec_leaf fits) [] []) rows flat
      ≡ done (unfold Row El Bufs in flat ++ rows)
unfolding scan_each scan_row Row El Bufs collapse vec_leaf push_arm access_chain_to_ref
push_each [] flat = ap done (sym (append-nil flat))
push_each (b ∷ rows) flat =
    push_each rows (flat ++ b ∷ []) ∙ ap done (append_assoc flat (b ∷ []) rows)

then_assoc :
    {A B C : Type 0} (m : Outcome A) (f : A → Outcome B) (g : B → Outcome C)
    → (m then f then g) ≡ (m then λ a. f a then g)
then_assoc (done a) f g = refl
then_assoc (compute_error e) f g = refl
then_assoc ill_typed f g = refl

turn_scan :
    (l : VecLayerSpec) (x : Row (l ∷ []) [] Bool) (b : BareBools)
    → ltb 0 (option_layers l.access) ≡ false
    → scan_row {V = Bool} (vec_leaf fits) [] (l ∷ []) x (bare_layers (l ∷ []) b)
      ≡ (bare_turn (plain_bools (l ∷ []) [] x) b then λ b'. done (bare_layers (l ∷ []) b'))
unfolding scan_row bare_layers bare_turn plain_bools enter_layer entries push_offset Row El Bufs
    vec_leaf
turn_scan l x b h =
    let flag = has_option-option_layers l.access ∙ h in
    let rows = collapse-some l.access x h in
    rw (flag, h, rows.1, push_each rows.0 b.flat)
      (sym (then_assoc (list_offset_i64 (length (b.flat ++ rows.0))) _ _))

then_cong :
    {A B : Type 0} (m : Outcome A) (f g : A → Outcome B)
    → ((a : A) → f a ≡ g a)
    → (m then f) ≡ (m then g)
then_cong (done a) f g h = h a
then_cong (compute_error e) f g h = refl
then_cong ill_typed f g h = refl

-- The body runs as the scan does.
pub body_scan :
    (l : VecLayerSpec) (items : List (Row (l ∷ []) [] Bool)) (b : BareBools)
    → ltb 0 (option_layers l.access) ≡ false
    → scan_each (scan_row {V = Bool} (vec_leaf fits) [] (l ∷ [])) items (bare_layers (l ∷ []) b) ≡ (
        scan_each (λ x. bare_turn (plain_bools (l ∷ []) [] x)) items b then λ b'.
        done (bare_layers (l ∷ []) b'))
unfolding scan_each
body_scan l [] b h = refl
body_scan l (x ∷ items) b h =
    let m = bare_turn (plain_bools (l ∷ []) [] x) b in
    let scan = scan_each (scan_row {V = Bool} (vec_leaf fits) [] (l ∷ [])) items in
    ap (λ k. k then scan) (turn_scan l x b h)
    ∙ then_assoc m _ scan
    ∙ then_cong m _ _ (λ b'. body_scan l items b' h)
    ∙ sym (then_assoc m _ _)
