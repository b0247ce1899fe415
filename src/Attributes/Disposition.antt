-- ===== src/Attributes/Disposition.antt =====
-- At most one conversion attribute on a field, and what a second one is told.
use df_derive.Prelude.{
  false, ◌≡◌, ◌≢◌, refl, sym, ap, subst, Option, none, some, String, List, [], ◌∷◌, ◌++◌,
  append-nil, append_assoc, arith, ◌==◌, ◌⊎◌, inl, inr, Bool-cases, if◌then◌else◌,
}
use df_derive.Errors.{
  ok, Returns, Returns-bind, Returns-self, Returns-any, Returns-eq, Returns-weaken,
  FieldOverrideKey,
}
use df_derive.Attrs.{
  Meta, Attribute, for_each, FieldAttr, FieldConversion, FieldDisposition, include,
  into_disposition, key, same_key, incompatible, conflict_message, set_override, parse_meta,
  no_trailing_value, disposition_of, field_meta, field_attribute, parse_field_disposition,
}

-- The items of all `#[df_derive(…)]` attributes, in order.
unfoldable pub items_of : List Attribute → List Meta
items_of [] = []
items_of (a ∷ attrs) =
    let rest = items_of attrs in if a.name == "df_derive" then a.metas ++ rest else rest

-- the slot after the items `seen`
SlotOf : List Meta → Option FieldAttr → Type 0
SlotOf seen none = seen ≡ []
SlotOf seen (some attr) = (m : Meta) × (seen ≡ m ∷ []) × (parse_meta m ≡ ok attr)

second-refused :
    (name : String) (existing incoming : FieldAttr)
    → Returns (λ _. ⊥) (set_override name (some existing) incoming)
unfolding set_override
second-refused name existing incoming = elim (Bool-cases (same_key (key existing) (key incoming))) [
  | inl e ↦ rw e tt
  | inr e ↦ rw e tt
]

meta-SlotOf :
    (name : String) (seen : List Meta) (slot : Option FieldAttr) (m : Meta)
    → SlotOf seen slot
    → Returns (SlotOf (seen ++ m ∷ [])) (field_meta name slot m)
unfolding field_meta SlotOf set_override
meta-SlotOf name seen none m h =
    Returns-bind (λ a. parse_meta m ≡ ok a) (SlotOf (seen ++ m ∷ [])) (parse_meta m) _
      (Returns-self (parse_meta m))
      λ a e.
        Returns-bind (λ _. Unit) (SlotOf (seen ++ m ∷ [])) (no_trailing_value a m.value) _
          (Returns-any _) λ _ _. (m, ap (◌++ m ∷ []) h, e)
meta-SlotOf name seen (some existing) m h =
    Returns-bind (λ _. Unit) (SlotOf (seen ++ m ∷ [])) (parse_meta m) _ (Returns-any _)
      λ a _.
        Returns-bind (λ _. ⊥) (SlotOf (seen ++ m ∷ [])) (set_override name (some existing) a) _
          (second-refused name existing a) λ _ absurdity. absurd absurdity

metas-SlotOf :
    (name : String) (ms seen : List Meta) (slot : Option FieldAttr)
    → SlotOf seen slot
    → Returns (SlotOf (seen ++ ms)) (for_each (field_meta name) slot ms)
unfolding for_each
metas-SlotOf name [] seen slot h = subst (λ l. SlotOf l slot) (sym (append-nil seen)) h
metas-SlotOf name (m ∷ ms) seen slot h =
    Returns-bind (SlotOf (seen ++ m ∷ [])) (SlotOf (seen ++ m ∷ ms)) (field_meta name slot m) _
      (meta-SlotOf name seen slot m h)
      λ slot' h'.
        Returns-weaken (SlotOf ((seen ++ m ∷ []) ++ ms)) (SlotOf (seen ++ m ∷ ms))
          (for_each (field_meta name) slot' ms)
          (λ o. subst (λ l. SlotOf l o) (append_assoc seen (m ∷ []) ms))
          (metas-SlotOf name ms (seen ++ m ∷ []) slot' h')

attributes-SlotOf :
    (name : String) (attrs : List Attribute) (seen : List Meta) (slot : Option FieldAttr)
    → SlotOf seen slot
    → Returns (SlotOf (seen ++ items_of attrs)) (for_each (field_attribute name) slot attrs)
unfolding for_each items_of field_attribute
attributes-SlotOf name [] seen slot h = subst (λ l. SlotOf l slot) (sym (append-nil seen)) h
attributes-SlotOf name (a ∷ attrs) seen slot h = elim (Bool-cases (a.name == "df_derive")) [
  | inl e ↦ rw e (
      Returns-bind (SlotOf (seen ++ a.metas)) (SlotOf (seen ++ (a.metas ++ items_of attrs)))
        (for_each (field_meta name) slot a.metas) _ (metas-SlotOf name a.metas seen slot h)
        λ slot' h'.
          Returns-weaken (SlotOf ((seen ++ a.metas) ++ items_of attrs))
            (SlotOf (seen ++ (a.metas ++ items_of attrs)))
            (for_each (field_attribute name) slot' attrs)
            (λ o. subst (λ l. SlotOf l o) (append_assoc seen a.metas (items_of attrs)))
            (attributes-SlotOf name attrs (seen ++ a.metas) slot' h'))
  | inr e ↦ rw e (attributes-SlotOf name attrs seen slot h)
]

-- What the items of a field determine: no item the default conversion, one item its own.
unfoldable pub Disposed : List Meta → FieldDisposition → Type 0
Disposed items d =
    ((items ≡ []) × (d ≡ include FieldConversion.default))
    ⊎ ((m : Meta) × (items ≡ m ∷ [])
        × ((a : FieldAttr) × (parse_meta m ≡ ok a) × (d ≡ into_disposition a)))

slot-Disposed :
    (items : List Meta) (slot : Option FieldAttr)
    → SlotOf items slot
    → Disposed items (disposition_of slot)
unfolding Disposed SlotOf
slot-Disposed items none h = inl (h, refl)
slot-Disposed items (some a) h = inr (h.0, h.1, (a, h.2, refl))

-- A field whose attributes are accepted has no item in its `df_derive` attributes and the default
-- conversion, or exactly one item, over all its attributes, and the disposition of that item.
pub parse_field_disposition-Disposed :
    (attrs : List Attribute) (name : String) (d : FieldDisposition)
    → parse_field_disposition attrs name ≡ ok d
    → Disposed (items_of attrs) d
unfolding parse_field_disposition SlotOf
parse_field_disposition-Disposed attrs name d e =
    Returns-eq (Disposed (items_of attrs)) (parse_field_disposition attrs name)
      (Returns-bind (SlotOf (items_of attrs)) (Disposed (items_of attrs))
        (for_each (field_attribute name) none attrs) _ (attributes-SlotOf name attrs [] none refl)
        λ slot h. slot-Disposed (items_of attrs) slot h)
      e

-- Two different keys on one field are told apart: the message of their conflict is one of the
-- specific ones, never the general one.
pub conflict_message-ne-incompatible :
    (a b : FieldOverrideKey) → same_key a b ≡ false → conflict_message a b ≢ incompatible
unfolding conflict_message
conflict_message-ne-incompatible FieldOverrideKey.skip FieldOverrideKey.skip h e = cc
conflict_message-ne-incompatible FieldOverrideKey.skip _ h e = cc
conflict_message-ne-incompatible FieldOverrideKey.as_binary FieldOverrideKey.as_binary h e = cc
conflict_message-ne-incompatible FieldOverrideKey.as_binary _ h e = cc
conflict_message-ne-incompatible FieldOverrideKey.as_str FieldOverrideKey.as_str h e = cc
conflict_message-ne-incompatible FieldOverrideKey.as_str _ h e = cc
conflict_message-ne-incompatible FieldOverrideKey.as_string FieldOverrideKey.as_string h e = cc
conflict_message-ne-incompatible FieldOverrideKey.as_string _ h e = cc
conflict_message-ne-incompatible FieldOverrideKey.decimal FieldOverrideKey.decimal h e = cc
conflict_message-ne-incompatible FieldOverrideKey.decimal _ h e = cc
conflict_message-ne-incompatible FieldOverrideKey.time_unit FieldOverrideKey.time_unit h e = cc
conflict_message-ne-incompatible FieldOverrideKey.time_unit _ h e = cc
conflict_message-ne-incompatible FieldOverrideKey.flatten FieldOverrideKey.flatten h e = cc
conflict_message-ne-incompatible FieldOverrideKey.flatten _ h e = cc

-- The message of a conflict does not depend on which attribute came first.
pub conflict_message_comm : (a b : FieldOverrideKey) → conflict_message a b ≡ conflict_message b a
unfolding conflict_message
conflict_message_comm a b = ground arith
