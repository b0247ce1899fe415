-- ===== src/TypeAnalysis/Wrappers.antt =====
-- df-derive-macros/src/type_analysis/wrappers.rs: the transparent layers around a base type.
use df_derive.Prelude.{
  ℕ, zero, suc, Bool, true, false, ◌||◌, Option, none, some, String, List, [], ◌∷◌, ◌++◌, or_else,
  is_some, is_empty, if◌then◌else◌,
}
use df_derive.Syn.{
  SynType, path, reference, slice, Segments, PathArguments, angle_bracketed, GenericArguments,
  no_generics, and_generic, lifetime, type_argument,
}
use df_derive.Errors.{Result, ok, err, out_of_fuel, mutable_reference, ◌>>=◌}
use df_derive.TypeAnalysis.PathMatch.{exact_with_leaf_args, wrapper_path_matches, leaf}
use df_derive.TypeAnalysis.KnownTypes.{is_bare_str_type, is_u8_type}

pub data RawWrapper : Type 0 where
  option vec smart_ptr : RawWrapper

pub record PeeledType : Type 0 where
  pub wrappers : List RawWrapper
  pub current_type : SynType
  pub outer_smart_ptr_depth : ℕ

-- The unsized bases that are kept behind a reference or a `Cow`.
pub data UnsizedBase : Type 0 where
  str bytes other_slice : UnsizedBase

unfoldable pub single_type_arg : GenericArguments → Option SynType
single_type_arg (and_generic (type_argument ty) no_generics) = some ty
single_type_arg _ = none

abbrev pub args_of_leaf : Option (String × PathArguments) → Option GenericArguments
args_of_leaf (some (_, angle_bracketed args)) = some args
args_of_leaf _ = none

abbrev pub and_then {ℓ κ} : {A : Type ℓ} {B : Type κ} → Option A → (A → Option B) → Option B
and_then none f = none
and_then (some a) f = f a

unfoldable pub extract_inner_type : SynType → String → List String → Option SynType
unfolding wrapper_path_matches leaf single_type_arg
extract_inner_type (path q s) wrapper qualified =
    if wrapper_path_matches q s wrapper qualified
    then and_then (args_of_leaf (leaf s)) single_type_arg
    else none
extract_inner_type _ wrapper qualified = none

unfoldable pub peel_option : SynType → Option SynType
unfolding extract_inner_type
peel_option ty =
    or_else (extract_inner_type ty "Option" ("std" ∷ "option" ∷ "Option" ∷ []))
      (extract_inner_type ty "Option" ("core" ∷ "option" ∷ "Option" ∷ []))

unfoldable pub peel_vec : SynType → Option SynType
unfolding extract_inner_type
peel_vec ty =
    or_else (extract_inner_type ty "Vec" ("std" ∷ "vec" ∷ "Vec" ∷ []))
      (extract_inner_type ty "Vec" ("alloc" ∷ "vec" ∷ "Vec" ∷ []))

unfoldable pub peel_smart_ptr : SynType → Option SynType
unfolding extract_inner_type
peel_smart_ptr ty = or_else (extract_inner_type ty "Box" ("std" ∷ "boxed" ∷ "Box" ∷ [])) (
    or_else (extract_inner_type ty "Box" ("alloc" ∷ "boxed" ∷ "Box" ∷ [])) (
      or_else (extract_inner_type ty "Rc" ("std" ∷ "rc" ∷ "Rc" ∷ [])) (
        or_else (extract_inner_type ty "Rc" ("alloc" ∷ "rc" ∷ "Rc" ∷ [])) (
          or_else (extract_inner_type ty "Arc" ("std" ∷ "sync" ∷ "Arc" ∷ []))
            (extract_inner_type ty "Arc" ("alloc" ∷ "sync" ∷ "Arc" ∷ []))))))

-- The unsized base of the type behind a reference or a `Cow`, if it is one that is kept.
unfoldable pub unsized_base : SynType → Option UnsizedBase
unfolding is_bare_str_type is_u8_type
unsized_base (slice elem) = if is_u8_type elem then some bytes else some other_slice
unsized_base inner = if is_bare_str_type inner then some str else none

-- `borrowed_reference_base`
abbrev pub borrowed_reference_base : SynType → Option UnsizedBase
borrowed_reference_base elem = unsized_base elem

unfoldable pub peel_reference : SynType → Result (Option SynType)
peel_reference (reference true elem) = err mutable_reference
peel_reference (reference false elem) =
    ok (if is_some (borrowed_reference_base elem) then none else some elem)
peel_reference _ = ok none

unfoldable pub is_cow_path : Bool → Segments → Bool
unfolding exact_with_leaf_args
is_cow_path q s =
    exact_with_leaf_args q s ("Cow" ∷ [])
    || exact_with_leaf_args q s ("std" ∷ "borrow" ∷ "Cow" ∷ [])
    || exact_with_leaf_args q s ("alloc" ∷ "borrow" ∷ "Cow" ∷ [])

-- the loop over the arguments of a `Cow`, with the type found so far
unfoldable pub cow_args : Option SynType → GenericArguments → Option SynType
cow_args found no_generics = found
cow_args found (and_generic (lifetime _) rest) = cow_args found rest
cow_args none (and_generic (type_argument ty) rest) = cow_args (some ty) rest
cow_args (some _) (and_generic (type_argument ty) rest) = none
cow_args found (and_generic _ rest) = none

unfoldable pub cow_inner_type : Bool → Segments → Option SynType
unfolding is_cow_path leaf cow_args
cow_inner_type q s =
    if is_cow_path q s then and_then (args_of_leaf (leaf s)) (cow_args none) else none

pub data CowPeel : Type 0 where
  rebind : SynType → CowPeel
  keep_as_semantic_base : CowPeel

abbrev pub cow_action : SynType → CowPeel
cow_action (slice _) = keep_as_semantic_base
cow_action inner = if is_bare_str_type inner then keep_as_semantic_base else rebind inner

unfoldable pub peel_cow : SynType → Option CowPeel
unfolding cow_inner_type is_bare_str_type
peel_cow (path q s) = and_then (cow_inner_type q s) (λ inner. some (cow_action inner))
peel_cow _ = none

unfoldable pub analyze_cow_base : Bool → Segments → Option UnsizedBase
unfolding cow_inner_type unsized_base
analyze_cow_base q s = and_then (cow_inner_type q s) unsized_base

-- One round of the loop: the layer that was found and what it wraps, or the end.
pub data Peel : Type 0 where
  layer : RawWrapper → SynType → Peel
  done : Peel

abbrev pub reference_round : Option SynType → Peel
reference_round (some inner) = layer smart_ptr inner
reference_round none = done

abbrev pub cow_round : SynType → Option CowPeel → Result Peel
cow_round ty (some (rebind inner)) = ok (layer smart_ptr inner)
cow_round ty (some keep_as_semantic_base) = ok done
cow_round ty none = do inner ← peel_reference ty; ok (reference_round inner)

unfoldable pub peel_round : SynType → Result Peel
unfolding peel_option peel_vec peel_smart_ptr peel_cow peel_reference
peel_round ty = elim (peel_option ty) [
  | some inner ↦ ok (layer option inner)
  | none ↦ elim (peel_vec ty) [
    | some inner ↦ ok (layer vec inner)
    | none ↦ elim (peel_smart_ptr ty) [
      | some inner ↦ ok (layer smart_ptr inner)
      | none ↦ cow_round ty (peel_cow ty)
    ]
  ]
]

-- `record_smart_ptr_layer`, and the pushes of the other layers
unfoldable pub record_layer : RawWrapper → SynType → PeeledType → PeeledType
record_layer smart_ptr inner p =
    if is_empty p.wrappers
    then record p { current_type = inner; outer_smart_ptr_depth = suc p.outer_smart_ptr_depth }
    else record p { current_type = inner; wrappers = p.wrappers ++ smart_ptr ∷ [] }
record_layer w inner p = record p { current_type = inner; wrappers = p.wrappers ++ w ∷ [] }

-- The loop, with fuel: each round goes on with the type inside the layer.
unfoldable pub peel_loop : ℕ → PeeledType → Result PeeledType
unfolding peel_round record_layer
peel_loop zero p = err out_of_fuel
peel_loop (suc f) p = elim (peel_round p.current_type) [
  | err e ↦ err e
  | ok done ↦ ok p
  | ok (layer w inner) ↦ peel_loop f (record_layer w inner p)
]

unfoldable pub peel_type_wrappers : ℕ → SynType → Result PeeledType
unfolding peel_loop
peel_type_wrappers fuel ty =
    peel_loop fuel (record { wrappers = []; current_type = ty; outer_smart_ptr_depth = 0 })
