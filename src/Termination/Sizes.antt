-- ===== src/Termination/Sizes.antt =====
-- The size of a type and of what df-derive-macros/src/type_analysis/wrappers.rs peels off it.
use df_derive.Prelude.{
  ℕ, ◌+◌, ◌≤◌, ◌<◌, Bool, true, false, Option, none, some, String, List, arith, or_else, is_some,
  if◌then◌else◌,
}
use df_derive.Syn.{
  SynType, path, reference, slice, Segments, no_segments, segment, PathArguments, no_arguments,
  angle_bracketed, parenthesized, GenericArguments, no_generics, and_generic, lifetime,
  type_argument, other_argument, size, size_segments, size_arguments, size_generics,
}
use df_derive.Errors.{Result, ok, Finishes}
use df_derive.TypeAnalysis.{
  leaf, single_type_arg, args_of_leaf, and_then, extract_inner_type, cow_args, cow_inner_type,
  is_cow_path, wrapper_path_matches, peel_option, peel_vec, peel_smart_ptr, peel_cow, rebind,
  keep_as_semantic_base, peel_reference, peel_round, Peel, layer, done, RawWrapper, cow_round,
  cow_action, reference_round, is_bare_str_type, borrowed_reference_base,
}

-- what is found, if anything, has at most `n` nodes
abbrev Within : ℕ → Option SynType → Type 0
Within n none = Unit
Within n (some t) = size t ≤ n

abbrev LeafWithin : ℕ → Option (String × PathArguments) → Type 0
LeafWithin n none = Unit
LeafWithin n (some (_, args)) = size_arguments args ≤ n

Within-mono : (n m : ℕ) (o : Option SynType) → n ≤ m → Within n o → Within m o
Within-mono n m none h w = tt
Within-mono n m (some t) h w = omega arith

LeafWithin-mono :
    (n m : ℕ) (o : Option (String × PathArguments)) → n ≤ m → LeafWithin n o → LeafWithin m o
LeafWithin-mono n m none h w = tt
LeafWithin-mono n m (some (i, args)) h w = omega arith

Within-or_else : (n : ℕ) (a b : Option SynType) → Within n a → Within n b → Within n (or_else a b)
Within-or_else n none b ha hb = hb
Within-or_else n (some t) b ha hb = ha

leaf-LeafWithin : (s : Segments) → LeafWithin (size_segments s) (leaf s)
unfolding leaf size
leaf-LeafWithin no_segments = tt
leaf-LeafWithin (segment i args no_segments) = omega arith
leaf-LeafWithin (segment i args (segment j args' rest)) =
    LeafWithin-mono _ _ (leaf (segment j args' rest)) (omega arith)
      (leaf-LeafWithin (segment j args' rest))

single_type_arg-Within : (g : GenericArguments) → Within (size_generics g) (single_type_arg g)
unfolding single_type_arg size
single_type_arg-Within (and_generic (type_argument ty) no_generics) = omega arith
single_type_arg-Within _ = tt

cow_args-Within :
    (found : Option SynType) (g : GenericArguments) (n : ℕ)
    → Within n found
    → Within (n + size_generics g) (cow_args found g)
unfolding cow_args size
cow_args-Within found no_generics n h = Within-mono n _ found (omega arith) h
cow_args-Within found (and_generic (lifetime _) rest) n h =
    Within-mono _ _ (cow_args found rest) (omega arith) (cow_args-Within found rest n h)
cow_args-Within none (and_generic (type_argument ty) rest) n h =
    Within-mono _ _ (cow_args (some ty) rest) (omega arith)
      (cow_args-Within (some ty) rest (size ty) (omega arith))
cow_args-Within (some _) (and_generic (type_argument ty) rest) n h = tt
cow_args-Within none (and_generic (other_argument _) rest) n h = tt
cow_args-Within (some _) (and_generic (other_argument _) rest) n h = tt

-- what a function finds in the arguments of the last segment of a path
of_leaf-Within :
    (f : GenericArguments → Option SynType) (n : ℕ) (o : Option (String × PathArguments))
    → ((g : GenericArguments) → Within (size_generics g) (f g))
    → LeafWithin n o
    → Within n (and_then (args_of_leaf o) f)
unfolding size
of_leaf-Within f n none h w = tt
of_leaf-Within f n (some (i, no_arguments)) h w = tt
of_leaf-Within f n (some (i, parenthesized)) h w = tt
of_leaf-Within f n (some (i, angle_bracketed g)) h w = Within-mono _ n (f g) w (h g)

Within-if : (n : ℕ) (b : Bool) (o : Option SynType) → Within n o → Within n (if b then o else none)
Within-if n true o h = h
Within-if n false o h = tt

-- `Shrinks t o`: what `o` found is smaller than `t`
abbrev Shrinks : SynType → Option SynType → Type 0
Shrinks t none = Unit
Shrinks t (some u) = size u < size t

Shrinks-path :
    (q : Bool) (s : Segments) (o : Option SynType)
    → Within (size_segments s) o
    → Shrinks (path q s) o
unfolding size
Shrinks-path q s none h = tt
Shrinks-path q s (some t) h = omega arith

Shrinks-or_else :
    (t : SynType) (a b : Option SynType) → Shrinks t a → Shrinks t b → Shrinks t (or_else a b)
Shrinks-or_else t none b ha hb = hb
Shrinks-or_else t (some _) b ha hb = ha

extract_inner_type-Shrinks :
    (t : SynType) (w : String) (qualified : List String)
    → Shrinks t (extract_inner_type t w qualified)
unfolding extract_inner_type
extract_inner_type-Shrinks (path q s) w qualified = Shrinks-path q s _ (
    Within-if _ (wrapper_path_matches q s w qualified) _
      (of_leaf-Within single_type_arg _ (leaf s) single_type_arg-Within (leaf-LeafWithin s)))
extract_inner_type-Shrinks _ w qualified = tt

cow_inner_type-Shrinks : (q : Bool) (s : Segments) → Shrinks (path q s) (cow_inner_type q s)
unfolding cow_inner_type
cow_inner_type-Shrinks q s = Shrinks-path q s _ (
    Within-if _ (is_cow_path q s) _ (
      of_leaf-Within (cow_args none) _ (leaf s)
        (λ g. Within-mono _ _ (cow_args none g) (omega arith) (cow_args-Within none g 0 tt))
        (leaf-LeafWithin s)))

-- One round ends the loop, fails, or goes on with a smaller type.
abbrev pub PeelShrinks : SynType → Peel → Type 0
PeelShrinks t (layer w inner) = size inner < size t
PeelShrinks t done = Unit

abbrev pub RoundShrinks : SynType → Result Peel → Type 0
RoundShrinks t = Finishes (PeelShrinks t)

bare_check :
    (t inner : SynType) (b : Bool)
    → size inner < size t
    → RoundShrinks t (cow_round t (some (if b then keep_as_semantic_base else rebind inner)))
bare_check t inner true h = tt
bare_check t inner false h = h

cow_found :
    (t inner : SynType)
    → size inner < size t
    → RoundShrinks t (cow_round t (some (cow_action inner)))
cow_found t (slice _) h = tt
cow_found t inner h = bare_check t inner (is_bare_str_type inner) h

reference_check :
    (t inner : SynType) (b : Bool)
    → size inner < size t
    → RoundShrinks t (ok (reference_round (if b then none else some inner)))
reference_check t inner true h = tt
reference_check t inner false h = h

reference_round-RoundShrinks : (t : SynType) → RoundShrinks t (cow_round t none)
unfolding peel_reference size
reference_round-RoundShrinks (reference true elem) = tt
reference_round-RoundShrinks (reference false elem) =
    reference_check (reference false elem) elem (is_some (borrowed_reference_base elem))
      (omega arith)
reference_round-RoundShrinks _ = tt

cow_option-RoundShrinks :
    (t : SynType) (o : Option SynType)
    → Shrinks t o
    → RoundShrinks t (cow_round t (and_then o (λ inner. some (cow_action inner))))
cow_option-RoundShrinks t none h = reference_round-RoundShrinks t
cow_option-RoundShrinks t (some inner) h = cow_found t inner h

cow_round-RoundShrinks : (t : SynType) → RoundShrinks t (cow_round t (peel_cow t))
unfolding peel_cow
cow_round-RoundShrinks (path q s) =
    cow_option-RoundShrinks (path q s) (cow_inner_type q s) (cow_inner_type-Shrinks q s)
cow_round-RoundShrinks t = reference_round-RoundShrinks t

peel_option-Shrinks : (t : SynType) → Shrinks t (peel_option t)
unfolding peel_option
peel_option-Shrinks t =
    Shrinks-or_else t _ _ (extract_inner_type-Shrinks t _ _) (extract_inner_type-Shrinks t _ _)

peel_vec-Shrinks : (t : SynType) → Shrinks t (peel_vec t)
unfolding peel_vec
peel_vec-Shrinks t =
    Shrinks-or_else t _ _ (extract_inner_type-Shrinks t _ _) (extract_inner_type-Shrinks t _ _)

peel_smart_ptr-Shrinks : (t : SynType) → Shrinks t (peel_smart_ptr t)
unfolding peel_smart_ptr
peel_smart_ptr-Shrinks t =
    let e = extract_inner_type-Shrinks t in
    Shrinks-or_else t _ _ (e _ _) (
      Shrinks-or_else t _ _ (e _ _) (
        Shrinks-or_else t _ _ (e _ _)
          (Shrinks-or_else t _ _ (e _ _) (Shrinks-or_else t _ _ (e _ _) (e _ _)))))

-- a layer that was found, or the rest of the round
first_layer :
    (t : SynType) (w : RawWrapper) (o : Option SynType) (rest : Result Peel)
    → Shrinks t o
    → RoundShrinks t rest
    → RoundShrinks t (elim o [ some inner ↦ ok (layer w inner) | none ↦ rest ])
first_layer t w none rest h k = k
first_layer t w (some inner) rest h k = h

pub peel_round-RoundShrinks : (t : SynType) → RoundShrinks t (peel_round t)
unfolding peel_round
peel_round-RoundShrinks t =
    first_layer t RawWrapper.option (peel_option t) _ (peel_option-Shrinks t) (
      first_layer t RawWrapper.vec (peel_vec t) _ (peel_vec-Shrinks t) (
        first_layer t RawWrapper.smart_ptr (peel_smart_ptr t) _ (peel_smart_ptr-Shrinks t)
          (cow_round-RoundShrinks t)))
