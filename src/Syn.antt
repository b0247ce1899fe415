-- ===== src/Syn.antt =====
-- The syntax of a field's type as the macro reads it: the part of the `syn` crate's tree that the
-- sources under df-derive-macros/src match on. It is input data of the model; what the sources do
-- not look at (spans, leading colons, the inside of other kinds of types) is left out.
use df_derive.Prelude.{ℕ, suc, ◌+◌, String, Bool}

mutual
  pub data SynType : Type 0 where
    -- `Type::Path`: whether there is a `qself`, and the segments of the path
    path : Bool → Segments → SynType
    -- `Type::Reference`: whether it is `&mut`, and the element
    reference : Bool → SynType → SynType
    -- `Type::Slice`
    slice : SynType → SynType
    -- `Type::Tuple`
    tuple : SynTypes → SynType
    -- every other kind of type, by its text
    other : String → SynType

  pub data SynTypes : Type 0 where
    no_types : SynTypes
    and_type : SynType → SynTypes → SynTypes

  pub data Segments : Type 0 where
    no_segments : Segments
    segment : String → PathArguments → Segments → Segments

  pub data PathArguments : Type 0 where
    no_arguments : PathArguments
    angle_bracketed : GenericArguments → PathArguments
    parenthesized : PathArguments

  pub data GenericArguments : Type 0 where
    no_generics : GenericArguments
    and_generic : GenericArgument → GenericArguments → GenericArguments

  pub data GenericArgument : Type 0 where
    lifetime : String → GenericArgument
    type_argument : SynType → GenericArgument
    other_argument : String → GenericArgument

-- The number of nodes, the measure of the recursions over types.
unfoldable mutual
  pub size : SynType → ℕ
  size (path q s) = suc (size_segments s)
  size (reference m t) = suc (size t)
  size (slice t) = suc (size t)
  size (tuple ts) = suc (size_types ts)
  size (other s) = 1

  pub size_types : SynTypes → ℕ
  size_types no_types = 0
  size_types (and_type t ts) = size t + size_types ts

  pub size_segments : Segments → ℕ
  size_segments no_segments = 0
  size_segments (segment i a s) = size_arguments a + size_segments s

  pub size_arguments : PathArguments → ℕ
  size_arguments no_arguments = 0
  size_arguments (angle_bracketed g) = size_generics g
  size_arguments parenthesized = 0

  pub size_generics : GenericArguments → ℕ
  size_generics no_generics = 0
  size_generics (and_generic g gs) = size_generic g + size_generics gs

  pub size_generic : GenericArgument → ℕ
  size_generic (lifetime s) = 0
  size_generic (type_argument t) = size t
  size_generic (other_argument s) = 0

-- `Type::Path` with one segment and no arguments, as in `T` or `u8`
pattern abbrev pub named : String → SynType
named i = path Bool.false (segment i no_arguments no_segments)
