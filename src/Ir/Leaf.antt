-- ===== src/Ir/Leaf.antt =====
-- df-derive-macros/src/ir/leaf.rs, tuple.rs and visit.rs
use df_derive.Prelude.{ℕ, Bool, true, false, Option, none, some, String, List, [], ◌∷◌, ◌++◌}
use df_derive.Syn.{SynType}
use df_derive.Ir.Wrappers.{WrapperShape}

pub data DateTimeUnit : Type 0 where
  milliseconds microseconds nanoseconds : DateTimeUnit

pub data DurationSource : Type 0 where
  std chrono : DurationSource

pub data NumericKind : Type 0 where
  i8 i16 i32 i64 i128 u8 u16 u32 u64 u128 f32 f64 isize usize : NumericKind
  non_zero_i8 non_zero_i16 non_zero_i32 non_zero_i64 non_zero_i128 non_zero_isize : NumericKind
  non_zero_u8 non_zero_u16 non_zero_u32 non_zero_u64 non_zero_u128 non_zero_usize : NumericKind

pub data StorageNumericKind : Type 0 where
  i8 i16 i32 i64 i128 u8 u16 u32 u64 u128 f32 f64 isize usize : StorageNumericKind

unfoldable pub storage_kind : NumericKind → StorageNumericKind
storage_kind i8 = i8
storage_kind non_zero_i8 = i8
storage_kind i16 = i16
storage_kind non_zero_i16 = i16
storage_kind i32 = i32
storage_kind non_zero_i32 = i32
storage_kind i64 = i64
storage_kind non_zero_i64 = i64
storage_kind i128 = i128
storage_kind non_zero_i128 = i128
storage_kind u8 = u8
storage_kind non_zero_u8 = u8
storage_kind u16 = u16
storage_kind non_zero_u16 = u16
storage_kind u32 = u32
storage_kind non_zero_u32 = u32
storage_kind u64 = u64
storage_kind non_zero_u64 = u64
storage_kind u128 = u128
storage_kind non_zero_u128 = u128
storage_kind f32 = f32
storage_kind f64 = f64
storage_kind isize = isize
storage_kind non_zero_isize = isize
storage_kind usize = usize
storage_kind non_zero_usize = usize

abbrev pub is_widened_storage : StorageNumericKind → Bool
is_widened_storage StorageNumericKind.isize = true
is_widened_storage StorageNumericKind.usize = true
is_widened_storage _ = false

unfoldable pub is_widened : NumericKind → Bool
unfolding storage_kind
is_widened kind = is_widened_storage (storage_kind kind)

unfoldable pub is_nonzero : NumericKind → Bool
is_nonzero non_zero_i8 = true
is_nonzero non_zero_i16 = true
is_nonzero non_zero_i32 = true
is_nonzero non_zero_i64 = true
is_nonzero non_zero_i128 = true
is_nonzero non_zero_isize = true
is_nonzero non_zero_u8 = true
is_nonzero non_zero_u16 = true
is_nonzero non_zero_u32 = true
is_nonzero non_zero_u64 = true
is_nonzero non_zero_u128 = true
is_nonzero non_zero_usize = true
is_nonzero _ = false

pub data StringyBase : Type 0 where
  string borrowed_str cow_str : StringyBase
  struct : SynType → StringyBase
  generic : String → StringyBase

pub data DisplayBase : Type 0 where
  inherent : DisplayBase
  struct : SynType → DisplayBase
  generic : String → DisplayBase

pub data DecimalBackend : Type 0 where
  runtime_known : DecimalBackend
  generic : String → DecimalBackend
  struct : SynType → DecimalBackend

-- A tuple leaf holds its elements, each with the shape and the pointers around it.
mutual
  pub data LeafSpec : Type 0 where
    numeric : NumericKind → LeafSpec
    string bool : LeafSpec
    date_time naive_date_time : DateTimeUnit → LeafSpec
    naive_date naive_time : LeafSpec
    duration : DateTimeUnit → DurationSource → LeafSpec
    decimal : ℕ → ℕ → DecimalBackend → LeafSpec
    as_string : DisplayBase → LeafSpec
    as_str : StringyBase → LeafSpec
    binary : LeafSpec
    struct : SynType → LeafSpec
    generic : String → LeafSpec
    tuple : TupleElements → LeafSpec

  -- `Vec<TupleElement>`: leaf, wrapper shape and outer smart-pointer depth of each element
  pub data TupleElements : Type 0 where
    no_elements : TupleElements
    element : LeafSpec → WrapperShape → ℕ → TupleElements → TupleElements

pub data PrimitiveLeaf : Type 0 where
  numeric : NumericKind → PrimitiveLeaf
  string bool binary : PrimitiveLeaf
  date_time naive_date_time : DateTimeUnit → PrimitiveLeaf
  naive_date naive_time : PrimitiveLeaf
  duration : DateTimeUnit → DurationSource → PrimitiveLeaf
  decimal : ℕ → ℕ → PrimitiveLeaf
  as_string : PrimitiveLeaf
  as_str : StringyBase → PrimitiveLeaf

unfoldable pub is_copy : PrimitiveLeaf → Bool
is_copy (numeric _) = true
is_copy bool = true
is_copy naive_date = true
is_copy naive_time = true
is_copy (naive_date_time _) = true
is_copy (duration _ _) = true
is_copy _ = false

pub data NestedLeaf : Type 0 where
  struct : SynType → NestedLeaf
  generic : String → NestedLeaf

pub data TerminalLeafRoute : Type 0 where
  primitive : PrimitiveLeaf → TerminalLeafRoute
  nested : NestedLeaf → TerminalLeafRoute

unfoldable pub terminal_route : LeafSpec → Option TerminalLeafRoute
terminal_route (numeric kind) = some (primitive (numeric kind))
terminal_route string = some (primitive string)
terminal_route bool = some (primitive bool)
terminal_route (date_time unit) = some (primitive (date_time unit))
terminal_route (naive_date_time unit) = some (primitive (naive_date_time unit))
terminal_route naive_date = some (primitive naive_date)
terminal_route naive_time = some (primitive naive_time)
terminal_route (duration unit source) = some (primitive (duration unit source))
terminal_route (decimal precision scale backend) = some (primitive (decimal precision scale))
terminal_route (as_string base) = some (primitive as_string)
terminal_route (as_str stringy) = some (primitive (as_str stringy))
terminal_route binary = some (primitive binary)
terminal_route (struct ty) = some (nested (struct ty))
terminal_route (generic ident) = some (nested (generic ident))
terminal_route (tuple _) = none

-- `TerminalLeafSpec`: a leaf that has a route, the invariant that `TerminalLeafSpec::new` checks.
pub record TerminalLeafSpec : Type 0 where
  pub spec : LeafSpec
  pub route : TerminalLeafRoute

-- `TerminalLeafSpec::new`; the route that `route` computes again is kept beside the leaf
unfoldable pub new_terminal : LeafSpec → Option TerminalLeafSpec
unfolding terminal_route
new_terminal leaf = elim (terminal_route leaf) [
  | none ↦ none
  | some r ↦ some (record { spec = leaf; route = r })
]

-- `walk_terminal_leaves`, as the list of the leaves that `f` is called on
unfoldable mutual
  pub terminal_leaves : LeafSpec → List LeafSpec
  terminal_leaves (tuple elements) = terminal_leaves_of elements
  terminal_leaves other = other ∷ []

  pub terminal_leaves_of : TupleElements → List LeafSpec
  terminal_leaves_of no_elements = []
  terminal_leaves_of (element l w d rest) = terminal_leaves l ++ terminal_leaves_of rest
