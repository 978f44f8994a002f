-- ===== src/Rows.antt =====
-- The relational row rules, in execution/row_kernels.rs: comparisons of two columns, or of a column and
-- a literal, and what they record.
pub mod Kernels
pub mod Flip
pub mod Count
mod Runs
use Prim.Native.Nat.{Ordering, compare as compare_nat}
use Prim.Native.String.{◌++◌ as ◌then_text◌}
use proofframe.Prelude.{
  ℕ, ◌+◌, ◌-◌, ◌*◌, ◌%◌, ◌^◌, Bool, true, false, not, ◌&&◌, ◌||◌, List, [], ◌∷◌, map, Option, none,
  some, String, ltb, leb, ◌==◌, if◌then◌else◌,
}
use proofframe.Error.{unsupported_type, Result, ok, err, ◌>>=◌}
use proofframe.Resource.{Heap}
use proofframe.Validation.{Finding, ValidationState, record_all}
use proofframe.Execution.{Run}
pub use Kernels.{
  KernelKind, i8, i16, i32, i64, u8, u16, u32, u64, f32, f64, date32, date64, timestamp, utf8,
  large_utf8, utf8_view, binary, large_binary, binary_view, nested, null_only,
}
use Kernels.{option_text}
use proofframe.Rules.Ordering.{ℤ, pos, negsuc, compare_int, compare_bytes}

-- A value of an array, or a literal. An integer of any width is its number, and a float is the bits of
-- the `f64` that it is equal to.
pub data Scalar : Type 0 where
  boolean : Bool → Scalar
  signed : ℤ → Scalar
  unsigned : ℕ → Scalar
  float : ℕ → Scalar
  text : List ℕ → Scalar

pub data CompareOp : Type 0 where
  eq ne lt lte gt gte : CompareOp

pub data NullPolicy : Type 0 where
  skip fail equal : NullPolicy

abbrev pub magnitude : ℕ → ℕ
magnitude bits = bits % 2 ^ 63

abbrev pub is_nan : ℕ → Bool
is_nan bits = ltb (2047 * 2 ^ 52) (magnitude bits)

-- the place of a float that is no NaN in the order of the floats, where both zeros are one
abbrev pub float_place : ℕ → ℤ
float_place bits =
    if ltb bits (2 ^ 63)
    then pos bits
    else if magnitude bits == 0
    then pos 0
    else negsuc (magnitude bits - 1)

abbrev pub compare_bool : Bool → Bool → Ordering
compare_bool false true = Ordering.lt
compare_bool true false = Ordering.gt
compare_bool _ _ = Ordering.eq

-- `partial_cmp`; arrays of one kernel hold one kind of values
unfoldable pub partial_cmp : Scalar → Scalar → Option Ordering
unfolding compare_bytes
partial_cmp (boolean a) (boolean b) = some (compare_bool a b)
partial_cmp (signed a) (signed b) = some (compare_int a b)
partial_cmp (unsigned a) (unsigned b) = some (compare_nat a b)
partial_cmp (float a) (float b) =
    if is_nan a
    then none
    else if is_nan b
    then none
    else some (compare_int (float_place a) (float_place b))
partial_cmp (text a) (text b) = some (compare_bytes a b)
partial_cmp _ _ = none

abbrev pub holds : CompareOp → Option Ordering → Bool
holds eq (some Ordering.eq) = true
holds eq _ = false
holds ne (some Ordering.eq) = false
holds ne _ = true
holds lt (some Ordering.lt) = true
holds lt _ = false
holds lte (some Ordering.lt) = true
holds lte (some Ordering.eq) = true
holds lte _ = false
holds gt (some Ordering.gt) = true
holds gt _ = false
holds gte (some Ordering.gt) = true
holds gte (some Ordering.eq) = true
holds gte _ = false

unfoldable pub compare : Scalar → Scalar → CompareOp → Bool
unfolding partial_cmp
compare left right op = holds op (partial_cmp left right)

abbrev pub equal_nulls : Bool → Bool → CompareOp → Bool
equal_nulls left_null right_null eq = left_null && right_null
equal_nulls left_null right_null ne = if left_null then not right_null else right_null
equal_nulls left_null right_null _ = false

abbrev pub null_outcome : Bool → Bool → NullPolicy → CompareOp → Option Bool
null_outcome left_null right_null skip op = none
null_outcome left_null right_null fail op = some false
null_outcome left_null right_null equal op = some (equal_nulls left_null right_null op)

-- `value as iN` of an `i64`
abbrev pub wrap_signed : ℕ → ℤ → ℤ
wrap_signed half (pos n) =
    let m : ℕ = n % (2 * half) in if ltb m half then pos m else negsuc (2 * half - m - 1)
wrap_signed half (negsuc n) =
    let m : ℕ = n % (2 * half) in if ltb m half then negsuc m else pos (2 * half - m - 1)

-- A column with its kernel and name; literals on both sides are rejected when the contract is compiled.
pub record ColumnOperand : Type 0 where
  pub index : ℕ
  pub kernel : KernelKind
  pub name : String

pub data Operands : Type 0 where
  column_column : ColumnOperand → ColumnOperand → Operands
  column_literal : ColumnOperand → Scalar → Operands
  literal_column : Scalar → ColumnOperand → Operands

pub record ComparePlan : Type 0 where
  pub operands : Operands
  pub op : CompareOp
  pub nulls : NullPolicy

abbrev pub finding_column : Operands → String
finding_column (column_column left _) = left.name
finding_column (column_literal column _) = column.name
finding_column (literal_column _ column) = column.name

abbrev pub left_kernel : Operands → Option KernelKind
left_kernel (column_column left right) = some left.kernel
left_kernel (column_literal column literal) = some column.kernel
left_kernel (literal_column literal column) = none

abbrev pub right_kernel : Operands → Option KernelKind
right_kernel (column_column left right) = some right.kernel
right_kernel (column_literal column literal) = none
right_kernel (literal_column literal column) = some column.kernel

unfoldable pub unsupported : {A : Type 0} → ComparePlan → Result A
unfolding option_text
unsupported plan = err (
    unsupported_type (
      "relational execution for "
      then_text option_text (left_kernel plan.operands)
      then_text " and "
      then_text option_text (right_kernel plan.operands)))

-- the kernels that `scan_column_pair` names
abbrev pub has_pair : KernelKind → Bool
has_pair binary = false
has_pair large_binary = false
has_pair binary_view = false
has_pair nested = false
has_pair null_only = false
has_pair _ = true

unfoldable pub pair_outcome : ComparePlan → Option Scalar → Option Scalar → Option Bool
unfolding compare
pair_outcome plan (some left) (some right) = some (compare left right plan.op)
pair_outcome plan none (some right) = null_outcome true false plan.nulls plan.op
pair_outcome plan (some left) none = null_outcome false true plan.nulls plan.op
pair_outcome plan none none = null_outcome true true plan.nulls plan.op

-- The columns of a batch are equally long.
unfoldable pub pair_outcomes :
    ComparePlan → List (Option Scalar) → List (Option Scalar) → List (Option Bool)
unfolding pair_outcome
pair_outcomes plan (l ∷ ls) (r ∷ rs) = pair_outcome plan l r ∷ pair_outcomes plan ls rs
pair_outcomes plan _ _ = []

unfoldable pub scan_column_pair :
    KernelKind
    → List (Option Scalar)
    → List (Option Scalar)
    → ComparePlan
    → Result (List (Option Bool))
unfolding pair_outcomes unsupported
scan_column_pair kernel left right plan =
    if has_pair kernel then ok (pair_outcomes plan left right) else unsupported plan

unfoldable pub literal_outcome : ComparePlan → Bool → Scalar → Option Scalar → Option Bool
unfolding compare
literal_outcome plan literal_is_left literal none =
    null_outcome (not literal_is_left) literal_is_left plan.nulls plan.op
literal_outcome plan true literal (some value) = some (compare literal value plan.op)
literal_outcome plan false literal (some value) = some (compare value literal plan.op)

-- `as f32` of an `f64`, by bits
module _ (as_f32 : ℕ → ℕ) where
  -- the literal as a value of the kernel's array, where the kernel takes it
  unfoldable pub cast : KernelKind → Scalar → Option Scalar
  cast KernelKind.boolean (boolean b) = some (boolean b)
  cast i8 (signed z) = some (signed (wrap_signed (2 ^ 7) z))
  cast i16 (signed z) = some (signed (wrap_signed (2 ^ 15) z))
  cast i32 (signed z) = some (signed (wrap_signed (2 ^ 31) z))
  cast i64 (signed z) = some (signed z)
  cast date32 (signed z) = some (signed (wrap_signed (2 ^ 31) z))
  cast date64 (signed z) = some (signed z)
  cast u8 (unsigned n) = some (unsigned (n % 2 ^ 8))
  cast u16 (unsigned n) = some (unsigned (n % 2 ^ 16))
  cast u32 (unsigned n) = some (unsigned (n % 2 ^ 32))
  cast u64 (unsigned n) = some (unsigned n)
  cast f32 (float bits) = some (float (as_f32 bits))
  cast f64 (float bits) = some (float bits)
  cast (timestamp unit) (signed z) = some (signed z)
  cast utf8 (text bytes) = some (text bytes)
  cast large_utf8 (text bytes) = some (text bytes)
  cast utf8_view (text bytes) = some (text bytes)
  cast _ _ = none

  unfoldable pub scan_column_literal :
      KernelKind → List (Option Scalar) → Scalar → Bool → ComparePlan → Result (List (Option Bool))
  unfolding cast literal_outcome unsupported
  scan_column_literal kernel values literal literal_is_left plan = elim (cast kernel literal) [
    | none ↦ unsupported plan
    | some value ↦ ok (map (literal_outcome plan literal_is_left value) values)
  ]

  unfoldable pub scan_operands :
      Operands → ComparePlan → (ℕ → List (Option Scalar)) → Result (List (Option Bool))
  unfolding scan_column_pair scan_column_literal
  scan_operands (column_column left right) plan batch =
      scan_column_pair left.kernel (batch left.index) (batch right.index) plan
  scan_operands (column_literal column literal) plan batch =
      scan_column_literal column.kernel (batch column.index) literal false plan
  scan_operands (literal_column literal column) plan batch =
      scan_column_literal column.kernel (batch column.index) literal true plan

  -- The outcomes that `visit` sees, row by row; an error comes before any of them.
  unfoldable pub scan_predicate :
      ComparePlan → (ℕ → List (Option Scalar)) → Result (List (Option Bool))
  unfolding scan_operands
  scan_predicate plan batch = scan_operands plan.operands plan batch

abbrev pub compare_finding : String → Operands → ℕ → Finding
compare_finding name operands row = record {
  rule = "compare";
  column = finding_column operands;
  row = some row;
  message = "Relational rule `" then_text name then_text "` failed";
}

-- what a row records: a finding where its outcome is false
abbrev pub outcome_findings : String → Operands → ℕ → List (Option Bool) → List Finding
outcome_findings name operands row [] = []
outcome_findings name operands row (some false ∷ rest) =
    compare_finding name operands row ∷ outcome_findings name operands (row + 1) rest
outcome_findings name operands row (_ ∷ rest) = outcome_findings name operands (row + 1) rest

-- `scan_row_plan` of a comparison
unfoldable pub scan_row_compare :
    (String → ℕ)
    → (ℕ → ℕ)
    → String
    → ComparePlan
    → (ℕ → List (Option Scalar))
    → ℕ
    → ValidationState
    → Heap
    → Run (Unit {0})
unfolding scan_predicate record_all
scan_row_compare string_capacity as_f32 name plan batch row_offset v h =
    elim (scan_predicate as_f32 plan batch) [
      | err e ↦ (err e, v, h)
      | ok outcomes ↦
          let (v', h') =
            record_all string_capacity (outcome_findings name plan.operands row_offset outcomes) v
              h in
          (ok tt, v', h')
    ]
