-- ===== src/Rules/Ordering.antt =====
-- The rule `monotonicity`: execution/ordering.rs, and its part of `update` in
-- execution/dataset_state.rs.
pub mod Batches
pub mod Sorted
pub mod Clean
use Prim.Native.Nat.{Ordering, lt, eq, gt, compare as compare_nat}
use Prim.Native.String.{◌++◌ as ◌then_text◌}
use proofframe.Prelude.{
  ℕ, ◌+◌, ◌-◌, ◌^◌, Bool, true, false, List, [], ◌∷◌, Option, none, some, String, ltb,
  if◌then◌else◌,
}
use proofframe.Error.{corrupt_data, Result, ok, err, ◌>>=◌}
use proofframe.Resource.{Heap}
use proofframe.Validation.{Finding, ValidationState, record_all}
use proofframe.Execution.{Run, proceed}

-- `i128`, as the library's ℤ over the native numbers
pub data ℤ : Type 0 where
  pos : ℕ → ℤ
  negsuc : ℕ → ℤ

abbrev pub compare_int : ℤ → ℤ → Ordering
compare_int (pos a) (pos b) = compare_nat a b
compare_int (pos a) (negsuc b) = gt
compare_int (negsuc a) (pos b) = lt
compare_int (negsuc a) (negsuc b) = compare_nat b a

-- `total_cmp` orders the bits of an `f64` as signed numbers, with those of negative floats turned over.
abbrev pub float_key : ℕ → ℤ
float_key bits = if ltb bits (2 ^ 63) then pos bits else negsuc (bits - 2 ^ 63)

unfoldable pub compare_bytes : List ℕ → List ℕ → Ordering
compare_bytes [] [] = eq
compare_bytes [] (y ∷ ys) = lt
compare_bytes (x ∷ xs) [] = gt
compare_bytes (x ∷ xs) (y ∷ ys) =
    let rest : Ordering = compare_bytes xs ys in
    elim (compare_nat x y) [ lt ↦ lt | eq ↦ rest | gt ↦ gt ]

-- A float stands for its bits.
pub data Ordered : Type 0 where
  int : ℤ → Ordered
  uint : ℕ → Ordered
  float : ℕ → Ordered
  text : List ℕ → Ordered

unfoldable pub compare : Ordered → Ordered → Option Ordering
unfolding compare_bytes
compare (int a) (int b) = some (compare_int a b)
compare (uint a) (uint b) = some (compare_nat a b)
compare (float a) (float b) = some (compare_int (float_key a) (float_key b))
compare (text a) (text b) = some (compare_bytes a b)
compare _ _ = none

pub data MonotonicDirection : Type 0 where
  increasing strictly_increasing decreasing strictly_decreasing : MonotonicDirection

abbrev pub allows : MonotonicDirection → Ordering → Bool
allows increasing gt = false
allows increasing _ = true
allows strictly_increasing lt = true
allows strictly_increasing _ = false
allows decreasing lt = false
allows decreasing _ = true
allows strictly_decreasing gt = true
allows strictly_decreasing _ = false

abbrev pub follows_by : MonotonicDirection → Option Ordering → Result Bool
follows_by direction (some ordering) = ok (allows direction ordering)
follows_by direction none = err (corrupt_data "Monotonicity compared two different value kinds")

unfoldable pub follows : MonotonicDirection → Ordered → Ordered → Result Bool
unfolding compare
follows direction previous next = follows_by direction (compare previous next)

abbrev pub describe : MonotonicDirection → String
describe increasing = "must not decrease"
describe strictly_increasing = "must increase"
describe decreasing = "must not increase"
describe strictly_decreasing = "must decrease"

pub data NullPolicy : Type 0 where
  skip reject : NullPolicy

pub record MonotonicityPlan : Type 0 where
  pub name : String
  pub column : String
  pub direction : MonotonicDirection
  pub nulls : NullPolicy

abbrev pub ordering_finding : MonotonicityPlan → ℕ → String → Finding
ordering_finding plan row message = record {
  rule = "monotonicity";
  column = plan.column;
  row = some row;
  message = message;
}

abbrev pub null_finding : MonotonicityPlan → ℕ → Finding
null_finding plan row =
    ordering_finding plan row ("Rule `" then_text plan.name then_text "` rejects null values")

abbrev pub order_finding : MonotonicityPlan → ℕ → Finding
order_finding plan row = ordering_finding plan row (
    "Rule `"
    then_text plan.name
    then_text "` "
    then_text describe plan.direction
    then_text " but this row is out of order")

abbrev pub null_findings : NullPolicy → MonotonicityPlan → ℕ → List Finding
null_findings reject plan row = null_finding plan row ∷ []
null_findings skip plan row = []

-- What a row that is not null records, by the value before it.
unfoldable pub value_findings :
    MonotonicityPlan → ℕ → Option Ordered → Ordered → Result (List Finding)
unfolding follows
value_findings plan row none value = ok []
value_findings plan row (some previous) value = follows plan.direction previous value >>= λ good.
    ok (if good then [] else order_finding plan row ∷ [])

-- A cell is a null, or what `ordered_value` reads of it. The result: what the row records, and the
-- previous value for the next row.
unfoldable pub visit_row :
    MonotonicityPlan
    → ℕ
    → Option Ordered
    → Option (Result Ordered)
    → Result (List Finding × Option Ordered)
unfolding value_findings
visit_row plan row previous none = ok (null_findings plan.nulls plan row, previous)
visit_row plan row previous (some cell) =
    cell >>= λ value. value_findings plan row previous value >>= λ fs. ok (fs, some value)

module _ (string_capacity : String → ℕ) where
  -- one column of a batch, its first row at `row`
  unfoldable pub update_ordering :
      MonotonicityPlan
      → ℕ
      → List (Option (Result Ordered))
      → Option Ordered
      → ValidationState
      → Heap
      → Run (Option Ordered)
  unfolding visit_row record_all
  update_ordering plan row [] previous v h = (ok previous, v, h)
  update_ordering plan row (cell ∷ cells) previous v h = elim (visit_row plan row previous cell) [
    | err e ↦ (err e, v, h)
    | ok (fs, previous') ↦
        let (v', h') = record_all string_capacity fs v h in
        update_ordering plan (row + 1) cells previous' v' h'
  ]
