-- ===== src/Rows/Runs.antt =====
-- A comparison of two columns with nulls, and what the theorems say there.
use proofframe.Prelude.{
  ℕ, ◌+◌, ◌<◌, Bool, true, false, ◌≡◌, refl, Option, none, some, String, List, [], ◌∷◌, arith, ◌==◌,
  if◌then◌else◌,
}
use proofframe.Error.{unsupported_type, ok, err}
use proofframe.Resource.{u64_mod, Heap, new_counters}
use proofframe.Validation.{new}
use proofframe.Rows.{
  Scalar, unsigned, u32, lt, fail, ComparePlan, column_column, column_literal, binary, unsupported,
  scan_predicate, scan_row_compare,
}
use proofframe.Rows.Flip.{SameOutcomes, turn_plan, scan_predicate-turn}
use proofframe.Rows.Count.{failures, scan_row_compare-counted}

abbrev capacity : String → ℕ
capacity s = 8

abbrev rounded : ℕ → ℕ
rounded bits = bits

abbrev heap : Heap
heap = record { next = 1; at = λ m. new_counters 1000 1000 }

abbrev plan : ComparePlan
plan = record {
  operands =
      column_column (record { index = 0; kernel = u32; name = "start" })
        (record { index = 1; kernel = u32; name = "end" });
  op = lt;
  nulls = fail;
}

abbrev batch : ℕ → List (Option Scalar)
batch i =
    if i == 0
    then some (unsigned 1) ∷ some (unsigned 9) ∷ none ∷ []
    else some (unsigned 2) ∷ some (unsigned 3) ∷ some (unsigned 4) ∷ []

abbrev outcomes : List (Option Bool)
outcomes = some true ∷ some false ∷ some false ∷ []

scanned : scan_predicate rounded plan batch ≡ ok outcomes
unfolding scan_predicate
scanned = refl

few : (new 10).violation_count + failures outcomes < u64_mod
unfolding new
few = omega arith

abbrev against_literal : ComparePlan
against_literal = record plan {
  operands = column_literal (record { index = 0; kernel = binary; name = "start" }) (unsigned 1);
}

refused :
    scan_predicate rounded against_literal batch
    ≡ err (unsupported_type "relational execution for Some(Binary) and None")
unfolding scan_predicate unsupported
refused = refl

scan_predicate-turn_example :
    SameOutcomes plan
      (turn_plan plan)
      (scan_predicate rounded plan batch)
      (scan_predicate rounded (turn_plan plan) batch)
scan_predicate-turn_example = scan_predicate-turn rounded plan batch refl

scan_row_compare-counted_example :
    ((scan_row_compare capacity rounded "before" plan batch 0 (new 10) heap).0 ≡ ok tt)
    × ((scan_row_compare capacity rounded "before" plan batch 0 (new 10) heap).1.violation_count
        ≡ (new 10).violation_count + failures outcomes)
scan_row_compare-counted_example =
    scan_row_compare-counted capacity rounded "before" plan batch 0 (new 10) heap outcomes scanned
      few
