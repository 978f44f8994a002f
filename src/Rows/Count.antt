-- ===== src/Rows/Count.antt =====
-- What a comparison of execution/row_kernels.rs records.
use proofframe.Prelude.{
  ℕ, ◌+◌, ◌<◌, Bool, true, false, ◌≡◌, refl, Option, none, some, String, List, [], ◌∷◌, arith,
  length,
}
use proofframe.Error.{ok}
use proofframe.Resource.{u64_mod, Heap}
use proofframe.Validation.{ValidationState}
use proofframe.Validation.Findings.{record_all-counted}
use proofframe.Rows.{
  Scalar, ComparePlan, Operands, outcome_findings, scan_predicate, scan_row_compare,
}

-- how many rows fail
abbrev pub failures : List (Option Bool) → ℕ
failures [] = 0
failures (some false ∷ rest) = 1 + failures rest
failures (_ ∷ rest) = failures rest

outcome_findings-failures :
    (name : String) (operands : Operands) (row : ℕ) (os : List (Option Bool))
    → length (outcome_findings name operands row os) ≡ failures os
outcome_findings-failures name operands row [] = refl
outcome_findings-failures name operands row (some false ∷ os) =
    omega (arith, outcome_findings-failures name operands (row + 1) os)
outcome_findings-failures name operands row (some true ∷ os) =
    outcome_findings-failures name operands (row + 1) os
outcome_findings-failures name operands row (none ∷ os) =
    outcome_findings-failures name operands (row + 1) os

-- A comparison whose outcomes over a batch are computed ends without an error, and adds one violation
-- for each row whose outcome is false and none for the others, as long as the count stays below 2 ^ 64.
pub scan_row_compare-counted :
    (string_capacity : String → ℕ) (as_f32 : ℕ → ℕ) (name : String) (plan : ComparePlan)
    (batch : ℕ → List (Option Scalar)) (row : ℕ) (v : ValidationState) (h : Heap)
    (os : List (Option Bool))
    → scan_predicate as_f32 plan batch ≡ ok os
    → v.violation_count + failures os < u64_mod
    → ((scan_row_compare string_capacity as_f32 name plan batch row v h).0 ≡ ok tt)
      × ((scan_row_compare string_capacity as_f32 name plan batch row v h).1.violation_count
          ≡ v.violation_count + failures os)
unfolding scan_row_compare
scan_row_compare-counted string_capacity as_f32 name plan batch row v h os e small =
    let all = outcome_findings-failures name plan.operands row os in
    rw (e, scan_row_compare)
      (
        refl,
        omega (
          arith,
          all,
          record_all-counted string_capacity (outcome_findings name plan.operands row os) v h
              (omega (arith, small, all)),
        ),
      )
