-- ===== src/Execution.antt =====
-- The end of a validation, in execution/mod.rs: the unique rules, and the report.
pub mod Unique
mod Runs
use proofframe.Prelude.{
  ℕ, ◌+◌, ◌-◌, List, [], ◌∷◌, Bool, true, false, Option, none, some, String, length, ◌==◌,
}
use proofframe.Error.{Result, ok, err, ◌>>=◌}
use proofframe.Resource.{Heap, ResourceAccount, ResourceLimits, peak_memory_used, peak_temp_used}
use proofframe.Sorting.{Order}
use proofframe.Distinct.{ExactSummary}
use proofframe.Spill.State.{ExactState, fixed_layout}
use proofframe.Spill.Finish.{Loads, finish as finish_fixed}
use proofframe.Spill.Bytes.{ByteState}
use proofframe.Spill.Bytes.Finish.{finish_bytes}
use proofframe.Validation.{
  Finding, ValidationState, ValidationOutcome, record_lazy, check_resources, count_violations,
  saturating_add, finish,
}

-- `ExactMetrics` of this module
pub record SpillMetrics : Type 0 where
  pub spill_bytes : ℕ
  pub exact_runs : ℕ

-- The exact state of a column as the scan left it, of fixed-width values or byte strings, and what the loads
-- of the cancellation flag see while it is finished.
pub data UniqueState : Type 1 where
  fixed_state : {V : Type 0} → Order V → ExactState V → Loads → UniqueState
  byte_state : ByteState → Loads → UniqueState

abbrev pub no_spill : SpillMetrics
no_spill = record { spill_bytes = 0; exact_runs = 0 }

abbrev pub duplicate_finding : String → ℕ × ℕ → Finding
duplicate_finding column (first_row, duplicate_row) = record {
  rule = "unique";
  column = column;
  row = some duplicate_row;
  message = "Duplicate value detected";
}

-- A result with the state and the heap behind it: an error ends the run, its state is dropped.
abbrev pub Run : Type 0 → Type 0
Run A = Result A × ValidationState × Heap

-- the code behind a `?`
unfoldable pub proceed : {A B : Type 0} → Run A → (A → ValidationState → Heap → Run B) → Run B
proceed (ok a, v, h) k = k a v h
proceed (err e, v, h) k = (err e, v, h)

module _ (string_capacity : String → ℕ) where
  -- `record_lazy`, then `check_resources()?`
  unfoldable pub record_checked : Finding → ValidationState → Heap → Run (Unit {0})
  unfolding record_lazy check_resources
  record_checked f v h =
      let (v', h') = record_lazy string_capacity f v h in
      let (r, v'') = check_resources v' in (r, v'', h')

  unfoldable pub record_samples : String → List (ℕ × ℕ) → ValidationState → Heap → Run (Unit {0})
  unfolding record_checked proceed
  record_samples column [] v h = (ok tt, v, h)
  record_samples column (d ∷ ds) v h =
      proceed (record_checked (duplicate_finding column d) v h)
        (λ _ v' h'. record_samples column ds v' h')

  unfoldable pub finish_summary :
      String → ExactSummary → SpillMetrics → ValidationState → Heap → Run SpillMetrics
  unfolding record_samples proceed count_violations
  finish_summary column summary m v h =
      proceed (record_samples column summary.duplicate_samples v h) (λ _ v' h'. (
        ok (record {
          spill_bytes = saturating_add m.spill_bytes summary.metrics.spill_bytes;
          exact_runs = saturating_add m.exact_runs summary.metrics.runs;
        }),
        count_violations (summary.duplicate_count - length summary.duplicate_samples) v',
        h',
      ))

  -- the summary of a state that was finished, with the accounts after it
  unfoldable pub finish_result :
      String → Result ExactSummary × Heap → SpillMetrics → ValidationState → Run SpillMetrics
  unfolding finish_summary
  finish_result column (err e, h) m v = (err e, v, h)
  finish_result column (ok summary, h) m v = finish_summary column summary m v h

-- `state.finish()`
unfoldable pub finish_state : ℕ → UniqueState → Heap → Result ExactSummary × Heap
unfolding finish_fixed finish_bytes
finish_state cursor_bytes (UniqueState.fixed_state o s loads) h =
    finish_fixed o (fixed_layout cursor_bytes) loads s h
finish_state cursor_bytes (UniqueState.byte_state s loads) h = finish_bytes cursor_bytes loads s h

module _ (string_capacity : String → ℕ) (cursor_bytes : ℕ) where
  -- one column of `finish_unique_states`, where it has the rule
  unfoldable pub finish_column :
      String → Option UniqueState → SpillMetrics → ValidationState → Heap → Run SpillMetrics
  unfolding finish_result finish_state
  finish_column column none m v h = (ok m, v, h)
  finish_column column (some u) m v h =
      finish_result string_capacity column (finish_state cursor_bytes u h) m v

  unfoldable pub finish_unique_states :
      List (String × Option UniqueState) → SpillMetrics → ValidationState → Heap → Run SpillMetrics
  unfolding finish_column proceed
  finish_unique_states [] m v h = (ok m, v, h)
  finish_unique_states ((column, state) ∷ rest) m v h =
      proceed (finish_column column state m v h) (λ m' v' h'. finish_unique_states rest m' v' h')

-- What the report takes of the compiled contract, whose digests may fail.
pub record PlanIdentity : Type 0 where
  pub column_indices : List ℕ
  pub compiled_plan_digest : Result String
  pub schema_digest : Result String

pub record ExecutionMetrics : Type 0 where
  pub peak_memory_bytes : ℕ
  pub peak_temp_bytes : ℕ
  pub spill_bytes : ℕ
  pub exact_runs : ℕ
  pub capacity_growth_events : ℕ

-- `R` is the outcome of a reference rule.
pub record FastValidationReport (R : Type 0) : Type 0 where
  pub references : List R
  pub valid : Bool
  pub violation_count : ℕ
  pub truncated : Bool
  pub findings : List Finding
  pub evaluated_columns : List ℕ
  pub evaluated_indices : List ℕ
  pub rows : ℕ
  pub mode : String
  pub metrics : ExecutionMetrics
  pub resources : ResourceLimits
  pub compiled_plan_digest : String
  pub schema_digest : String

unfoldable pub build_report :
    {R : Type 0}
    → PlanIdentity
    → ResourceLimits
    → ResourceAccount
    → ValidationState
    → ℕ
    → SpillMetrics
    → List R
    → Heap
    → Result (FastValidationReport R)
unfolding finish peak_memory_used peak_temp_used
build_report plan resources root validation rows metrics references h =
    let outcome : ValidationOutcome = finish validation in
    plan.compiled_plan_digest >>= λ plan_digest. plan.schema_digest >>= λ schema_digest.
    ok (record {
      references = references;
      valid = outcome.violation_count == 0;
      violation_count = outcome.violation_count;
      truncated = outcome.truncated;
      findings = outcome.findings;
      evaluated_columns = outcome.evaluated;
      evaluated_indices = plan.column_indices;
      rows = rows;
      mode = "rules_only";
      metrics = record {
        peak_memory_bytes = peak_memory_used root h;
        peak_temp_bytes = peak_temp_used root h;
        spill_bytes = metrics.spill_bytes;
        exact_runs = metrics.exact_runs;
        capacity_growth_events = 0;
      };
      resources = resources;
      compiled_plan_digest = plan_digest;
      schema_digest = schema_digest;
    })
