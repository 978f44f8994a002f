-- ===== src/Rules/Runs.antt =====
-- Runs of the dataset rules, and what the theorems say there.
use proofframe.Prelude.{
  ℕ, if◌then◌else◌, ◌==◌, ◌+◌, ◌<◌, ◌≡◌, ◌↔◌, refl, Bool, true, false, List, [], ◌∷◌, ◌++◌, Option,
  none, some, String, arith, length, All,
}
use proofframe.Error.{ok}
use proofframe.Resource.{u64_mod, Heap, new_counters}
use proofframe.Validation.{new}
use proofframe.Execution.{proceed}
use proofframe.Rules.Exclusive.{
  bit, RecordBatch, at_most_one, MutuallyExclusivePlan, violations, filled_columns, breaks,
}
use proofframe.Rules.Exclusive.Counts.{HasRows, violations-filled_columns}
use proofframe.Rules.Ordering.{Ordered, uint, increasing, skip, MonotonicityPlan, update_ordering}
use proofframe.Rules.Ordering.Sorted.{InOrder, present, readable}
use proofframe.Rules.Ordering.Batches.{update_ordering-append}
use proofframe.Rules.Ordering.Clean.{update_ordering-InOrder}

abbrev capacity : String → ℕ
capacity s = 8

abbrev heap : Heap
heap = record { next = 1; at = λ m. new_counters 1000 1000 }

abbrev rule : MonotonicityPlan
rule = record { name = "in_order"; column = "id"; direction = increasing; nulls = skip }

abbrev cells : List (Option Ordered)
cells = some (uint 1) ∷ none ∷ some (uint 3) ∷ some (uint 2) ∷ []

update_ordering-append_example :
    update_ordering capacity rule 0 (readable cells ++ readable cells) none (new 10) heap
    ≡ proceed (update_ordering capacity rule 0 (readable cells) none (new 10) heap) (λ previous v h.
      update_ordering capacity rule (0 + length (readable cells)) (readable cells) previous v h)
update_ordering-append_example =
    update_ordering-append capacity rule 0 (readable cells) (readable cells) none (new 10) heap

ended : (update_ordering capacity rule 0 (readable cells) none (new 10) heap).0 ≡ ok (some (uint 2))
unfolding update_ordering new
ended = refl

few : (new 10).violation_count + length cells < u64_mod
unfolding new
few = omega arith

update_ordering-InOrder_example :
    ((update_ordering capacity rule 0 (readable cells) none (new 10) heap).1.violation_count
      ≡ (new 10).violation_count)
    ↔ InOrder increasing (present cells)
update_ordering-InOrder_example =
    update_ordering-InOrder capacity rule 0 cells (some (uint 2)) (new 10) heap refl few ended

abbrev nulls : ℕ → Option (List Bool)
nulls i = if i == 0 then some (true ∷ false ∷ []) else none

abbrev batch : RecordBatch
batch = record { num_rows = 2; nulls = nulls }

abbrev plan : MutuallyExclusivePlan
plan = record { columns = 0 ∷ 1 ∷ []; names = "email" ∷ "phone" ∷ []; mode = at_most_one }

batch-HasRows : All (HasRows batch) (plan.columns)
batch-HasRows = (λ bits e. ground (arith, e), (λ bits e. ground (arith, e), tt))

violations-filled_columns_example :
    bit (violations plan batch) 0 ≡ breaks at_most_one (length (filled_columns plan batch 0))
violations-filled_columns_example =
    violations-filled_columns plan batch 0 (omega arith) batch-HasRows refl
