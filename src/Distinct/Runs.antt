-- ===== src/Distinct/Runs.antt =====
-- Runs of the exact counts over two sorted runs of three records, and what the theorems say there.
use proofframe.Prelude.{ℕ, min, ◌≡◌, refl, Bool, false, List, [], ◌∷◌, some, length}
use proofframe.Error.{ok}
use proofframe.Resource.{Heap, ResourceAccount, default_limits, new_counters, current, last_or}
use proofframe.Sorting.{sort, insert}
use proofframe.Sorting.Pairs.{nat_order}
use proofframe.Distinct.{Rec, rec_order, fresh_tally, scan, ExactSummary, finish_fixed_in_memory}
use proofframe.Distinct.Exact.{distinct_values, finish_fixed_in_memory-exact}
use proofframe.Distinct.Heap.Pending.{concat, AllSorted}
use proofframe.Distinct.Merge.{merge, compact_payload}
use proofframe.Distinct.Merge.Equal.{merge-scan, compact_payload-ok, compact_payload-running}

abbrev quiet : ℕ → Bool
quiet j = false

abbrev runs : List (List (Rec ℕ))
runs = ((5, 0) ∷ (7, 1) ∷ []) ∷ ((5, 2) ∷ []) ∷ []

abbrev records : List (Rec ℕ)
records = (5, 0) ∷ (7, 1) ∷ (5, 2) ∷ []

runs-AllSorted : AllSorted nat_order runs
runs-AllSorted = (((refl, tt), (tt, tt)), ((tt, tt), tt))

merge-scan_example :
    merge nat_order quiet 1 runs
    ≡ some (
        scan nat_order 1 quiet 0
          (sort (rec_order nat_order) (concat nat_order runs))
          (fresh_tally ℕ))
merge-scan_example = merge-scan nat_order quiet 1 runs runs-AllSorted

compact_payload-running_example :
    compact_payload nat_order quiet runs
    ≡ some (ok (sort (rec_order nat_order) (concat nat_order runs)))
compact_payload-running_example =
    compact_payload-running nat_order quiet runs runs-AllSorted (λ j. refl)

abbrev written : List (Rec ℕ)
written = (5, 0) ∷ (5, 2) ∷ (7, 1) ∷ []

compacted : compact_payload nat_order quiet runs ≡ some (ok written)
unfolding compact_payload sort insert
compacted = compact_payload-running nat_order quiet runs runs-AllSorted (λ j. refl)

compact_payload-ok_example : written ≡ sort (rec_order nat_order) (concat nat_order runs)
compact_payload-ok_example =
    compact_payload-ok nat_order quiet runs written runs-AllSorted compacted

abbrev account : ResourceAccount
account = record { root = 0; below = []; limits = default_limits }

abbrev heap : Heap
heap = record { next = 1; at = λ m. new_counters 100 100 }

abbrev summary : ExactSummary
summary = record {
  distinct_count = 2;
  duplicate_count = 1;
  duplicate_samples = (0, 2) ∷ [];
  metrics = record {
    runs = 0;
    spill_bytes = 0;
    compactions = 0;
    max_merge_fan_in = 0;
    peak_memory_bytes = 0;
    peak_temp_bytes = 0;
  };
}

finished : finish_fixed_in_memory nat_order 1 quiet account heap (some records) ≡ ok summary
unfolding finish_fixed_in_memory sort insert current last_or
finished = refl

finish_fixed_in_memory-exact_example :
    (2 ≡ distinct_values nat_order records) × (3 ≡ length records) × (1 ≡ min 1 1)
finish_fixed_in_memory-exact_example =
    finish_fixed_in_memory-exact nat_order 1 quiet account heap (some records) summary finished
