-- ===== src/Spill/Finish.antt =====
-- `finish` of distinct/mod.rs and `merge` of distinct/run.rs: the summary of all that was inserted.
use proofframe.Prelude.{ℕ, max, Bool, List, [], ◌∷◌, ◌++◌, Option, none, some, length}
use proofframe.Error.{Result, ok, err, ◌>>=◌}
use proofframe.Resource.{
  Reservation, Heap, peak_memory_used, peak_temp_used, drop_reservation, check,
}
use proofframe.Sorting.{Order}
use proofframe.Distinct.{Rec, ExactMetrics, ExactSummary, summary_of, finish_fixed_in_memory}
use proofframe.Distinct.Merge.{merge}
use proofframe.Spill.State.{
  Layout, FixedSegment, Run, ExactState, Pass, Step, records_of, temps, drop_all,
}
use proofframe.Spill.Compact.{reserve_merge, ended}
use proofframe.Spill.Ops.{seal, segment_memory, bytes_of_runs}

-- what the loads of the cancellation flag see in a `finish`
pub record Loads : Type 0 where
  pub at_seal : Bool
  pub pass : Pass
  pub at_verify : Bool
  pub at_merge : ℕ → Bool

unfoldable pub merge_metrics : {V : Type 0} → ExactState V → Heap → ExactMetrics
unfolding peak_memory_used peak_temp_used
merge_metrics s h = record {
  runs = length s.runs;
  spill_bytes = bytes_of_runs s.runs;
  compactions = 0;
  max_merge_fan_in = length s.runs;
  peak_memory_bytes = peak_memory_used s.account h;
  peak_temp_bytes = peak_temp_used s.account h;
}

-- the two metrics that the state sets in the summary of `merge`
unfoldable pub state_metrics : {V : Type 0} → ExactState V → ExactSummary → ExactSummary
state_metrics s summary = record summary {
  metrics = record (summary.metrics) {
    compactions = s.compactions;
    max_merge_fan_in = max s.max_fan_in (length s.runs);
  };
}

-- all that a state holds is given back when it is dropped
unfoldable pub drop_state : {V : Type 0} → ExactState V → Heap → Heap
unfolding drop_all
drop_state s h = drop_all (segment_memory s.segment ++ (temps s.runs ++ s.sample_memory ∷ [])) h

abbrev pub in_memory : {V : Type 0} → Option (FixedSegment V) → Option (List (Rec V))
in_memory none = none
in_memory (some segment) = some segment.records

module _ {V : Type 0} (o : Order V) (layout : Layout V) where
  -- `merge` of runs that were verified, with its memory reserved and given back
  unfoldable pub merge_with :
      (ℕ → Bool) → ExactState V → Result Reservation × Heap → Result ExactSummary × Heap
  unfolding merge summary_of merge_metrics drop_reservation
  merge_with flag s (ok memory, h) = (
    ended (merge o flag s.account.limits.max_samples (records_of s.runs))
        >>= (λ tally. ok (summary_of tally (merge_metrics s h))),
    drop_reservation memory h,
  )
  merge_with flag s (err e, h) = (err e, h)

  unfoldable pub merge_runs : Bool → (ℕ → Bool) → ExactState V → Heap → Result ExactSummary × Heap
  unfolding merge_with reserve_merge
  merge_runs verified flag s h = elim (check verified) [
    | ok _ ↦ merge_with flag s (reserve_merge o layout s.account s.runs h)
    | err e ↦ (err e, h)
  ]

  unfoldable pub finish_sealed : Loads → Step V (Unit {0}) → Result ExactSummary × Heap
  unfolding merge_runs state_metrics drop_state
  finish_sealed loads (ok _, s, h) =
      let (merged, h') = merge_runs loads.at_verify loads.at_merge s h in
      (merged >>= (λ summary. ok (state_metrics s summary)), drop_state s h')
  finish_sealed loads (err e, s, h) = (err e, drop_state s h)

  -- `finish` by the runs that there are
  unfoldable pub finish_by : List (Run V) → Loads → ExactState V → Heap → Result ExactSummary × Heap
  unfolding seal finish_sealed finish_fixed_in_memory drop_state
  finish_by [] loads s h = (
    finish_fixed_in_memory o s.account.limits.max_samples loads.at_merge s.account h
        (in_memory s.segment),
    drop_state s h,
  )
  finish_by (r ∷ rs) loads s h = finish_sealed loads (seal o layout loads.at_seal loads.pass s h)

  -- `finish`, which consumes the state
  unfoldable pub finish : Loads → ExactState V → Heap → Result ExactSummary × Heap
  unfolding finish_by
  finish loads s h = finish_by s.runs loads s h
