-- ===== src/Spill/Runs.antt =====
-- A state that spills and compacts on the way, and what the theorems say there.
use proofframe.Prelude.{
  ℕ, zero, suc, ◌≡◌, ◌≤◌, ◌^◌, none, refl, true, false, List, [], ◌∷◌, some, length, arith,
}
use proofframe.Error.{ok}
use proofframe.Resource.{
  memory, temp, current, ResourceAccount, Heap, default_limits, new_counters, Reservation,
}
use proofframe.Sorting.{sort, insert}
use proofframe.Sorting.Pairs.{nat_order}
use proofframe.Distinct.{ExactSummary}
use proofframe.Spill.State.{fixed_layout, ExactState, Pass, Run, max_merge_fan_in}
use proofframe.Spill.Segment.{segment_is_full, allocate_fixed_segment}
use proofframe.Spill.Ops
use proofframe.Spill.Ops.{new_with_cancellation, make_room, compact_runs_if_needed}
use proofframe.Spill.Finish.{Loads, finish}
use proofframe.Spill.Refine.{Insertion, inserted, figures, figures_of, insert_all, finish-refines}
use proofframe.Spill.Within.{compact_runs_if_needed-fan_in}
use proofframe.Spill.Bounded.{IsWithin, IsReady, new-IsWithin, insert-IsWithin}
use proofframe.Spill.Grant.{Granted, allocate_fixed_segment-Granted}

abbrev pub account : ResourceAccount
account = record { root = 0; below = []; limits = default_limits }

abbrev pub heap : Heap
heap = record { next = 1; at = λ m. new_counters (2 ^ 40) (2 ^ 40) }

abbrev pub quiet : Pass
quiet = record {
  at_round = λ round. false;
  at_verify = λ round. false;
  at_merge = λ round j. false;
}

abbrev pub loads : Loads
loads = record { at_seal = false; pass = quiet; at_verify = false; at_merge = λ j. false }

abbrev pub samples : Reservation
samples = record { held = 0 ∷ []; bytes = 1600; kind = memory }

-- one record for each segment
abbrev pub created : ExactState ℕ
created = record {
  segment = none;
  desired_capacity = 1;
  runs = [];
  account = account;
  directory = true;
  compactions = 0;
  max_fan_in = 0;
  sample_memory = samples;
}

abbrev call : ℕ → ℕ → Insertion ℕ
call value row = record { first = quiet; last = quiet; value = value; row = row }

abbrev pub calls : List (Insertion ℕ)
calls = call 5 0 ∷ call 7 1 ∷ call 5 2 ∷ []

abbrev pub after : Heap
after = (new_with_cancellation {V = ℕ} account (some true) (some 1) heap).1

pub created_ok : (new_with_cancellation {V = ℕ} account (some true) (some 1) heap).0 ≡ ok created
unfolding new_with_cancellation
created_ok = refl

abbrev pub state : ExactState ℕ
state = (insert_all nat_order (fixed_layout 400) calls created after).1

pub filled : (insert_all nat_order (fixed_layout 400) calls created after).0 ≡ ok tt
unfolding insert_all sort insert segment_is_full new_with_cancellation
filled = refl

spilled : length state.runs ≡ 2
unfolding insert_all sort insert segment_is_full new_with_cancellation
spilled = refl

abbrev summary : ExactSummary
summary = record {
  distinct_count = 2;
  duplicate_count = 1;
  duplicate_samples = (0, 2) ∷ [];
  metrics = record {
    runs = 3;
    spill_bytes = 228;
    compactions = 0;
    max_merge_fan_in = 3;
    peak_memory_bytes = 2832;
    peak_temp_bytes = 228;
  };
}

finished :
    (finish nat_order
      (fixed_layout 400)
      loads
      state
      (insert_all nat_order (fixed_layout 400) calls created after).2).0
    ≡ ok summary
unfolding insert_all sort insert segment_is_full new_with_cancellation finish current
finished = refl

finish-refines_example :
    figures summary ≡ figures_of nat_order account.limits.max_samples (inserted calls)
finish-refines_example =
    finish-refines nat_order (fixed_layout 400) account (some true) (some 1) heap created calls
      loads after (insert_all nat_order (fixed_layout 400) calls created after).2 summary created_ok
      filled finished

abbrev one_record : Run ℕ
one_record = record {
  records = (5, 0) ∷ [];
  payload_bytes = 16;
  max_record_bytes = 8;
  temp = record { held = 0 ∷ []; bytes = 76; kind = temp };
}

abbrev many : ℕ → List (Run ℕ)
many zero = []
many (suc n) = one_record ∷ many n

abbrev crowded : ExactState ℕ
crowded = record created { runs = many 33 }

compacted : (compact_runs_if_needed nat_order (fixed_layout 400) quiet crowded heap).0 ≡ ok tt
unfolding compact_runs_if_needed
compacted = refl

compact_runs_if_needed-fan_in_example :
    length (compact_runs_if_needed nat_order (fixed_layout 400) quiet crowded heap).1.runs
    ≤ max_merge_fan_in
compact_runs_if_needed-fan_in_example =
    compact_runs_if_needed-fan_in nat_order (fixed_layout 400) quiet crowded heap compacted

insert-IsWithin_example :
    ((make_room nat_order (fixed_layout 400) quiet created after).0 ≡ ok tt
      → IsReady (make_room nat_order (fixed_layout 400) quiet created after).1)
    × ((Ops.insert nat_order (fixed_layout 400) quiet quiet 5 0 created after).0 ≡ ok tt
        → IsWithin (Ops.insert nat_order (fixed_layout 400) quiet quiet 5 0 created after).1)
insert-IsWithin_example =
    insert-IsWithin nat_order (fixed_layout 400) quiet quiet 5 0 created after
      (new-IsWithin account (some true) (some 1) heap created created_ok)

allocate_fixed_segment-Granted_example :
    Granted {V = ℕ} 65536 (allocate_fixed_segment 65536 account heap)
allocate_fixed_segment-Granted_example =
    allocate_fixed_segment-Granted 65536 account heap (tt, tt)
      (record { used_fits = λ m. omega arith; cap_fits = λ m. omega arith }) (omega arith, tt)
      (omega arith) (omega arith)
