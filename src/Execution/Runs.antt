-- ===== src/Execution/Runs.antt =====
-- A run of the unique rules over two columns that spilled, one without the rule and one without rows, and what
-- the theorem says there.
use proofframe.Prelude.{
  ℕ, true, ◌^◌, ◌<◌, ◌+◌, ◌≡◌, refl, List, [], ◌∷◌, Option, none, some, String, arith,
}
use proofframe.Error.{ok}
use proofframe.Resource.{u64_mod, current, Heap, new_counters}
use proofframe.Sorting.{sort, insert}
use proofframe.Sorting.Pairs.{nat_order}
use proofframe.Spill.State.{fixed_layout}
use proofframe.Spill.Segment.{segment_is_full}
use proofframe.Spill.Ops.{new_with_cancellation}
use proofframe.Spill.Refine.{Insertion, insert_all}
use proofframe.Spill.Bytes.{ByteState, new_bytes}
use proofframe.Spill.Bytes.Stored.{insert_values}
use proofframe.Spill.State.{ExactState}
use proofframe.Spill.Runs.{
  quiet, samples, account, heap, loads, created, after, calls, state, created_ok, filled,
}
use proofframe.Validation.{new}
use proofframe.Execution.{no_spill, SpillMetrics, UniqueState, finish_unique_states}
use proofframe.Execution.Unique.{AreFilled, all_repeated, finish_unique_states-counted}

abbrev capacity : String → ℕ
capacity s = 8

abbrev spilled : UniqueState
spilled = UniqueState.fixed_state nat_order state loads

abbrev empty : UniqueState
empty = UniqueState.fixed_state nat_order created loads

-- one string for each segment
abbrev created_bytes : ByteState
created_bytes = record { segment = none; desired_records = 1; rest = emptied }
  where
    emptied : ExactState (List ℕ)
    emptied = record {
      segment = none;
      desired_capacity = 1;
      runs = [];
      account = account;
      directory = true;
      compactions = 0;
      max_fan_in = 0;
      sample_memory = samples;
    }

created_bytes_ok : (new_bytes account (some true) (some 1) heap).0 ≡ ok created_bytes
unfolding new_bytes
created_bytes_ok = refl

abbrev name : ℕ → ℕ → Insertion (List ℕ)
name byte row = record { first = quiet; last = quiet; value = byte ∷ []; row = row }

abbrev names : List (Insertion (List ℕ))
names = name 9 0 ∷ name 9 1 ∷ name 9 2 ∷ []

abbrev named : ByteState
named = (insert_values 400 names created_bytes after).1

names_filled : (insert_values 400 names created_bytes after).0 ≡ ok tt
unfolding insert_values sort insert new_with_cancellation
names_filled = refl

abbrev columns : List (String × Option UniqueState)
columns =
    ("id", some spilled)
    ∷ ("note", none)
    ∷ ("empty", some empty)
    ∷ ("name", some (UniqueState.byte_state named loads))
    ∷ []

nothing_inserted : (insert_all nat_order (fixed_layout 400) [] created after).0 ≡ ok tt
unfolding insert_all
nothing_inserted = refl

still_created : created ≡ (insert_all nat_order (fixed_layout 400) [] created after).1
unfolding insert_all
still_created = refl

abbrev all_filled : AreFilled 400 columns
all_filled = (
  record {
    account = account;
    directory = some true;
    hint = some 1;
    before = heap;
    created = created;
    created_ok = created_ok;
    calls = calls;
    after = after;
    filled_ok = filled;
    reached = refl;
  },
  (
    record {
      account = account;
      directory = some true;
      hint = some 1;
      before = heap;
      created = created;
      created_ok = created_ok;
      calls = [];
      after = after;
      filled_ok = nothing_inserted;
      reached = still_created;
    },
    (
      record {
        account = account;
        directory = some true;
        hint = some 1;
        before = heap;
        created = created_bytes;
        created_ok = created_bytes_ok;
        calls = names;
        after = after;
        filled_ok = names_filled;
        reached = refl;
      },
      tt,
    ),
  ),
)

-- what the states hold at the end of the scan
abbrev at_end : Heap
at_end = record {
  next = 1;
  at = λ m. record (new_counters (2 ^ 40) (2 ^ 40)) { memory = 2 ^ 20; temp = 2 ^ 20 };
}

abbrev metrics : SpillMetrics
metrics = record { spill_bytes = 447; exact_runs = 6 }

ended : (finish_unique_states capacity 400 columns no_spill (new 10) at_end).0 ≡ ok metrics
unfolding finish_unique_states new insert_all insert_values sort insert segment_is_full
    new_with_cancellation current
ended = refl

small : (new 10).violation_count + all_repeated 400 columns all_filled < u64_mod
unfolding new
small = omega arith

finish_unique_states-counted_example :
    (finish_unique_states capacity 400 columns no_spill (new 10) at_end).1.violation_count
    ≡ (new 10).violation_count + all_repeated 400 columns all_filled
finish_unique_states-counted_example =
    finish_unique_states-counted 400 capacity columns all_filled no_spill metrics (new 10) at_end
      small ended
