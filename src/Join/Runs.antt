-- ===== src/Join/Runs.antt =====
-- Checks of small states of byte strings that spill, and what the theorems say there.
use proofframe.Prelude.{ℕ, zero, suc, ◌≡◌, ◌^◌, refl, true, false, List, [], ◌∷◌, none, some}
use proofframe.Error.{ok, Result}
use proofframe.Resource.{
  memory, temp, ResourceAccount, Heap, default_limits, new_counters, Reservation,
}
use proofframe.Sorting.{sort, insert}
use proofframe.Sorting.Pairs.{nat_order}
use proofframe.Sorting.Bytes.{bytes_order}
use proofframe.RunFile.{OwnedValue}
use proofframe.Distinct.{rec_order}
use proofframe.Join.Intersect.{
  digest_of, IntersectionSummary, summary_of_intersection, intersect_run, intersect_exact_states,
}
use proofframe.Join.Lowest.{lowest}
use proofframe.Join.Meets.{Digested}
use proofframe.Join.Shared.{IsMet, intersect_run-IsMet}
use proofframe.Join.Leakage.{intersect_exact_states-IsMet}
use proofframe.Distinct.Heap.Pending.{concat, AllSorted}
use proofframe.Spill.State.{Pass, Run, Step, records_of}
use proofframe.Spill.Refine.{Insertion, inserted}
use proofframe.Spill.Bytes.{ByteState, new_bytes, seal_bytes, sealed_step}
use proofframe.Spill.Bytes.Stored.{insert_values}
use proofframe.Join.AntiJoin.{
  AntiJoinSummary, JoinLoads, anti_run, summary_of_join, anti_join_exact_states,
}
use proofframe.Join.Ends.{Ends}
use proofframe.Join.Reference.{IsExact, anti_run-IsExact}
use proofframe.Join.States.{anti_join_exact_states-IsExact}

abbrev account : ResourceAccount
account = record { root = 0; below = []; limits = default_limits }

-- what other states hold is in use
abbrev heap : Heap
heap = record {
  next = 1;
  at = λ m. record (new_counters (2 ^ 40) (2 ^ 40)) { memory = 2 ^ 20; temp = 2 ^ 20 };
}

abbrev quiet : Pass
quiet = record {
  at_round = λ round. false;
  at_verify = λ round. false;
  at_merge = λ round j. false;
}

abbrev loads : JoinLoads
loads = record { at_left = false; at_right = false; at = λ j. false }

abbrev run_of : List (ℕ × ℕ) → Run ℕ
run_of records = record {
  records = records;
  payload_bytes = 32;
  max_record_bytes = 8;
  temp = record { held = 0 ∷ []; bytes = 92; kind = temp };
}

abbrev left_runs : List (Run ℕ)
left_runs = run_of ((3, 1) ∷ (5, 0) ∷ []) ∷ run_of ((3, 2) ∷ (9, 4) ∷ []) ∷ []

abbrev right_runs : List (Run ℕ)
right_runs = run_of ((4, 1) ∷ (5, 0) ∷ []) ∷ []

left_sorted : AllSorted nat_order (records_of left_runs)
left_sorted = (((refl, tt), (tt, tt)), (((refl, tt), (tt, tt)), tt))

right_sorted : AllSorted nat_order (records_of right_runs)
right_sorted = (((refl, tt), (tt, tt)), tt)

anti_run-IsExact_example :
    Ends loads.at
      (λ s.
        IsExact nat_order 1
          (concat nat_order (records_of left_runs))
          (concat nat_order (records_of right_runs))
          (summary_of_join s))
      (anti_run nat_order 1 loads.at left_runs right_runs)
anti_run-IsExact_example =
    anti_run-IsExact nat_order 1 loads.at left_runs right_runs left_sorted right_sorted

abbrev samples : Reservation
samples = record { held = 0 ∷ []; bytes = 1600; kind = memory }

-- one record for each segment
abbrev created : ByteState
created = record {
  segment = none;
  desired_records = 1;
  rest = record {
    segment = none;
    desired_capacity = 1;
    runs = [];
    account = account;
    directory = true;
    compactions = 0;
    max_fan_in = 0;
    sample_memory = samples;
  };
}

created_ok : (new_bytes account (some true) (some 1) heap).0 ≡ ok created
unfolding new_bytes
created_ok = refl

abbrev call : List ℕ → ℕ → Insertion (List ℕ)
call value row = record { first = quiet; last = quiet; value = value; row = row }

abbrev keys : List (Insertion (List ℕ))
keys = call (5 ∷ []) 0 ∷ call (3 ∷ []) 1 ∷ call (3 ∷ []) 2 ∷ []

abbrev references : List (Insertion (List ℕ))
references = call (5 ∷ []) 0 ∷ call (4 ∷ []) 1 ∷ []

keys_filled : (insert_values 400 keys created heap).0 ≡ ok tt
unfolding insert_values sort insert
keys_filled = refl

references_filled : (insert_values 400 references created heap).0 ≡ ok tt
unfolding insert_values sort insert
references_filled = refl

-- what the check reads of the references
abbrev referenced : Step (List ℕ) (Unit {0})
referenced =
    sealed_step (seal_bytes 400 false quiet (insert_values 400 references created heap).1 heap)

references_sealed : referenced.0 ≡ ok tt
unfolding insert_values sort insert seal_bytes sealed_step
references_sealed = refl

abbrev summary : AntiJoinSummary
summary = record {
  left_distinct = 2;
  right_distinct = 2;
  missing = 1;
  samples = 1 ∷ [];
  spill_bytes = 219;
  runs = 3;
}

checked :
    (anti_join_exact_states 400 false quiet loads 10
      (insert_values 400 keys created heap).1
      referenced.1.runs
      referenced.1.account
      heap).0
    ≡ ok summary
unfolding insert_values sort insert seal_bytes sealed_step anti_join_exact_states
checked = refl

anti_join_exact_states-IsExact_example :
    IsExact bytes_order 10 (inserted keys) (inserted references) summary
anti_join_exact_states-IsExact_example =
    anti_join_exact_states-IsExact 400 account account (some true) (some true) (some 1) (some 1)
      created created keys references false false quiet quiet loads 10 heap heap heap heap heap heap
      summary created_ok keys_filled created_ok references_filled references_sealed checked

-- an identity of 32 equal bytes
abbrev identity_of : ℕ → List ℕ
identity_of byte = repeated 32
  where
    repeated : ℕ → List ℕ
    repeated zero = []
    repeated (suc n) = byte ∷ repeated n

abbrev digest : List ℕ → Result (List ℕ)
digest bytes = digest_of (OwnedValue.bytes bytes)

abbrev itself : List ℕ → List ℕ
itself bytes = bytes

abbrev left_identities : List (Run (List ℕ))
left_identities =
    record {
      records = (identity_of 3, 1) ∷ (identity_of 5, 0) ∷ [];
      payload_bytes = 88;
      max_record_bytes = 32;
      temp = record { held = 0 ∷ []; bytes = 148; kind = temp };
    }
    ∷ []

known : Digested bytes_order digest itself (
    lowest bytes_order
      (sort (rec_order bytes_order) (concat bytes_order (records_of left_identities))))
unfolding lowest sort insert digest_of
known = (refl, (refl, tt))

intersect_run-IsMet_example :
    Ends loads.at
      (λ s.
        IsMet bytes_order digest itself 1
          (concat bytes_order (records_of left_identities))
          (concat bytes_order (records_of left_identities))
          (summary_of_intersection s))
      (intersect_run bytes_order digest 1 loads.at left_identities left_identities)
intersect_run-IsMet_example =
    intersect_run-IsMet bytes_order digest itself 1 loads.at left_identities left_identities
      ((((refl, tt), (tt, tt))), tt) ((((refl, tt), (tt, tt))), tt) known

abbrev train : List (Insertion (List ℕ))
train = call (identity_of 5) 0 ∷ call (identity_of 3) 1 ∷ []

abbrev test : List (Insertion (List ℕ))
test = call (identity_of 5) 0 ∷ call (identity_of 4) 1 ∷ []

train_filled : (insert_values 400 train created heap).0 ≡ ok tt
unfolding insert_values sort insert
train_filled = refl

test_filled : (insert_values 400 test created heap).0 ≡ ok tt
unfolding insert_values sort insert
test_filled = refl

abbrev leaked : IntersectionSummary (List ℕ)
leaked = record { left_distinct = 2; right_distinct = 2; overlap = 1; samples = identity_of 5 ∷ [] }

train_known : Digested bytes_order digest itself (inserted train)
unfolding digest_of
train_known = (refl, (refl, tt))

leak_found :
    (intersect_exact_states digest 400 false quiet false quiet loads 10
      (insert_values 400 train created heap).1
      (insert_values 400 test created heap).1
      heap).0
    ≡ ok leaked
unfolding insert_values sort insert seal_bytes sealed_step intersect_exact_states digest_of
leak_found = refl

intersect_exact_states-IsMet_example :
    IsMet bytes_order digest itself 10 (inserted train) (inserted test) leaked
intersect_exact_states-IsMet_example =
    intersect_exact_states-IsMet digest itself 400 account account (some true) (some true) (some 1)
      (some 1) created created train test false false quiet quiet loads 10 heap heap heap heap heap
      leaked created_ok train_filled created_ok test_filled train_known leak_found
