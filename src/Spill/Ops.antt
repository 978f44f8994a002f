-- ===== src/Spill/Ops.antt =====
-- The operations of `ExactState` in distinct/mod.rs: creation, `insert`, `seal` and `finish`.
use proofframe.Prelude.{
  ℕ, zero, suc, ◌+◌, ◌-◌, ◌*◌, ◌%◌, ◌^◌, max, min, Bool, true, false, List, [], ◌∷◌, ◌++◌, Option,
  none, some, length, take, drop, ltb, if◌then◌else◌,
}
use proofframe.Error.{Result, ok, err, ◌>>=◌, corrupt_data, io}
use proofframe.Resource.{u64_mod, ResourceAccount, Reservation, Heap, try_reserve_memory, check}
use proofframe.Sorting.{Order, sort}
use proofframe.Distinct.{Rec, rec_order}
use proofframe.RunFile.{header_bytes}
use proofframe.Spill.State.{
  Layout, FixedSegment, Run, ExactState, Pass, Step, temps, drop_all, proceed, guarded, record_size,
  max_merge_fan_in,
}
use proofframe.Spill.Segment.{segment_is_full, grow, insert_fixed}
use proofframe.Spill.Compact.{write_run, spill_target, compact}

abbrev pub max_fixed_records : ℕ
max_fixed_records = 2 ^ 25

abbrev pub default_fixed_records : ℕ
default_fixed_records = 65536

abbrev pub clamp : ℕ → ℕ
clamp hinted = max 1 (min hinted max_fixed_records)

-- the hint counts only where there is a directory
abbrev pub hinted_records : Option Bool → Option ℕ → ℕ
hinted_records none hint = default_fixed_records
hinted_records (some _) none = default_fixed_records
hinted_records (some _) (some rows) = rows

abbrev pub is_missing : Option Bool → Bool
is_missing (some false) = true
is_missing _ = false

abbrev pub is_some : {A : Type 0} → Option A → Bool
is_some none = false
is_some (some a) = true

module _ {V : Type 0} where
  abbrev pub empty_state : ℕ → ResourceAccount → Bool → Reservation → ExactState V
  empty_state desired account directory samples = record {
    segment = none;
    desired_capacity = desired;
    runs = [];
    account = account;
    directory = directory;
    compactions = 0;
    max_fan_in = 0;
    sample_memory = samples;
  }

  -- `new_with_cancellation`; of the directory, whether there is one and whether it exists
  unfoldable pub new_with_cancellation :
      ResourceAccount → Option Bool → Option ℕ → Heap → Result (ExactState V) × Heap
  unfolding try_reserve_memory
  new_with_cancellation account directory hint h =
      if is_missing directory
      then (err (io "Exact-state temporary directory does not exist"), h)
      else if ltb (account.limits.max_samples * record_size) u64_mod
      then (let (samples, h') =
            try_reserve_memory account (account.limits.max_samples * record_size) h in
          (
            samples >>= (λ reserved. ok (
                empty_state (clamp (hinted_records directory hint)) account (is_some directory)
                  reserved)),
            h',
          ))
      else (err (corrupt_data "Exact sample size overflowed"), h)

  abbrev pub held : Option (FixedSegment V) → ℕ
  held none = 0
  held (some segment) = length segment.records

  abbrev pub segment_memory : Option (FixedSegment V) → List Reservation
  segment_memory none = []
  segment_memory (some segment) = segment.memory

  abbrev pub segment_records : Option (FixedSegment V) → List (Rec V)
  segment_records none = []
  segment_records (some segment) = segment.records

  -- the segment is dropped when its run is written, and also when it cannot be
  unfoldable pub keep_run :
      ExactState V → List Reservation → Result (Run V) × Heap → Step V (Unit {0})
  unfolding drop_all
  keep_run s memory (ok run, h) =
      (ok tt, record s { segment = none; runs = s.runs ++ run ∷ [] }, drop_all memory h)
  keep_run s memory (err e, h) = (err e, record s { segment = none }, drop_all memory h)

  unfoldable pub grow_segment :
      ExactState V → Result (Option (FixedSegment V)) × Heap → Step V (Unit {0})
  grow_segment s (ok segment, h) = (ok tt, record s { segment = segment }, h)
  grow_segment s (err e, h) = (err e, s, h)

  unfoldable pub keep_segment : ExactState V → Result (FixedSegment V) × Heap → Step V (Unit {0})
  keep_segment s (ok segment, h) = (ok tt, record s { segment = some segment }, h)
  keep_segment s (err e, h) = (err e, s, h)

  -- `insert_fixed` into the store of the state
  unfoldable pub store_record : V → ℕ → ExactState V → Heap → Step V (Unit {0})
  unfolding insert_fixed keep_segment
  store_record value row s h =
      keep_segment s (insert_fixed s.segment s.desired_capacity value row s.account h)

  abbrev pub bytes_of_runs : List (Run V) → ℕ
  bytes_of_runs [] = 0
  bytes_of_runs (r ∷ rs) = (header_bytes + r.payload_bytes + bytes_of_runs rs) % u64_mod

  -- the end of a compaction in its loop, where the inputs are dropped
  unfoldable pub keep_compacted :
      ExactState V → List (Run V) → Result (Run V) × Heap → Step V (Unit {0})
  unfolding drop_all
  keep_compacted s inputs (ok run, h) = (
    ok tt,
    record s {
      runs = run ∷ s.runs;
      max_fan_in = max s.max_fan_in (length inputs);
      compactions = min (s.compactions + 1) (2 ^ 64 - 1);
    },
    drop_all (temps inputs) h,
  )
  keep_compacted s inputs (err e, h) = (err e, s, drop_all (temps inputs) h)

  abbrev pub drained : ExactState V → ExactState V
  drained s = record s { runs = drop max_merge_fan_in s.runs }

module _ {V : Type 0} (o : Order V) where
  -- `spill_fixed` of a segment with these records, which is dropped at its end
  unfoldable pub spill_records :
      ExactState V → List (Rec V) → List Reservation → Heap → Step V (Unit {0})
  unfolding keep_run write_run drop_all
  spill_records s [] memory h = (ok tt, record s { segment = none }, drop_all memory h)
  spill_records s (r ∷ rs) memory h =
      keep_run s memory (write_run (sort (rec_order o) (r ∷ rs)) s.account h)

  unfoldable pub spill_fixed : ExactState V → Option (FixedSegment V) → Heap → Step V (Unit {0})
  unfolding spill_records
  spill_fixed s none h = (ok tt, s, h)
  spill_fixed s (some segment) h = spill_records s segment.records segment.memory h

  unfoldable pub spill_current : ExactState V → Heap → Step V (Unit {0})
  unfolding spill_fixed spill_target guarded
  spill_current s h =
      guarded (spill_target s.directory s.account (held s.segment)) s h (spill_fixed s s.segment h)

module _ {V : Type 0} (o : Order V) (layout : Layout V) where
  -- a compaction of the inputs, where there is a directory
  unfoldable pub compact_inputs :
      Pass → ℕ → List (Run V) → ExactState V → Result (Unit {0}) → Heap → Step V (Unit {0})
  unfolding compact keep_compacted
  compact_inputs pass round inputs s (ok _) h =
      keep_compacted s inputs
        (compact o layout (pass.at_verify round) (pass.at_merge round) inputs s.account h)
  compact_inputs pass round inputs s (err e) h = keep_compacted s inputs (err e, h)

  -- one round of `compact_runs_if_needed`: the inputs are drained first
  unfoldable pub compact_round : Pass → ℕ → ExactState V → Heap → Step V (Unit {0})
  unfolding compact_inputs spill_target guarded
  compact_round pass round s h = guarded (check (pass.at_round round)) s h (
      compact_inputs pass round (take max_merge_fan_in s.runs) (drained s)
        (spill_target s.directory s.account 0) h)

  -- The loop; each round leaves 31 runs fewer, so the number of runs is fuel enough.
  unfoldable pub compact_rounds : ℕ → Pass → ℕ → ExactState V → Heap → Step V (Unit {0})
  unfolding compact_round proceed
  compact_rounds zero pass round s h = (ok tt, s, h)
  compact_rounds (suc fuel) pass round s h = elim (ltb max_merge_fan_in (length s.runs)) [
    | true ↦
        proceed (compact_round pass round s h)
          (λ _ s' h'. compact_rounds fuel pass (round + 1) s' h')
    | false ↦ (ok tt, s, h)
  ]

  unfoldable pub compact_runs_if_needed : Pass → ExactState V → Heap → Step V (Unit {0})
  unfolding compact_rounds
  compact_runs_if_needed pass s h = compact_rounds (length s.runs) pass 0 s h

  -- what `insert` does where the segment is full
  unfoldable pub make_room : Pass → ExactState V → Heap → Step V (Unit {0})
  unfolding spill_current compact_runs_if_needed proceed grow grow_segment
  make_room pass s h =
      if segment_is_full s.segment
      then (if s.directory
          then proceed (spill_current o s h) (λ _ s' h'. compact_runs_if_needed pass s' h')
          else grow_segment s (grow s.segment s.account h))
      else (ok tt, s, h)

  -- `insert` of a value of the kind of the state; the two passes are its two compactions
  unfoldable pub insert : Pass → Pass → V → ℕ → ExactState V → Heap → Step V (Unit {0})
  unfolding make_room store_record proceed
  insert first last value row s h = proceed (make_room first s h) (λ _ s1 h1.
      proceed (store_record value row s1 h1) (λ _ s2 h2. compact_runs_if_needed last s2 h2))

  unfoldable pub seal : Bool → Pass → ExactState V → Heap → Step V (Unit {0})
  unfolding spill_current compact_runs_if_needed proceed guarded
  seal cancelled pass s h =
      guarded (check cancelled) s h
        (proceed (spill_current o s h) (λ _ s' h'. compact_runs_if_needed pass s' h'))
