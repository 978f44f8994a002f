-- ===== src/Spill/Compact.antt =====
-- Runs of distinct/mod.rs and distinct/run.rs: writing a sorted segment, and compacting runs into one.
use proofframe.Prelude.{
  ℕ, ◌+◌, ◌*◌, max, Bool, true, false, List, [], ◌∷◌, Option, none, some, length, ltb, ◌==◌, ◌&&◌,
  if◌then◌else◌, String,
}
use proofframe.Error.{Result, ok, err, ◌>>=◌, corrupt_data, resource_limit}
use proofframe.Resource.{
  u64_mod, ResourceAccount, Reservation, Heap, try_reserve_memory, try_reserve_temp,
  drop_reservation, check,
}
use proofframe.Sorting.{Order}
use proofframe.Distinct.{Rec}
use proofframe.Distinct.Merge.{compact_payload}
use proofframe.RunFile.{header_bytes}
use proofframe.Spill.State.{Layout, Run, records_of, record_size}

-- `checked_add` in u64
abbrev pub checked_add : String → ℕ → ℕ → Result ℕ
checked_add overflow a b = if ltb (a + b) u64_mod then ok (a + b) else err (corrupt_data overflow)

-- `spill_target`
unfoldable pub spill_target : Bool → ResourceAccount → ℕ → Result (Unit {0})
spill_target true account held = ok tt
spill_target false account held =
    err (resource_limit "exact_state_values_without_spill" 1 held account.limits.max_memory_bytes)

pub record CompactionSpec : Type 0 where
  pub records : ℕ
  pub payload_bytes : ℕ
  pub max_record_bytes : ℕ
  pub total_bytes : ℕ

-- the loop ends (`compact_payload-running`), so the second clause is never taken
abbrev pub ended : {A : Type 0} → Option (Result A) → Result A
ended (some r) = r
ended none = err (corrupt_data "Exact compacted run length changed during merge")

module _ {V : Type 0} where
  -- `try_fold` of a measure of the runs
  unfoldable pub checked_sum : String → (Run V → ℕ) → ℕ → List (Run V) → Result ℕ
  checked_sum overflow measure total [] = ok total
  checked_sum overflow measure total (r ∷ rs) =
      checked_add overflow total (measure r) >>= λ total'. checked_sum overflow measure total' rs

  abbrev pub largest_record : List (Run V) → ℕ
  largest_record [] = 0
  largest_record (r ∷ rs) = max r.max_record_bytes (largest_record rs)

  -- `merge_memory_bytes`
  unfoldable pub merge_memory_bytes : Layout V → List (Run V) → Result ℕ
  unfolding checked_sum
  merge_memory_bytes layout runs =
      checked_sum "Exact merge size overflowed" (λ r. layout.cursor_bytes + r.max_record_bytes) 0
        runs
      >>= λ total. checked_add "Exact merge size overflowed" total (largest_record runs)

  -- `write_fixed` of the sorted records, and the size of its file
  unfoldable pub write_run : List (Rec V) → ResourceAccount → Heap → Result (Run V) × Heap
  unfolding try_reserve_temp
  write_run records account h =
      if ltb (header_bytes + length records * record_size) u64_mod
      then (let (reserved, h') =
            try_reserve_temp account (header_bytes + length records * record_size) h in
          (
            reserved >>= (λ temp. ok (record {
              records = records;
              payload_bytes = length records * record_size;
              max_record_bytes = 8;
              temp = temp;
            })),
            h',
          ))
      else (err (corrupt_data "Exact run size overflowed u64"), h)

  -- `compaction_spec` of runs of one kind; `verified` is what the checks of `verify_payload` see.
  unfoldable pub compaction_spec : Bool → List (Run V) → Result CompactionSpec
  unfolding checked_sum
  compaction_spec verified [] = err (corrupt_data "Exact run compaction requires at least one run")
  compaction_spec verified (r ∷ rs) = check verified >>= λ _.
      checked_sum "Exact compacted run record count overflowed u64" (λ r. length r.records) 0
        (r ∷ rs)
      >>= λ records.
          checked_sum "Exact compacted run payload overflowed u64" (λ r. r.payload_bytes) 0 (r ∷ rs)
          >>= λ payload.
              checked_add "Exact compacted run size overflowed u64" header_bytes payload
              >>= λ total. ok (record {
                records = records;
                payload_bytes = payload;
                max_record_bytes = largest_record (r ∷ rs);
                total_bytes = total;
              })

  abbrev pub compacted_run : Layout V → CompactionSpec → Reservation → List (Rec V) → Result (Run V)
  compacted_run layout spec temp written =
      if length written == spec.records && layout.payload written == spec.payload_bytes
      then ok (record {
        records = written;
        payload_bytes = spec.payload_bytes;
        max_record_bytes = spec.max_record_bytes;
        temp = temp;
      })
      else err (corrupt_data "Exact compacted run length changed during merge")

  -- the end of `compact`: its memory is given back, and its file too where it fails
  unfoldable pub close_compaction :
      Result (Run V) → Reservation → Reservation → Heap → Result (Run V) × Heap
  close_compaction (ok run) temp memory h = (ok run, drop_reservation memory h)
  close_compaction (err e) temp memory h =
      (err e, drop_reservation temp (drop_reservation memory h))

module _ {V : Type 0} (o : Order V) (layout : Layout V) where
  unfoldable pub merge_into :
      (ℕ → Bool)
      → CompactionSpec
      → Reservation
      → Result Reservation
      → List (Run V)
      → Heap
      → Result (Run V) × Heap
  unfolding close_compaction compact_payload
  merge_into flag spec temp (ok memory) runs h =
      close_compaction
        (ended (compact_payload o flag (records_of runs)) >>= compacted_run layout spec temp) temp
        memory h
  merge_into flag spec temp (err e) runs h = (err e, drop_reservation temp h)

  -- the memory of the merge
  unfoldable pub reserve_merge : ResourceAccount → List (Run V) → Heap → Result Reservation × Heap
  unfolding merge_memory_bytes try_reserve_memory
  reserve_merge account runs h = elim (merge_memory_bytes layout runs) [
    | ok bytes ↦ try_reserve_memory account bytes h
    | err e ↦ (err e, h)
  ]

  unfoldable pub compact_with :
      (ℕ → Bool)
      → CompactionSpec
      → ResourceAccount
      → List (Run V)
      → Result Reservation × Heap
      → Result (Run V) × Heap
  unfolding merge_into reserve_merge
  compact_with flag spec account runs (ok temp, h) =
      let (memory, h') = reserve_merge account runs h in merge_into flag spec temp memory runs h'
  compact_with flag spec account runs (err e, h) = (err e, h)

  unfoldable pub compact :
      Bool → (ℕ → Bool) → List (Run V) → ResourceAccount → Heap → Result (Run V) × Heap
  unfolding compaction_spec compact_with try_reserve_temp
  compact verified flag runs account h = elim (compaction_spec verified runs) [
    | ok spec ↦ compact_with flag spec account runs (try_reserve_temp account spec.total_bytes h)
    | err e ↦ (err e, h)
  ]
