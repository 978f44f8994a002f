-- ===== src/Spill/Bytes.antt =====
-- States of byte strings in distinct/mod.rs: the operations of `ExactState` on the segment of
-- Spill/ByteSegment.antt. Columns of strings, composite keys, references and leakage checks use such states.
pub mod Arena
pub mod Spilled
pub mod Pushed
pub mod Stored
pub mod Finish
use proofframe.Prelude.{
  ℕ, zero, suc, ◌+◌, ◌-◌, ◌*◌, ◌/◌, ◌^◌, max, min, Bool, true, false, ◌&&◌, ◌||◌, List, [], ◌∷◌,
  ◌++◌, map, Option, none, some, length, take, drop, ltb, ◌==◌, if◌then◌else◌,
}
use proofframe.Error.{
  ErrorCode, ProofFrameError, Result, ok, err, ◌>>=◌, error_code, corrupt_data, resource_limit,
}
use proofframe.Resource.{
  u64_mod, ResourceAccount, Reservation, Heap, try_reserve_memory, try_reserve_temp, check,
}
use proofframe.Sorting.{sort}
use proofframe.Sorting.Bytes.{bytes_order}
use proofframe.Distinct.{Rec, rec_order}
use proofframe.RunFile.{header_bytes, byte_total, longest}
use proofframe.Spill.State.{Run, ExactState, Layout, Pass, Step, drop_all, temps}
use proofframe.Spill.Segment.{is_limit}
use proofframe.Spill.Compact.{spill_target}
use proofframe.Spill.Ops.{new_with_cancellation, keep_run, compact_runs_if_needed}
use proofframe.Spill.Finish.{drop_state}
use proofframe.Spill.ByteSegment.{ByteSegment, values, byte_store_is_full, insert_bytes, grow_bytes}

-- `rest` has the fields that states of all kinds share; it has no segment of its own.
pub record ByteState : Type 0 where
  pub segment : Option ByteSegment
  pub desired_records : ℕ
  pub rest : ExactState (List ℕ)

abbrev pub byte_payload_size : List (Rec (List ℕ)) → ℕ
byte_payload_size [] = 0
byte_payload_size ((value, row) ∷ records) = 12 + length value + byte_payload_size records

abbrev pub bytes_layout : ℕ → Layout (List ℕ)
bytes_layout cursor_bytes = record { cursor_bytes = cursor_bytes; payload = byte_payload_size }

-- `write_run` of sorted byte strings, by the sum of their sizes
unfoldable pub write_sized_run :
    List (Rec (List ℕ)) → Result ℕ → ResourceAccount → Heap → Result (Run (List ℕ)) × Heap
unfolding try_reserve_temp
write_sized_run records (err e) account h = (err e, h)
write_sized_run records (ok total) account h =
    if ltb (header_bytes + total) u64_mod
    then (let (reserved, h') = try_reserve_temp account (header_bytes + total) h in
        (
          reserved >>= (λ temp. ok (record {
            records = records;
            payload_bytes = total;
            max_record_bytes = longest records;
            temp = temp;
          })),
          h',
        ))
    else (err (corrupt_data "Exact run size overflowed u64"), h)

-- `write_bytes` of the sorted records, and the size of its file
unfoldable pub write_byte_run :
    List (Rec (List ℕ)) → ResourceAccount → Heap → Result (Run (List ℕ)) × Heap
unfolding write_sized_run
write_byte_run records = write_sized_run records (byte_total 0 records)

abbrev pub ByteStep : Type 0
ByteStep = Result (Unit {0}) × ByteState × Heap

-- `?` after a call that changes the state
unfoldable pub then_bytes : ByteStep → (ByteState → Heap → ByteStep) → ByteStep
then_bytes (ok _, s, h) rest = rest s h
then_bytes (err e, s, h) rest = (err e, s, h)

-- a call on the fields that all kinds share
unfoldable pub within : ByteState → Step (List ℕ) (Unit {0}) → ByteStep
within s (r, rest, h) = (r, record s { rest = rest }, h)

abbrev pub hinted_byte_records : Option Bool → Option ℕ → ℕ
hinted_byte_records (some _) (some rows) = rows
hinted_byte_records _ _ = 16384

unfoldable pub new_bytes : ResourceAccount → Option Bool → Option ℕ → Heap → Result ByteState × Heap
unfolding new_with_cancellation
new_bytes account directory hint h =
    let (created, h') = new_with_cancellation account directory hint h in
    (
      created >>= (λ rest. ok (record {
        segment = none;
        desired_records = max 1 (min (hinted_byte_records directory hint) (2 ^ 24));
        rest = rest;
      })),
      h',
    )

abbrev pub held_bytes : Option ByteSegment → ℕ
held_bytes none = 0
held_bytes (some segment) = length segment.records

-- the segment is dropped when its run is written, and also when it cannot be
unfoldable pub spill_values : ByteState → List (Rec (List ℕ)) → List Reservation → Heap → ByteStep
unfolding within keep_run write_byte_run drop_all
spill_values s [] memory h = (ok tt, record s { segment = none }, drop_all memory h)
spill_values s (r ∷ rs) memory h =
    within (record s { segment = none })
      (keep_run s.rest memory
        (write_byte_run (sort (rec_order bytes_order) (r ∷ rs)) s.rest.account h))

unfoldable pub spill_bytes : ByteState → Option ByteSegment → Heap → ByteStep
unfolding spill_values
spill_bytes s none h = (ok tt, s, h)
spill_bytes s (some segment) h = spill_values s (values (some segment)) segment.memory h

unfoldable pub spill_current_bytes : ByteState → Heap → ByteStep
unfolding spill_bytes spill_target
spill_current_bytes s h =
    elim (spill_target s.rest.directory s.rest.account (held_bytes s.segment)) [
      | ok _ ↦ spill_bytes s s.segment h
      | err e ↦ (err e, s, h)
    ]

unfoldable pub keep_grown : ByteState → Result (Option ByteSegment) × Heap → ByteStep
keep_grown s (ok segment, h) = (ok tt, record s { segment = segment }, h)
keep_grown s (err e, h) = (err e, s, h)

unfoldable pub keep_inserted : ByteState → Result ByteSegment × Heap → ByteStep
keep_inserted s (ok segment, h) = (ok tt, record s { segment = some segment }, h)
keep_inserted s (err e, h) = (err e, s, h)

module _ (cursor_bytes : ℕ) where
  unfoldable pub compact_bytes : Pass → ByteState → Heap → ByteStep
  unfolding compact_runs_if_needed within
  compact_bytes pass s h =
      within s (compact_runs_if_needed bytes_order (bytes_layout cursor_bytes) pass s.rest h)

  unfoldable pub make_room_bytes : Pass → List ℕ → ByteState → Heap → ByteStep
  unfolding byte_store_is_full spill_current_bytes compact_bytes then_bytes grow_bytes keep_grown
  make_room_bytes pass value s h =
      if byte_store_is_full s.segment value
      then (if s.rest.directory
          then then_bytes (spill_current_bytes s h) (λ s' h'. compact_bytes pass s' h')
          else keep_grown s (grow_bytes s.segment (length value) s.rest.account h))
      else (ok tt, s, h)

  -- `insert` of a byte string into a state of byte strings
  unfoldable pub insert_value : Pass → Pass → List ℕ → ℕ → ByteState → Heap → ByteStep
  unfolding make_room_bytes insert_bytes keep_inserted then_bytes compact_bytes
  insert_value first last value row s h = then_bytes (make_room_bytes first value s h) (λ s1 h1.
      then_bytes
        (keep_inserted s1 (insert_bytes s1.segment s1.desired_records value row s1.rest.account h1))
        (λ s2 h2. compact_bytes last s2 h2))

  unfoldable pub seal_bytes : Bool → Pass → ByteState → Heap → ByteStep
  unfolding spill_current_bytes compact_bytes then_bytes
  seal_bytes cancelled pass s h = elim (check cancelled) [
    | ok _ ↦ then_bytes (spill_current_bytes s h) (λ s' h'. compact_bytes pass s' h')
    | err e ↦ (err e, s, h)
  ]

abbrev pub byte_memory : Option ByteSegment → List Reservation
byte_memory none = []
byte_memory (some segment) = segment.memory

-- The memory of the segment is given back with the rest of the state.
unfoldable pub drop_bytes : ByteState → Heap → Heap
unfolding drop_all drop_state
drop_bytes s h = drop_state s.rest (drop_all (byte_memory s.segment) h)

-- What is left of a state by `seal`: its runs. After an error the segment is dropped with it.
unfoldable pub sealed_step : ByteStep → Step (List ℕ) (Unit {0})
unfolding drop_all
sealed_step (ok _, s, h) = (ok tt, s.rest, h)
sealed_step (err e, s, h) = (err e, s.rest, drop_all (byte_memory s.segment) h)
