-- ===== src/Spill/Segment.antt =====
-- Segments of distinct/mod.rs: allocation with retries, growth, insertion.
use proofframe.Prelude.{
  ℕ, zero, suc, ◌+◌, ◌*◌, ◌/◌, max, Bool, true, false, ◌&&◌, [], ◌∷◌, ◌++◌, Option, none, some,
  length, ltb, ◌==◌, if◌then◌else◌,
}
use proofframe.Error.{ErrorCode, ProofFrameError, Result, ok, err, ◌>>=◌, error_code, corrupt_data}
use proofframe.Resource.{u64_mod, ResourceAccount, Reservation, Heap, try_reserve_memory}
use proofframe.Spill.State.{FixedSegment, record_size}

abbrev pub is_limit : ErrorCode → Bool
is_limit ErrorCode.resource_limit = true
is_limit _ = false

abbrev pub size_overflowed : ProofFrameError
size_overflowed = corrupt_data "Exact segment size overflowed"

-- the reservation of so many records
unfoldable pub reserve_records : ℕ → ResourceAccount → Heap → Result Reservation × Heap
unfolding try_reserve_memory
reserve_records capacity account h =
    if ltb (capacity * record_size) u64_mod
    then try_reserve_memory account (capacity * record_size) h
    else (err size_overflowed, h)

module _ {V : Type 0} where
  abbrev pub new_segment : ℕ → Reservation → FixedSegment V
  new_segment capacity memory = record { records = []; capacity = capacity; memory = memory ∷ [] }

  -- a round of the loop: the segment, another round, or the error
  unfoldable pub or_halve :
      ℕ
      → Result Reservation × Heap
      → (Heap → Result (FixedSegment V) × Heap)
      → Result (FixedSegment V) × Heap
  or_halve capacity (ok memory, h) retry = (ok (new_segment capacity memory), h)
  or_halve capacity (err e, h) retry =
      if ltb 1 capacity && is_limit (error_code e) then retry h else (err e, h)

  -- The loop of `allocate_fixed_segment`: half the capacity after a refusal by the budget. Each round
  -- but the last halves it, so the first capacity is fuel enough.
  unfoldable pub allocate : ℕ → ℕ → ResourceAccount → Heap → Result (FixedSegment V) × Heap
  unfolding reserve_records or_halve
  allocate zero capacity account h =
      or_halve capacity (reserve_records capacity account h) (λ h'. (err size_overflowed, h'))
  allocate (suc fuel) capacity account h =
      or_halve capacity (reserve_records capacity account h)
        (λ h'. allocate fuel (max (capacity / 2) 1) account h')

  unfoldable pub allocate_fixed_segment :
      ℕ → ResourceAccount → Heap → Result (FixedSegment V) × Heap
  unfolding allocate
  allocate_fixed_segment capacity = allocate capacity capacity

  unfoldable pub segment_is_full : Option (FixedSegment V) → Bool
  segment_is_full none = false
  segment_is_full (some segment) = length segment.records == segment.capacity

  -- `grow_fixed`: double the capacity, if the budget has the memory
  unfoldable pub grow :
      Option (FixedSegment V) → ResourceAccount → Heap → Result (Option (FixedSegment V)) × Heap
  unfolding reserve_records
  grow none account h = (ok none, h)
  grow (some segment) account h =
      let extra = max segment.capacity 1 in
      let (granted, h') = reserve_records extra account h in
      (
        granted >>= (λ memory. ok (
            some (record segment {
              capacity = segment.capacity + extra;
              memory = segment.memory ++ memory ∷ [];
            }))),
        h',
      )

  abbrev pub push_record : V → ℕ → FixedSegment V → FixedSegment V
  push_record value row segment = record segment { records = segment.records ++ (value, row) ∷ [] }

  -- `insert_fixed`
  unfoldable pub insert_fixed :
      Option (FixedSegment V) → ℕ → V → ℕ → ResourceAccount → Heap → Result (FixedSegment V) × Heap
  unfolding allocate_fixed_segment
  insert_fixed (some segment) desired value row account h = (ok (push_record value row segment), h)
  insert_fixed none desired value row account h =
      let (allocated, h') = allocate_fixed_segment desired account h in
      (allocated >>= (λ segment. ok (push_record value row segment)), h')
