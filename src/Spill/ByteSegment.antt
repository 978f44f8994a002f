-- ===== src/Spill/ByteSegment.antt =====
-- The segment of byte strings in distinct/mod.rs: an arena with the index of its values, how it is allocated,
-- filled and enlarged.
use proofframe.Prelude.{
  ℕ, zero, suc, ◌+◌, ◌-◌, ◌*◌, ◌/◌, ◌^◌, max, min, Bool, false, ◌&&◌, ◌||◌, List, [], ◌∷◌, ◌++◌,
  map, Option, none, some, length, take, drop, ltb, ◌==◌, if◌then◌else◌,
}
use proofframe.Error.{Result, ok, err, ◌>>=◌, error_code, corrupt_data, resource_limit}
use proofframe.Resource.{u64_mod, ResourceAccount, Reservation, Heap, try_reserve_memory}
use proofframe.Distinct.{Rec}
use proofframe.Spill.Segment.{is_limit}

pub record ByteIndex : Type 0 where
  pub offset : ℕ
  pub size : ℕ
  pub row : ℕ

-- the size of an index, and `u32::MAX`
abbrev pub index_size : ℕ
index_size = 16

abbrev pub u32_max : ℕ
u32_max = 2 ^ 32 - 1

pub record ByteSegment : Type 0 where
  pub arena : List ℕ
  pub records : List ByteIndex
  pub record_capacity : ℕ
  pub byte_capacity : ℕ
  pub memory : List Reservation

abbrev pub value_of : List ℕ → ByteIndex → List ℕ
value_of arena index = take index.size (drop index.offset arena)

abbrev pub record_at : List ℕ → ByteIndex → Rec (List ℕ)
record_at arena index = (value_of arena index, index.row)

abbrev pub values : Option ByteSegment → List (Rec (List ℕ))
values none = []
values (some segment) = map (record_at segment.arena) segment.records

-- the memory of so many places in the index and bytes in the arena
unfoldable pub reserve_bytes : ℕ → ℕ → ResourceAccount → Heap → Result Reservation × Heap
reserve_bytes records bytes account h =
    if ltb (records * index_size) u64_mod
    then (if ltb (records * index_size + bytes) u64_mod
        then try_reserve_memory account (records * index_size + bytes) h
        else (err (corrupt_data "Exact byte arena overflowed"), h))
    else (err (corrupt_data "Exact byte index overflowed"), h)

-- a round of the loop: the segment, another round, or the error
unfoldable pub or_halve_bytes :
    ℕ
    → ℕ
    → ℕ
    → Result Reservation × Heap
    → (Heap → Result ByteSegment × Heap)
    → Result ByteSegment × Heap
or_halve_bytes minimum records bytes (ok memory, h) retry = (
  ok (record {
    arena = [];
    records = [];
    record_capacity = records;
    byte_capacity = bytes;
    memory = memory ∷ [];
  }),
  h,
)
or_halve_bytes minimum records bytes (err e, h) retry =
    if is_limit (error_code e) && (ltb 1 records || ltb minimum bytes) then retry h else (err e, h)

-- The loop of `allocate_byte_segment`. Each round but the last halves one of the capacities, so their sum is
-- fuel enough.
unfoldable pub allocate_bytes : ℕ → ℕ → ℕ → ℕ → ResourceAccount → Heap → Result ByteSegment × Heap
unfolding reserve_bytes or_halve_bytes
allocate_bytes zero minimum records bytes account h =
    or_halve_bytes minimum records bytes (reserve_bytes records bytes account h)
      (λ h'. (err (corrupt_data "Exact byte arena overflowed"), h'))
allocate_bytes (suc fuel) minimum records bytes account h =
    or_halve_bytes minimum records bytes (reserve_bytes records bytes account h)
      (λ h'. allocate_bytes fuel minimum (max (records / 2) 1) (max (bytes / 2) minimum) account h')

abbrev pub first_bytes : ℕ → ℕ → ℕ
first_bytes desired minimum = max minimum (min (min (desired * 32) (u64_mod - 1)) u32_max)

unfoldable pub allocate_byte_segment : ℕ → ℕ → ResourceAccount → Heap → Result ByteSegment × Heap
unfolding allocate_bytes
allocate_byte_segment desired minimum =
    allocate_bytes (desired + first_bytes desired minimum) minimum desired
      (first_bytes desired minimum)

unfoldable pub byte_store_is_full : Option ByteSegment → List ℕ → Bool
byte_store_is_full none value = false
byte_store_is_full (some segment) value =
    (length segment.records == segment.record_capacity)
    || ltb (segment.byte_capacity - length segment.arena) (length value)

abbrev pub push_value : List ℕ → ℕ → ByteSegment → ByteSegment
push_value value row segment = record segment {
  arena = segment.arena ++ value;
  records =
      segment.records
      ++ record { offset = length segment.arena; size = length value; row = row } ∷ [];
}

-- the value in the segment, which is allocated first where there is none
unfoldable pub store_bytes :
    Option ByteSegment → ℕ → List ℕ → ℕ → ResourceAccount → Heap → Result ByteSegment × Heap
unfolding allocate_byte_segment
store_bytes (some segment) desired value row account h = (ok (push_value value row segment), h)
store_bytes none desired value row account h =
    let (allocated, h') = allocate_byte_segment desired (length value) account h in
    (allocated >>= (λ segment. ok (push_value value row segment)), h')

unfoldable pub insert_bytes :
    Option ByteSegment → ℕ → List ℕ → ℕ → ResourceAccount → Heap → Result ByteSegment × Heap
unfolding store_bytes
insert_bytes segment desired value row account h =
    if ltb u32_max (length value)
    then (err (resource_limit "single exact value" (length value) 0 u32_max), h)
    else store_bytes segment desired value row account h

abbrev pub extra_records : ByteSegment → ℕ
extra_records segment =
    if length segment.records == segment.record_capacity then max segment.record_capacity 1 else 0

abbrev pub extra_bytes : ByteSegment → ℕ → ℕ
extra_bytes segment size =
    let free = segment.byte_capacity - length segment.arena in
    if ltb free size then max (max segment.byte_capacity (size - free)) 1 else 0

abbrev pub enlarged : ByteSegment → ℕ → ℕ → Reservation → ByteSegment
enlarged segment records bytes memory = record segment {
  record_capacity = segment.record_capacity + records;
  byte_capacity = segment.byte_capacity + bytes;
  memory = segment.memory ++ memory ∷ [];
}

unfoldable pub grow_bytes :
    Option ByteSegment → ℕ → ResourceAccount → Heap → Result (Option ByteSegment) × Heap
unfolding reserve_bytes
grow_bytes none size account h = (ok none, h)
grow_bytes (some segment) size account h =
    let records = extra_records segment in
    let bytes = extra_bytes segment size in
    if ltb u32_max (segment.byte_capacity + bytes)
    then (err (resource_limit "exact_state_arena" bytes segment.byte_capacity u32_max), h)
    else (let (granted, h') = reserve_bytes records bytes account h in
        (granted >>= (λ memory. ok (some (enlarged segment records bytes memory))), h'))
