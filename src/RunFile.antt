-- ===== src/RunFile.antt =====
-- distinct/run.rs: the file of a sorted run, how it is written, and the cursor that reads it back. Bytes
-- are numbers below 256, an i64 is the 64 bits of its two's complement, a float is its bits. The file
-- system keeps what is written to it: no read or write fails but at the end of the file.
pub mod Cursor
pub mod Bytes
pub mod RoundTrip
pub mod Verify
pub mod Written
pub mod Fixed
pub mod Strings
pub mod TooLong
mod Runs
use proofframe.Prelude.{
  ℕ, zero, suc, ◌+◌, ◌*◌, ◌/◌, ◌%◌, ◌^◌, max, Bool, List, [], ◌∷◌, ◌++◌, length, ◌==◌, ltb,
  if◌then◌else◌, String,
}
use proofframe.Error.{Result, ok, err, ◌>>=◌, ProofFrameError, corrupt_data}
use proofframe.Resource.{u64_mod, ResourceAccount, Reservation, Heap, try_reserve_temp}

pub data ValueKind : Type 0 where
  i64 u64 f64 bytes : ValueKind

pub data OwnedValue : Type 0 where
  i64 u64 f64 : ℕ → OwnedValue
  bytes : List ℕ → OwnedValue

-- the implementors of `FixedValue`, and their `KIND`
pub data FixedValue : Type 0 where
  i64 u64 f64 : FixedValue

abbrev pub const_kind : FixedValue → ValueKind
const_kind i64 = ValueKind.i64
const_kind u64 = ValueKind.u64
const_kind f64 = ValueKind.f64

abbrev pub into_owned : FixedValue → ℕ → OwnedValue
into_owned i64 value = OwnedValue.i64 value
into_owned u64 value = OwnedValue.u64 value
into_owned f64 value = OwnedValue.f64 value

abbrev pub tag : ValueKind → ℕ
tag i64 = 1
tag u64 = 2
tag f64 = 3
tag bytes = 4

abbrev pub from_tag : ℕ → Result ValueKind
from_tag t =
    if t == 1
    then ok ValueKind.i64
    else if t == 2
    then ok ValueKind.u64
    else if t == 3
    then ok ValueKind.f64
    else if t == 4
    then ok ValueKind.bytes
    else err (corrupt_data "Exact run value kind is invalid")

-- `to_le_bytes` and `from_le_bytes` of an integer of n bytes
unfoldable pub to_le_bytes : ℕ → ℕ → List ℕ
to_le_bytes zero x = []
to_le_bytes (suc n) x = x % 256 ∷ to_le_bytes n (x / 256)

unfoldable pub from_le_bytes : List ℕ → ℕ
from_le_bytes [] = 0
from_le_bytes (b ∷ bs) = b + 256 * from_le_bytes bs

abbrev pub magic : List ℕ
magic = 80 ∷ 70 ∷ 82 ∷ 85 ∷ 78 ∷ 48 ∷ 48 ∷ 49 ∷ []

abbrev pub header_bytes : ℕ
header_bytes = 60

abbrev pub max_record_size : ℕ
max_record_size = 64 * 1024 * 1024

-- `path` stands for what the file holds
pub record RunMeta : Type 0 where
  pub file : List ℕ
  pub kind : ValueKind
  pub records : ℕ
  pub payload_bytes : ℕ
  pub max_record_bytes : ℕ
  pub checksum : List ℕ
  pub temp : Reservation

pub record RunSpec : Type 0 where
  pub kind : ValueKind
  pub records : ℕ
  pub payload_bytes : ℕ
  pub checksum : List ℕ
  pub max_record_bytes : ℕ

abbrev pub header : RunSpec → List ℕ
header spec =
    magic
    ++ (to_le_bytes 2 1
        ++ ((tag spec.kind ∷ 0 ∷ [])
            ++ (to_le_bytes 8 spec.records ++ (to_le_bytes 8 spec.payload_bytes ++ spec.checksum))))

-- `write_run`, of the bytes that `write_payload` writes
unfoldable pub write_run : RunSpec → List ℕ → ResourceAccount → Heap → Result RunMeta × Heap
write_run spec payload account h =
    if ltb (header_bytes + spec.payload_bytes) u64_mod
    then (let (reservation, h') = try_reserve_temp account (header_bytes + spec.payload_bytes) h in
        (
          reservation >>= (λ temp. ok (record {
            file = header spec ++ payload;
            kind = spec.kind;
            records = spec.records;
            payload_bytes = spec.payload_bytes;
            max_record_bytes = spec.max_record_bytes;
            checksum = spec.checksum;
            temp = temp;
          })),
          h',
        ))
    else (err (corrupt_data "Exact run size overflowed u64"), h)

-- the bytes of the records of a fixed width, each a value and its row
abbrev pub fixed_payload : List (ℕ × ℕ) → List ℕ
fixed_payload [] = []
fixed_payload ((value, row) ∷ records) =
    to_le_bytes 8 value ++ (to_le_bytes 8 row ++ fixed_payload records)

abbrev pub fixed_spec : (List ℕ → List ℕ) → FixedValue → List (ℕ × ℕ) → RunSpec
fixed_spec blake3 value_type records = record {
  kind = const_kind value_type;
  records = length records;
  payload_bytes = length records * 16;
  checksum = blake3 (fixed_payload records);
  max_record_bytes = 8;
}

-- `write_fixed`, with the checksum over the bytes that are written
unfoldable pub write_fixed :
    (List ℕ → List ℕ) → FixedValue → List (ℕ × ℕ) → ResourceAccount → Heap → Result RunMeta × Heap
unfolding write_run
write_fixed blake3 value_type records account h =
    if ltb (length records * 16) u64_mod
    then write_run (fixed_spec blake3 value_type records) (fixed_payload records) account h
    else (err (corrupt_data "Exact run size overflowed u64"), h)

-- the bytes of the records of byte strings, each with its length in front
abbrev pub byte_payload : List (List ℕ × ℕ) → List ℕ
byte_payload [] = []
byte_payload ((value, row) ∷ records) =
    (to_le_bytes 4 (length value) ++ value) ++ (to_le_bytes 8 row ++ byte_payload records)

-- `try_fold` of the sizes
abbrev pub byte_total : ℕ → List (List ℕ × ℕ) → Result ℕ
byte_total total [] = ok total
byte_total total ((value, row) ∷ records) =
    let rest = byte_total (total + 12 + length value) records in
    if ltb (total + 12 + length value) u64_mod
    then rest
    else err (corrupt_data "Exact byte run overflowed u64")

abbrev pub longest : List (List ℕ × ℕ) → ℕ
longest [] = 0
longest ((value, row) ∷ records) = max (length value) (longest records)

abbrev pub byte_spec : (List ℕ → List ℕ) → List (List ℕ × ℕ) → ℕ → RunSpec
byte_spec blake3 records total = record {
  kind = ValueKind.bytes;
  records = length records;
  payload_bytes = total;
  checksum = blake3 (byte_payload records);
  max_record_bytes = longest records;
}

-- `write_bytes` by the sum of the sizes
unfoldable pub write_sized :
    (List ℕ → List ℕ)
    → List (List ℕ × ℕ)
    → ResourceAccount
    → Heap
    → Result ℕ
    → Result RunMeta × Heap
unfolding write_run
write_sized blake3 records account h (ok total) =
    write_run (byte_spec blake3 records total) (byte_payload records) account h
write_sized blake3 records account h (err e) = (err e, h)

-- `write_bytes`, of the values that the indices name in the arena
unfoldable pub write_bytes :
    (List ℕ → List ℕ) → List (List ℕ × ℕ) → ResourceAccount → Heap → Result RunMeta × Heap
unfolding write_sized
write_bytes blake3 records account h = write_sized blake3 records account h (byte_total 0 records)
