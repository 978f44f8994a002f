-- ===== src/RunFile/Cursor.antt =====
-- `RunCursor` of distinct/run.rs: `open`, `next` and the reads that they are made of.
use proofframe.Prelude.{
  ℕ, ◌+◌, ◌-◌, ◌||◌, not, List, [], ◌∷◌, Option, none, some, length, take, drop, ◌==◌, ltb,
  if◌then◌else◌,
}
use proofframe.Error.{Result, ok, err, ◌>>=◌, ◌>>◌, corrupt_data}
use proofframe.Receipt.Trust.{same_bytes}
use proofframe.RunFile.{
  ValueKind, OwnedValue, tag, from_tag, from_le_bytes, magic, header_bytes, max_record_size,
  RunMeta,
}

-- `reader` holds the bytes of the file that were not read yet
pub record RunCursor : Type 0 where
  pub reader : List ℕ
  pub kind : ValueKind
  pub remaining : ℕ
  pub payload_remaining : ℕ

unfoldable pub read_exact_partition : ℕ → List ℕ → Result (List ℕ × List ℕ)
read_exact_partition n reader =
    if ltb (length reader) n
    then err (corrupt_data "Exact run is truncated")
    else ok (take n reader, drop n reader)

unfoldable pub read_payload : ℕ → RunCursor → Result (List ℕ × RunCursor)
read_payload n c =
    if ltb c.payload_remaining n
    then err (corrupt_data "Exact run record crosses the payload boundary")
    else (read_exact_partition n c.reader
        >>= (λ r. ok (r.0, record c { reader = r.1; payload_remaining = c.payload_remaining - n })))

-- the rest of a byte string's record, after its length
unfoldable pub read_string : ℕ → RunCursor → Result (OwnedValue × RunCursor)
unfolding read_payload
read_string n c =
    if ltb max_record_size n || ltb (c.payload_remaining - 8) n
    then err (corrupt_data "Exact run byte length exceeds its bounded payload")
    else read_payload n c >>= (λ r. ok (OwnedValue.bytes r.0, r.1))

unfoldable pub read_value : ValueKind → RunCursor → Result (OwnedValue × RunCursor)
unfolding read_payload read_string
read_value ValueKind.i64 c =
    read_payload 8 c >>= (λ r. ok (OwnedValue.i64 (from_le_bytes r.0), r.1))
read_value ValueKind.u64 c =
    read_payload 8 c >>= (λ r. ok (OwnedValue.u64 (from_le_bytes r.0), r.1))
read_value ValueKind.f64 c =
    read_payload 8 c >>= (λ r. ok (OwnedValue.f64 (from_le_bytes r.0), r.1))
read_value ValueKind.bytes c = read_payload 4 c >>= (λ r. read_string (from_le_bytes r.0) r.1)

abbrev pub verify_end : RunCursor → Result (Unit {0})
verify_end c =
    if c.payload_remaining == 0
    then (if length c.reader == 0
        then ok tt
        else err (corrupt_data "Exact run contains trailing bytes"))
    else err (corrupt_data "Exact run record count does not consume its payload")

-- the value and the row, where a record remains
unfoldable pub read_record : RunCursor → Result (Option (OwnedValue × ℕ) × RunCursor)
unfolding read_value read_payload
read_record c = read_value c.kind c >>= (λ v.
    read_payload 8 v.1
    >>= (λ r. ok (some (v.0, from_le_bytes r.0), record r.1 { remaining = c.remaining - 1 })))

unfoldable pub next : RunCursor → Result (Option (OwnedValue × ℕ) × RunCursor)
unfolding read_record
next c = if c.remaining == 0 then verify_end c >> ok (none, c) else read_record c

-- the comparison of the header with what was written, at the end of `open`
unfoldable pub unchanged : RunMeta → ValueKind → ℕ → ℕ → List ℕ → List ℕ → Result RunCursor
unchanged run kind records payload_bytes checksum reader =
    if not (tag kind == tag run.kind)
      || not (records == run.records)
      || not (payload_bytes == run.payload_bytes)
      || not (same_bytes checksum run.checksum)
    then err (corrupt_data "Exact run metadata changed after creation")
    else ok (record {
      reader = reader;
      kind = kind;
      remaining = records;
      payload_remaining = payload_bytes;
    })

-- the first byte of two; the second is not looked at
abbrev pub first_byte : List ℕ → ℕ
first_byte [] = 0
first_byte (b ∷ bs) = b

unfoldable pub open_cursor : RunMeta → Result RunCursor
open_cursor run =
    if length run.file == header_bytes + run.payload_bytes
    then (read_exact_partition 8 run.file >>= (λ m.
        if same_bytes m.0 magic
        then (read_exact_partition 2 m.1 >>= (λ v.
            if from_le_bytes v.0 == 1
            then (read_exact_partition 2 v.1 >>= (λ k. from_tag (first_byte k.0) >>= (λ kind.
                read_exact_partition 8 k.1 >>= (λ n. read_exact_partition 8 n.1 >>= (λ p.
                  read_exact_partition 32 p.1
                  >>= (λ c. unchanged run kind (from_le_bytes n.0) (from_le_bytes p.0) c.0 c.1))))))
            else err (corrupt_data "Exact run version is unsupported")))
        else err (corrupt_data "Exact run magic is invalid")))
    else err (corrupt_data "Exact run length does not match its header")
