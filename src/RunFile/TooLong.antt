-- ===== src/RunFile/TooLong.antt =====
-- What the cursor of distinct/run.rs does with a byte string that `write_bytes` accepts and it does not.
use proofframe.Prelude.{
  ℕ, suc, ◌+◌, ◌<◌, ◌^◌, ◌≡◌, refl, true, false, List, ◌∷◌, ◌++◌, length, arith, ltb, ◌==◌,
  append_assoc,
}
use proofframe.Error.{Result, ok, err, corrupt_data}
use proofframe.Resource.{u64_mod, ResourceAccount, Heap}
use proofframe.RunFile.{
  ValueKind, to_le_bytes, max_record_size, RunMeta, byte_payload, byte_total, byte_spec,
  write_sized, write_bytes,
}
use proofframe.RunFile.Cursor.{RunCursor, read_string, read_value, read_record, next, open_cursor}
use proofframe.RunFile.Bytes.{length-to_le_bytes, from_le_bytes-to_le_bytes}
use proofframe.RunFile.RoundTrip.{at, read_payload-append}
use proofframe.RunFile.Written.{open_cursor-run_of, write_run-ok}
use proofframe.RunFile.Strings.{byte_total-ok, length-byte_payload}

abbrev pub refusal : {A : Type 0} → Result A
refusal = err (corrupt_data "Exact run byte length exceeds its bounded payload")

read_value-too_long :
    (remaining q p : ℕ) (value rest : List ℕ)
    → max_record_size < length value
    → length value < 2 ^ 32
    → q ≡ 4 + p
    → read_value ValueKind.bytes
        (at ValueKind.bytes remaining q (to_le_bytes 4 (length value) ++ rest))
      ≡ refusal
unfolding read_value read_string
read_value-too_long remaining q p value rest long word total =
    let past : ltb max_record_size (length value) ≡ true = ground arith in
    rw
      (
        read_payload-append ValueKind.bytes remaining 4 q p (to_le_bytes 4 (length value)) rest
            (length-to_le_bytes 4 (length value)) total,
        from_le_bytes-to_le_bytes 4 (length value) (omega (arith, word)),
        past,
      )
      refl

next-too_long :
    (n q p row : ℕ) (value rest : List ℕ)
    → max_record_size < length value
    → length value < 2 ^ 32
    → q ≡ 4 + p
    → next (at ValueKind.bytes (suc n) q ((to_le_bytes 4 (length value) ++ value) ++ rest))
      ≡ refusal
unfolding next read_record
next-too_long n q p row value rest long word total =
    let some_left : (suc n == 0) ≡ false = ground arith in
    rw
      (
        some_left,
        append_assoc (to_le_bytes 4 (length value)) value rest,
        read_value-too_long (suc n) q p value (value ++ rest) long word total,
      )
      refl

module _ (blake3 : List ℕ → List ℕ) (account : ResourceAccount) (h : Heap) (run : RunMeta)
    (value : List ℕ) (row : ℕ) (records : List (List ℕ × ℕ)) where
  sized-too_long :
      (total : Result ℕ)
      → length (blake3 (byte_payload ((value, row) ∷ records))) ≡ 32
      → max_record_size < length value
      → length value < 2 ^ 32
      → suc (length records) < u64_mod
      → byte_total 0 ((value, row) ∷ records) ≡ total
      → (write_sized blake3 ((value, row) ∷ records) account h total).0 ≡ ok run
      → (c : RunCursor) × (open_cursor run ≡ ok c) × (next c ≡ refusal)
  unfolding write_sized
  sized-too_long (ok t) hash long word few sized e =
      let all = (value, row) ∷ records in
      let spec = byte_spec blake3 all t in
      let (small, (temp, same)) = write_run-ok spec (byte_payload all) account h run e in
      let written = byte_total-ok 0 t all sized in
      let size = length-byte_payload value row records in
      (
        at ValueKind.bytes (suc (length records)) t (byte_payload all),
        rw same (
            open_cursor-run_of spec (byte_payload all) temp hash (omega (arith, written)) few
              small),
        next-too_long (length records) t (8 + length value + length (byte_payload records)) row
            value (to_le_bytes 8 row ++ byte_payload records) long word
            (omega (arith, written, size)),
      )
  sized-too_long (err x) hash long word few sized e = cc

  -- A run whose first byte string is longer than 64 MiB, but below the 2 ^ 32 bytes that a record can
  -- state, is written and opens, and the cursor then refuses it as corrupt. The number of records is
  -- below 2 ^ 64, and a BLAKE3 hash has 32 bytes.
  pub write_bytes-too_long :
      ((input : List ℕ) → length (blake3 input) ≡ 32)
      → max_record_size < length value
      → length value < 2 ^ 32
      → suc (length records) < u64_mod
      → (write_bytes blake3 ((value, row) ∷ records) account h).0 ≡ ok run
      → (c : RunCursor) × (open_cursor run ≡ ok c) × (next c ≡ refusal)
  unfolding write_bytes
  write_bytes-too_long hash long word few e =
      sized-too_long (byte_total 0 ((value, row) ∷ records)) (hash _) long word few refl e
