-- ===== src/RunFile/Strings.antt =====
-- The runs of `write_bytes` of distinct/run.rs, read back.
use proofframe.Prelude.{
  ℕ, suc, ◌+◌, ◌<◌, ◌≤◌, ◌≡◌, refl, ap, List, [], ◌∷◌, ◌++◌, length, length-append, arith, ltb, All,
  Bool-cases, inl, inr,
}
use proofframe.Error.{Result, ok, err, ok-eq}
use proofframe.Resource.{u64_mod, ResourceAccount, Heap}
use proofframe.RunFile.{
  ValueKind, OwnedValue, to_le_bytes, max_record_size, RunMeta, byte_payload, byte_total,
  write_bytes, write_sized, byte_spec,
}
use proofframe.RunFile.Cursor.{RunCursor, open_cursor}
use proofframe.RunFile.Bytes.{length-to_le_bytes}
use proofframe.RunFile.RoundTrip.{payload, Fits, Reads}
use proofframe.RunFile.Written.{write_run-Reads}

-- the records of byte strings, as the cursor answers them
abbrev pub strings : List (List ℕ × ℕ) → List (OwnedValue × ℕ)
strings [] = []
strings ((value, row) ∷ records) = (OwnedValue.bytes value, row) ∷ strings records

abbrev pub IsBounded : List ℕ × ℕ → Type 0
IsBounded (value, row) = (length value ≤ max_record_size) × (row < u64_mod)

strings-Fits :
    (records : List (List ℕ × ℕ))
    → All IsBounded records
    → All (Fits ValueKind.bytes) (strings records)
strings-Fits [] fits = tt
strings-Fits ((value, row) ∷ records) ((small, few), fits) =
    ((refl, small, few), strings-Fits records fits)

length-strings : (records : List (List ℕ × ℕ)) → length (strings records) ≡ length records
length-strings [] = refl
length-strings (r ∷ records) = ap suc (length-strings records)

payload-strings : (records : List (List ℕ × ℕ)) → payload (strings records) ≡ byte_payload records
payload-strings [] = refl
payload-strings ((value, row) ∷ records) = rw (payload-strings records) refl

pub length-byte_payload :
    (value : List ℕ) (row : ℕ) (records : List (List ℕ × ℕ))
    → length (byte_payload ((value, row) ∷ records))
      ≡ 12 + length value + length (byte_payload records)
length-byte_payload value row records =
    let rest = byte_payload records in
    let size = to_le_bytes 4 (length value) in
    omega (
      arith,
      length-append (size ++ value) (to_le_bytes 8 row ++ rest),
      length-append size value,
      length-append (to_le_bytes 8 row) rest,
      length-to_le_bytes 4 (length value),
      length-to_le_bytes 8 row,
    )

pub byte_total-ok :
    (total t : ℕ) (records : List (List ℕ × ℕ))
    → byte_total total records ≡ ok t
    → t ≡ total + length (byte_payload records)
byte_total-ok total t [] e = omega (arith, ok-eq _ _ e)
byte_total-ok total t ((value, row) ∷ records) e =
    elim (Bool-cases (ltb (total + 12 + length value) u64_mod)) [
      | inl small ↦
          let rest = byte_total-ok (total + 12 + length value) t records (rw small at e) in
          omega (arith, rest, length-byte_payload value row records)
      | inr large ↦ let clash : Result.err _ ≡ ok t = (rw large at e) in cc
    ]

many-byte_payload : (records : List (List ℕ × ℕ)) → length records ≤ length (byte_payload records)
many-byte_payload [] = omega arith
many-byte_payload ((value, row) ∷ records) =
    omega (arith, many-byte_payload records, length-byte_payload value row records)

module _ (blake3 : List ℕ → List ℕ) (account : ResourceAccount) (h : Heap) (run : RunMeta) where
  write_sized-Reads :
      (records : List (List ℕ × ℕ)) (total : Result ℕ)
      → length (blake3 (byte_payload records)) ≡ 32
      → All IsBounded records
      → length records < u64_mod
      → byte_total 0 records ≡ total
      → (write_sized blake3 records account h total).0 ≡ ok run
      → (c : RunCursor) × (open_cursor run ≡ ok c) × Reads c (strings records)
  unfolding write_sized
  write_sized-Reads records (ok t) hash fits few sized e =
      write_run-Reads (byte_spec blake3 records t) (strings records) account h run hash
        (rw (payload-strings records) (omega (arith, byte_total-ok 0 t records sized)))
        (length-strings records) few (strings-Fits records fits) (rw (payload-strings records) e)
  write_sized-Reads records (err x) hash fits few sized e = cc

  -- A run of byte strings that `write_bytes` wrote opens, and the cursor answers exactly the records
  -- that were written, in their order, and then that none is left, as long as no string is longer than
  -- the 64 MiB that the cursor allows. Rows and the number of records are below 2 ^ 64, and a BLAKE3
  -- hash has 32 bytes.
  pub write_bytes-Reads :
      ((input : List ℕ) → length (blake3 input) ≡ 32)
      → (records : List (List ℕ × ℕ)) → All IsBounded records
      → length records < u64_mod
      → (write_bytes blake3 records account h).0 ≡ ok run
      → (c : RunCursor) × (open_cursor run ≡ ok c) × Reads c (strings records)
  unfolding write_bytes
  write_bytes-Reads hash records fits few e =
      write_sized-Reads records (byte_total 0 records) (hash (byte_payload records)) fits few refl e
