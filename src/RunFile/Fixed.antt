-- ===== src/RunFile/Fixed.antt =====
-- The runs of `write_fixed` of distinct/run.rs, read back.
use proofframe.Prelude.{
  ℕ, suc, ◌*◌, ◌<◌, ◌≡◌, refl, ap, List, [], ◌∷◌, ◌++◌, length, length-append, arith, ltb, All,
  Bool-cases, inl, inr,
}
use proofframe.Error.{Result, ok}
use proofframe.Resource.{u64_mod, ResourceAccount, Heap}
use proofframe.RunFile.{
  OwnedValue, FixedValue, const_kind, into_owned, to_le_bytes, RunMeta, fixed_payload, write_fixed,
  fixed_spec,
}
use proofframe.RunFile.Cursor.{RunCursor, open_cursor}
use proofframe.RunFile.Bytes.{length-to_le_bytes}
use proofframe.RunFile.RoundTrip.{value_bytes, payload, Fits, Reads}
use proofframe.RunFile.Written.{write_run-Reads}

-- the records of a fixed width, as the cursor answers them
abbrev pub owned : FixedValue → List (ℕ × ℕ) → List (OwnedValue × ℕ)
owned t [] = []
owned t ((value, row) ∷ records) = (into_owned t value, row) ∷ owned t records

abbrev pub IsU64 : ℕ × ℕ → Type 0
IsU64 (value, row) = (value < u64_mod) × (row < u64_mod)

into_owned-Fits :
    (t : FixedValue) (value row : ℕ)
    → value < u64_mod
    → row < u64_mod
    → Fits (const_kind t) (into_owned t value, row)
into_owned-Fits FixedValue.i64 value row small few = (refl, small, few)
into_owned-Fits FixedValue.u64 value row small few = (refl, small, few)
into_owned-Fits FixedValue.f64 value row small few = (refl, small, few)

value_bytes-into_owned :
    (t : FixedValue) (value : ℕ) → value_bytes (into_owned t value) ≡ to_le_bytes 8 value
value_bytes-into_owned FixedValue.i64 value = refl
value_bytes-into_owned FixedValue.u64 value = refl
value_bytes-into_owned FixedValue.f64 value = refl

owned-Fits :
    (t : FixedValue) (records : List (ℕ × ℕ))
    → All IsU64 records
    → All (Fits (const_kind t)) (owned t records)
owned-Fits t [] fits = tt
owned-Fits t ((value, row) ∷ records) ((small, few), fits) =
    (into_owned-Fits t value row small few, owned-Fits t records fits)

length-owned : (t : FixedValue) (records : List (ℕ × ℕ)) → length (owned t records) ≡ length records
length-owned t [] = refl
length-owned t (r ∷ records) = ap suc (length-owned t records)

payload-owned :
    (t : FixedValue) (records : List (ℕ × ℕ)) → payload (owned t records) ≡ fixed_payload records
payload-owned t [] = refl
payload-owned t ((value, row) ∷ records) =
    rw (value_bytes-into_owned t value, payload-owned t records) refl

length-fixed_payload :
    (records : List (ℕ × ℕ)) → length (fixed_payload records) ≡ length records * 16
length-fixed_payload [] = refl
length-fixed_payload ((value, row) ∷ records) =
    let rest = fixed_payload records in
    omega (
      arith,
      length-append (to_le_bytes 8 value) (to_le_bytes 8 row ++ rest),
      length-append (to_le_bytes 8 row) rest,
      length-to_le_bytes 8 value,
      length-to_le_bytes 8 row,
      length-fixed_payload records,
    )

module _ (blake3 : List ℕ → List ℕ) (account : ResourceAccount) (h : Heap) (run : RunMeta) where
  -- A run of integers or floats that `write_fixed` wrote opens, and the cursor answers exactly the
  -- records that were written, in their order, and then that none is left: no check of the header, of
  -- the sizes or of the end of the file refuses it. Values and rows are below 2 ^ 64, and a BLAKE3 hash
  -- has 32 bytes.
  pub write_fixed-Reads :
      ((input : List ℕ) → length (blake3 input) ≡ 32)
      → (t : FixedValue) (records : List (ℕ × ℕ)) → All IsU64 records
      → (write_fixed blake3 t records account h).0 ≡ ok run
      → (c : RunCursor) × (open_cursor run ≡ ok c) × Reads c (owned t records)
  unfolding write_fixed
  write_fixed-Reads hash t records fits e = elim (Bool-cases (ltb (length records * 16) u64_mod)) [
    | inl small ↦
        write_run-Reads (fixed_spec blake3 t records) (owned t records) account h run
          (hash (fixed_payload records))
          (rw (payload-owned t records) (length-fixed_payload records)) (length-owned t records)
          (ground arith) (owned-Fits t records fits) (rw (payload-owned t records) (rw small at e))
    | inr large ↦ let clash : Result.err _ ≡ ok run = (rw large at e) in cc
  ]
