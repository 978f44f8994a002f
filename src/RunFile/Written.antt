-- ===== src/RunFile/Written.antt =====
-- What `open` and `next` of distinct/run.rs make of the runs that `write_run` wrote.
use proofframe.Prelude.{
  ℕ, ◌+◌, ◌<◌, ◌≡◌, refl, sym, true, List, [], ◌∷◌, ◌++◌, length, length-append, arith, ltb, ◌==◌,
  All, append_assoc, Bool-cases, inl, inr,
}
use proofframe.Error.{Result, ok, bind-ok, ok-eq}
use proofframe.Resource.{u64_mod, ResourceAccount, Heap, Reservation, try_reserve_temp}
use proofframe.Receipt.Trust.{same_bytes_refl}
use proofframe.RunFile.{
  ValueKind, OwnedValue, tag, from_tag, to_le_bytes, magic, header, header_bytes, RunMeta, RunSpec,
  write_run,
}
use proofframe.RunFile.Cursor.{RunCursor, unchanged, open_cursor}
use proofframe.RunFile.Bytes.{
  length-to_le_bytes, from_le_bytes-to_le_bytes, read_exact_partition-append,
}
use proofframe.RunFile.RoundTrip.{at, payload, Fits, Reads, Reads-payload}

from_tag-tag : (kind : ValueKind) → from_tag (tag kind) ≡ ok kind
from_tag-tag ValueKind.i64 = refl
from_tag-tag ValueKind.u64 = refl
from_tag-tag ValueKind.f64 = refl
from_tag-tag ValueKind.bytes = refl

-- what a run's file holds
abbrev image : RunSpec → List ℕ → List ℕ
image spec written =
    magic
    ++ (to_le_bytes 2 1
        ++ ((tag spec.kind ∷ 0 ∷ [])
            ++ (to_le_bytes 8 spec.records
                ++ (to_le_bytes 8 spec.payload_bytes ++ (spec.checksum ++ written)))))

header-image : (spec : RunSpec) (written : List ℕ) → header spec ++ written ≡ image spec written
header-image spec written =
    rw
      (
        append_assoc (to_le_bytes 2 1)
            ((tag spec.kind ∷ 0 ∷ [])
              ++ (to_le_bytes 8 spec.records
                  ++ (to_le_bytes 8 spec.payload_bytes ++ spec.checksum)))
            written,
        append_assoc (to_le_bytes 8 spec.records)
            (to_le_bytes 8 spec.payload_bytes ++ spec.checksum) written,
        append_assoc (to_le_bytes 8 spec.payload_bytes) spec.checksum written,
      )
      refl

length-image :
    (spec : RunSpec) (written : List ℕ)
    → length spec.checksum ≡ 32
    → length written ≡ spec.payload_bytes
    → length (image spec written) ≡ header_bytes + spec.payload_bytes
length-image spec written hash long =
    rw
      (
        length-append (to_le_bytes 2 1) (
            (tag spec.kind ∷ 0 ∷ [])
            ++ (to_le_bytes 8 spec.records
                ++ (to_le_bytes 8 spec.payload_bytes ++ (spec.checksum ++ written)))),
        length-append (to_le_bytes 8 spec.records)
            (to_le_bytes 8 spec.payload_bytes ++ (spec.checksum ++ written)),
        length-append (to_le_bytes 8 spec.payload_bytes) (spec.checksum ++ written),
        length-append spec.checksum written,
        length-to_le_bytes 2 1,
        length-to_le_bytes 8 spec.records,
        length-to_le_bytes 8 spec.payload_bytes,
      )
      (omega arith)

unchanged_lem :
    (run : RunMeta) (rest : List ℕ)
    → unchanged run run.kind run.records run.payload_bytes run.checksum rest
      ≡ ok (at run.kind run.records run.payload_bytes rest)
unfolding unchanged
unchanged_lem run rest =
    let a : (tag run.kind == tag run.kind) ≡ true = ground arith in
    let b : (run.records == run.records) ≡ true = ground arith in
    let c : (run.payload_bytes == run.payload_bytes) ≡ true = ground arith in
    rw (a, b, c, same_bytes_refl run.checksum) refl

-- the run that `write_run` answers
abbrev pub run_of : RunSpec → List ℕ → Reservation → RunMeta
run_of spec written temp = record {
  file = header spec ++ written;
  kind = spec.kind;
  records = spec.records;
  payload_bytes = spec.payload_bytes;
  max_record_bytes = spec.max_record_bytes;
  checksum = spec.checksum;
  temp = temp;
}

pub open_cursor-run_of :
    (spec : RunSpec) (written : List ℕ) (temp : Reservation)
    → length spec.checksum ≡ 32
    → length written ≡ spec.payload_bytes
    → spec.records < u64_mod
    → spec.payload_bytes < u64_mod
    → open_cursor (run_of spec written temp)
      ≡ ok (at spec.kind spec.records spec.payload_bytes written)
unfolding open_cursor to_le_bytes
open_cursor-run_of spec written temp hash long few small =
    let same_size : (header_bytes + spec.payload_bytes == header_bytes + spec.payload_bytes)
        ≡ true =
      ground arith in
    let tail = spec.checksum ++ written in
    let sized = to_le_bytes 8 spec.payload_bytes ++ tail in
    let counted = to_le_bytes 8 spec.records ++ sized in
    let kinded = (tag spec.kind ∷ 0 ∷ []) ++ counted in
    rw
      (
        header-image spec written,
        length-image spec written hash long,
        same_size,
        read_exact_partition-append 8 magic (to_le_bytes 2 1 ++ kinded) refl,
        same_bytes_refl magic,
        read_exact_partition-append 2 (to_le_bytes 2 1) kinded (length-to_le_bytes 2 1),
        from_le_bytes-to_le_bytes 2 1 (omega arith),
        read_exact_partition-append 2 (tag spec.kind ∷ 0 ∷ []) counted refl,
        from_tag-tag spec.kind,
        read_exact_partition-append 8 (to_le_bytes 8 spec.records) sized
            (length-to_le_bytes 8 spec.records),
        read_exact_partition-append 8 (to_le_bytes 8 spec.payload_bytes) tail
            (length-to_le_bytes 8 spec.payload_bytes),
        read_exact_partition-append 32 spec.checksum written hash,
        from_le_bytes-to_le_bytes 8 spec.records few,
        from_le_bytes-to_le_bytes 8 spec.payload_bytes small,
      )
      (unchanged_lem (run_of spec written temp) written)

-- Where it ends without an error, `write_run` answers the run, and the size fits 64 bits.
pub write_run-ok :
    (spec : RunSpec) (written : List ℕ) (account : ResourceAccount) (h : Heap) (run : RunMeta)
    → (write_run spec written account h).0 ≡ ok run
    → (spec.payload_bytes < u64_mod) × ((temp : Reservation) × (run ≡ run_of spec written temp))
unfolding write_run
write_run-ok spec written account h run e =
    elim (Bool-cases (ltb (header_bytes + spec.payload_bytes) u64_mod)) [
      | inl small ↦
          let granted = rw small at e in
          let (temp, reserved, built) =
            bind-ok (try_reserve_temp account (header_bytes + spec.payload_bytes) h).0
              (λ temp. ok (run_of spec written temp)) run granted in
          (ground arith, (temp, sym (ok-eq _ _ built)))
      | inr large ↦ let clash : Result.err _ ≡ ok run = (rw large at e) in cc
    ]

-- A run that was written with the records of its payload opens, and its cursor reads them.
pub write_run-Reads :
    (spec : RunSpec) (rs : List (OwnedValue × ℕ)) (account : ResourceAccount) (h : Heap)
    (run : RunMeta)
    → length spec.checksum ≡ 32
    → length (payload rs) ≡ spec.payload_bytes
    → length rs ≡ spec.records
    → spec.records < u64_mod
    → All (Fits spec.kind) rs
    → (write_run spec (payload rs) account h).0 ≡ ok run
    → (c : RunCursor) × (open_cursor run ≡ ok c) × Reads c rs
write_run-Reads spec rs account h run hash long many few fits e =
    let (small, (temp, same)) = write_run-ok spec (payload rs) account h run e in
    (
      at spec.kind spec.records spec.payload_bytes (payload rs),
      rw same (open_cursor-run_of spec (payload rs) temp hash long few small),
      rw (sym many, sym long) (Reads-payload spec.kind rs fits),
    )
