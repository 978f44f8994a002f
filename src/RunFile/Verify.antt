-- ===== src/RunFile/Verify.antt =====
-- `verify_payload` of distinct/run.rs: the checksum of a run, computed from its file. Each round reads a
-- byte or more, so the size of the payload is fuel enough; `none` would be its end.
use proofframe.Prelude.{
  ℕ, zero, suc, ◌+◌, ◌-◌, ◌≤◌, ◌≡◌, refl, sym, ap, ◌∙◌, ◌↔◌, Bool, true, false, List, [], ◌∷◌, ◌++◌,
  Option, none, some, length, take, drop, take-append-drop, min, arith, ltb, ◌==◌, if◌then◌else◌,
  append_assoc, append-nil, Bool-cases, inl, inr, ==_iff,
}
use proofframe.Error.{Result, ok, err, corrupt_data}
use proofframe.Resource.{check}
use proofframe.Distinct.Merge.{checked}
use proofframe.Receipt.Trust.{same_bytes, same_bytes_refl, same_bytes-eq}
use proofframe.RunFile.{RunMeta, header_bytes}
use proofframe.RunFile.Cursor.{read_exact_partition}

module _ (blake3 : List ℕ → List ℕ) (flag : ℕ → Bool) where
  -- what the bytes that were hashed say of the checksum
  unfoldable pub checksum_of : RunMeta → List ℕ → Result (Unit {0})
  checksum_of run hashed =
      if same_bytes (blake3 hashed) run.checksum
      then ok tt
      else err (corrupt_data "Exact run payload checksum is invalid")

  -- the loop: what remains, what the file has left, and what was hashed
  unfoldable pub verify_loop : RunMeta → ℕ → ℕ → ℕ → List ℕ → List ℕ → Option (Result (Unit {0}))
  unfolding checksum_of read_exact_partition
  verify_loop run fuel i zero reader hashed = some (checksum_of run hashed)
  verify_loop run zero i (suc n) reader hashed = none
  verify_loop run (suc fuel) i (suc n) reader hashed =
      checked (check (flag i)) (elim (read_exact_partition (min (suc n) 4096) reader) [
        | ok r ↦ verify_loop run fuel (i + 1) (suc n - min (suc n) 4096) r.1 (hashed ++ r.0)
        | err e ↦ some (err e)
      ])

  unfoldable pub verify_payload : RunMeta → Option (Result (Unit {0}))
  unfolding verify_loop
  verify_payload run =
      if length run.file == header_bytes + run.payload_bytes
      then verify_loop run run.payload_bytes 0 run.payload_bytes (drop header_bytes run.file) []
      else some (err (corrupt_data "Exact run length does not match its header"))

  length-drop : (n : ℕ) (xs : List ℕ) → length (drop n xs) ≡ length xs - n
  length-drop zero xs = omega arith
  length-drop (suc n) [] = omega arith
  length-drop (suc n) (x ∷ xs) = omega (arith, length-drop n xs)

  read_exact_partition-inside :
      (n : ℕ) (reader : List ℕ)
      → n ≤ length reader
      → read_exact_partition n reader ≡ ok (take n reader, drop n reader)
  unfolding read_exact_partition
  read_exact_partition-inside n reader inside =
      let fits : ltb (length reader) n ≡ false = ground arith in rw fits refl

  verify_loop-running :
      (run : RunMeta) (fuel i n : ℕ) (reader hashed : List ℕ)
      → ((j : ℕ) → flag j ≡ false)
      → n ≤ fuel
      → length reader ≡ n
      → verify_loop run fuel i n reader hashed ≡ some (checksum_of run (hashed ++ reader))
  unfolding verify_loop
  verify_loop-running run fuel i zero [] hashed running fuelled long = rw (append-nil hashed) refl
  verify_loop-running run fuel i zero (b ∷ reader) hashed running fuelled long =
      ground (arith, long)
  verify_loop-running run zero i (suc n) reader hashed running fuelled long =
      ground (arith, fuelled)
  verify_loop-running run (suc fuel) i (suc n) reader hashed running fuelled long =
      let c = min (suc n) 4096 in
      let rest =
        verify_loop-running run fuel (i + 1) (suc n - c) (drop c reader) (hashed ++ take c reader)
          running (omega (arith, fuelled)) (length-drop c reader ∙ omega (arith, long)) in
      rw (running i, read_exact_partition-inside c reader (omega (arith, long)), rest)
        (rw (append_assoc hashed (take c reader) (drop c reader), take-append-drop c reader) refl)

  checksum_of-ok_iff :
      (run : RunMeta) (hashed : List ℕ)
      → (checksum_of run hashed ≡ ok tt) ↔ (blake3 hashed ≡ run.checksum)
  unfolding checksum_of
  checksum_of-ok_iff run hashed = (
    λ accepted. elim (Bool-cases (same_bytes (blake3 hashed) run.checksum)) [
      | inl same ↦ same_bytes-eq (blake3 hashed) run.checksum same
      | inr apart ↦ let clash : Result.err _ ≡ ok tt = (rw apart at accepted) in cc
    ],
    λ same. rw (same, same_bytes_refl run.checksum) refl,
  )

  -- While no cancellation is seen, the check of a run ends, and accepts the run exactly when its file has
  -- the size that its metadata says and the hash of all the bytes behind the header is the checksum.
  pub verify_payload-ok_iff :
      (run : RunMeta)
      → ((j : ℕ) → flag j ≡ false)
      → (verify_payload run ≡ some (ok tt))
        ↔ (length run.file ≡ header_bytes + run.payload_bytes)
          × (blake3 (drop header_bytes run.file) ≡ run.checksum)
  unfolding verify_payload
  verify_payload-ok_iff run running =
      let size = header_bytes + run.payload_bytes in
      let behind = drop header_bytes run.file in
      let (sound, complete) = checksum_of-ok_iff run behind in
      elim (Bool-cases (length run.file == size)) [
        | inl sized ↦
            let same = (==_iff (length run.file) size).0 sized in
            let answer =
              verify_loop-running run run.payload_bytes 0 run.payload_bytes behind [] running
                (omega arith) (length-drop header_bytes run.file ∙ omega (arith, same)) in
            rw (sized, answer) (λ accepted. (same, sound cc), λ (_, hash). ap some (complete hash))
        | inr other ↦ rw other (
          λ accepted. cc,
          λ (same, _). let clash : false ≡ true = (sym other ∙ (==_iff _ _).1 same) in cc,
        )
      ]
