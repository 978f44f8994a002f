-- ===== src/RunFile/Runs.antt =====
-- Runs of two integers, of two byte strings and of one that is too long, and what the theorems say there.
use proofframe.Prelude.{
  zero, suc, ap, ◌∙◌, ◌^◌, ℕ, ◌≡◌, refl, List, [], ◌∷◌, arith, Bool, false, some, ◌↔◌, drop, ◌+◌,
  length,
}
use proofframe.Error.{ok}
use proofframe.Resource.{
  ResourceAccount, default_limits, temp, try_reserve_temp, Heap, new_counters,
}
use proofframe.RunFile.{
  byte_total, write_sized, FixedValue, OwnedValue, RunMeta, header_bytes, write_run, write_fixed,
  write_bytes, fixed_spec, byte_spec, fixed_payload, byte_payload,
}
use proofframe.RunFile.Cursor.{next, RunCursor, open_cursor}
use proofframe.RunFile.RoundTrip.{Reads}
use proofframe.RunFile.Written.{run_of}
use proofframe.RunFile.TooLong.{refusal, write_bytes-too_long}
use proofframe.RunFile.Verify.{verify_payload, verify_payload-ok_iff}
use proofframe.RunFile.Fixed.{write_fixed-Reads}
use proofframe.RunFile.Strings.{write_bytes-Reads}

abbrev account : ResourceAccount
account = record { root = 0; below = []; limits = default_limits }

abbrev heap : Heap
heap = record { next = 1; at = λ m. new_counters 100 100 }

abbrev hash : List ℕ → List ℕ
hash input =
    7 ∷ 7 ∷ 7 ∷ 7 ∷ 7 ∷ 7 ∷ 7 ∷ 7 ∷ 7 ∷ 7 ∷ 7 ∷ 7 ∷ 7 ∷ 7 ∷ 7 ∷ 7 ∷ 7 ∷ 7 ∷ 7 ∷ 7 ∷ 7 ∷ 7 ∷ 7 ∷ 7
    ∷ 7 ∷ 7 ∷ 7 ∷ 7 ∷ 7 ∷ 7 ∷ 7 ∷ 7 ∷ []

abbrev integers : List (ℕ × ℕ)
integers = (300, 1) ∷ (5, 2) ∷ []

abbrev integer_run : RunMeta
integer_run =
    run_of (fixed_spec hash FixedValue.i64 integers) (fixed_payload integers)
      (record { held = 0 ∷ []; bytes = 92; kind = temp })

integers_ok : (write_fixed hash FixedValue.i64 integers account heap).0 ≡ ok integer_run
unfolding write_fixed write_run try_reserve_temp
integers_ok = refl

write_fixed-Reads_example :
    (c : RunCursor) × (open_cursor integer_run ≡ ok c)
    × Reads c ((OwnedValue.i64 300, 1) ∷ (OwnedValue.i64 5, 2) ∷ [])
write_fixed-Reads_example =
    write_fixed-Reads hash account heap integer_run (λ input. refl) FixedValue.i64 integers
      ((omega arith, omega arith), ((omega arith, omega arith), tt)) integers_ok

abbrev names : List (List ℕ × ℕ)
names = ((97 ∷ []), 1) ∷ ((98 ∷ 99 ∷ []), 2) ∷ []

abbrev name_run : RunMeta
name_run =
    run_of (byte_spec hash names 27) (byte_payload names)
      (record { held = 0 ∷ []; bytes = 87; kind = temp })

names_ok : (write_bytes hash names account heap).0 ≡ ok name_run
unfolding write_bytes try_reserve_temp
names_ok = refl

write_bytes-Reads_example :
    (c : RunCursor) × (open_cursor name_run ≡ ok c)
    × Reads c ((OwnedValue.bytes (97 ∷ []), 1) ∷ (OwnedValue.bytes (98 ∷ 99 ∷ []), 2) ∷ [])
write_bytes-Reads_example =
    write_bytes-Reads hash account heap name_run (λ input. refl) names
      ((omega arith, omega arith), ((omega arith, omega arith), tt)) (omega arith) names_ok

abbrev quiet : ℕ → Bool
quiet j = false

verify_payload-ok_iff_example :
    (verify_payload hash quiet integer_run ≡ some (ok tt))
    ↔ (length integer_run.file ≡ header_bytes + integer_run.payload_bytes)
      × (hash (drop header_bytes integer_run.file) ≡ integer_run.checksum)
verify_payload-ok_iff_example = verify_payload-ok_iff hash quiet integer_run (λ j. refl)

unfoldable zeros : ℕ → List ℕ
zeros zero = []
zeros (suc n) = 0 ∷ zeros n

length-zeros : (n : ℕ) → length (zeros n) ≡ n
unfolding zeros
length-zeros zero = refl
length-zeros (suc n) = ap suc (length-zeros n)

abbrev roomy : Heap
roomy = record { next = 1; at = λ m. new_counters (2 ^ 40) (2 ^ 40) }

-- a string of one byte more than the cursor reads
abbrev huge : List ℕ
huge = zeros 67108865

abbrev huge_run : RunMeta
huge_run =
    run_of (byte_spec hash ((huge, 1) ∷ []) 67108877) (byte_payload ((huge, 1) ∷ []))
      (record { held = 0 ∷ []; bytes = 67108937; kind = temp })

huge_total : byte_total 0 ((huge, 1) ∷ []) ≡ ok 67108877
huge_total = rw (length-zeros 67108865) refl

huge_sized : (write_sized hash ((huge, 1) ∷ []) account roomy (ok 67108877)).0 ≡ ok huge_run
unfolding write_sized write_run try_reserve_temp
huge_sized = refl

huge_ok : (write_bytes hash ((huge, 1) ∷ []) account roomy).0 ≡ ok huge_run
unfolding write_bytes
huge_ok = ap (λ r. (write_sized hash ((huge, 1) ∷ []) account roomy r).0) huge_total ∙ huge_sized

write_bytes-too_long_example : (c : RunCursor) × (open_cursor huge_run ≡ ok c) × (next c ≡ refusal)
write_bytes-too_long_example =
    write_bytes-too_long hash account roomy huge_run huge 1 [] (λ input. refl)
      (omega (arith, length-zeros 67108865)) (omega (arith, length-zeros 67108865)) (omega arith)
      huge_ok
