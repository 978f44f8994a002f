-- ===== src/Spill/Keeps.antt =====
-- Spilling and compacting lose no record: `spill_current` and `compact_runs_if_needed` of
-- distinct/mod.rs.
use proofframe.Prelude.{
  ℕ, ◌+◌, ◌*◌, ◌&&◌, ◌==◌, ◌≡◌, refl, sym, ap, ◌∙◌, List, [], ◌∷◌, ◌++◌, Option, none, some, length,
  append-nil, Bool-cases, inl, inr, ltb,
}
use proofframe.Error.{Result, ok, err, bind-ok, ok-eq}
use proofframe.Resource.{ResourceAccount, Reservation, Heap, u64_mod, try_reserve_temp}
use proofframe.Sorting.{Order, sort}
use proofframe.Sorting.Laws.{sort-append_comm, sort-append-sort, sort-IsSorted}
use proofframe.Distinct.{Rec, rec_order}
use proofframe.Distinct.Heap.Pending.{concat}
use proofframe.RunFile.{header_bytes}
use proofframe.Spill.State.{Layout, FixedSegment, Run, ExactState, records_of, record_size}
use proofframe.Spill.Compact.{
  CompactionSpec, write_run, spill_target, ended, compacted_run, close_compaction,
}
use proofframe.Spill.Ops.{
  segment_records, held, keep_run, spill_records, spill_fixed, spill_current,
}
use proofframe.Spill.Holds.{
  Holds, records_of-append, concat-append, AllSorted-append, guarded-keeps,
}

pub close_compaction-ok :
    {V : Type 0} (r : Result (Run V)) (temp memory : Reservation) (h : Heap) (run : Run V)
    → (close_compaction r temp memory h).0 ≡ ok run
    → r ≡ ok run
unfolding close_compaction
close_compaction-ok (ok run') temp memory h run e = e
close_compaction-ok (err x) temp memory h run e = e

pub ended-ok : {A : Type 0} (x : Option (Result A)) (a : A) → ended x ≡ ok a → x ≡ some (ok a)
ended-ok none a e = cc
ended-ok (some r) a e = ap some e

pub compacted_run-ok :
    {V : Type 0} (layout : Layout V) (spec : CompactionSpec) (temp : Reservation)
    (written : List (Rec V)) (run : Run V)
    → compacted_run layout spec temp written ≡ ok run
    → run.records ≡ written
compacted_run-ok {V} layout spec temp written run e =
    elim (Bool-cases
      (length written == spec.records && layout.payload written == spec.payload_bytes)) [
        | inl right ↦
            let built = (rw right at e) in ap (λ (r : Run V). r.records) (sym (ok-eq _ _ built))
        | inr wrong ↦ let clash : Result.err _ ≡ ok run = (rw wrong at e) in cc
      ]

module _ {V : Type 0} (o : Order V) where
  pub sort-sort-append :
      (xs ys : List (Rec V))
      → sort (rec_order o) (sort (rec_order o) xs ++ ys) ≡ sort (rec_order o) (xs ++ ys)
  sort-sort-append xs ys =
      sort-append_comm (rec_order o) (sort (rec_order o) xs) ys
      ∙ sort-append-sort (rec_order o) ys xs
      ∙ sort-append_comm (rec_order o) ys xs

  write_run-ok :
      (records : List (Rec V)) (account : ResourceAccount) (h : Heap) (run : Run V)
      → (write_run records account h).0 ≡ ok run
      → run.records ≡ records
  unfolding write_run
  write_run-ok records account h run e =
      elim (Bool-cases (ltb (header_bytes + length records * record_size) u64_mod)) [
        | inl small ↦
            let (temp, granted, built) =
              bind-ok (try_reserve_temp account (header_bytes + length records * record_size) h).0
                (λ temp. ok (record {
                  records = records;
                  payload_bytes = length records * record_size;
                  max_record_bytes = 8;
                  temp = temp;
                }))
                run (rw small at e) in
            ap (λ (r : Run V). r.records) (sym (ok-eq _ _ built))
        | inr large ↦ let clash : Result.err _ ≡ ok run = (rw large at e) in cc
      ]

  pub keep_run-Holds :
      (max_samples : ℕ) (rs : List (Rec V)) (s : ExactState V) (memory : List Reservation)
      (m : Result (Run V) × Heap)
      → Holds o max_samples rs s
      → ((run : Run V)
          → m.0 ≡ ok run
          → run.records ≡ sort (rec_order o) (segment_records s.segment))
      → (keep_run s memory m).0 ≡ ok tt
      → Holds o max_samples rs (keep_run s memory m).1
  unfolding keep_run
  keep_run-Holds max_samples rs s memory (ok run, h) holds written e =
      let run_is = written run refl in
      let before = concat o (records_of s.runs) in
      record {
        sorted = rw (records_of-append s.runs (run ∷ [])) (
            AllSorted-append o (records_of s.runs) (run.records ∷ []) holds.sorted
              (rw run_is (sort-IsSorted (rec_order o) (segment_records s.segment)), tt));
        limit = holds.limit;
        same =
            rw
              (
                append-nil (concat o (records_of (s.runs ++ run ∷ []))),
                records_of-append s.runs (run ∷ []),
                concat-append o (records_of s.runs) (run.records ∷ []),
                append-nil run.records,
                run_is,
              )
              (sort-append-sort (rec_order o) before (segment_records s.segment) ∙ holds.same);
      }
  keep_run-Holds max_samples rs s memory (err x, h) holds written e = cc

  spill_records-Holds :
      (max_samples : ℕ) (rs : List (Rec V)) (s : ExactState V) (records : List (Rec V))
      (memory : List Reservation) (h : Heap)
      → Holds o max_samples rs s
      → segment_records s.segment ≡ records
      → (spill_records o s records memory h).0 ≡ ok tt
      → Holds o max_samples rs (spill_records o s records memory h).1
  unfolding spill_records
  spill_records-Holds max_samples rs s [] memory h holds same e = record {
    sorted = holds.sorted;
    limit = holds.limit;
    same = ap (λ r. sort (rec_order o) (concat o (records_of s.runs) ++ r)) (sym same) ∙ holds.same;
  }
  spill_records-Holds max_samples rs s (r ∷ rest) memory h holds same e =
      keep_run-Holds max_samples rs s memory (write_run (sort (rec_order o) (r ∷ rest)) s.account h)
        holds
        (λ run written.
          write_run-ok (sort (rec_order o) (r ∷ rest)) s.account h run written
          ∙ ap (sort (rec_order o)) (sym same))
        e

  spill_fixed-Holds :
      (max_samples : ℕ) (rs : List (Rec V)) (s : ExactState V) (segment : Option (FixedSegment V))
      (h : Heap)
      → Holds o max_samples rs s
      → s.segment ≡ segment
      → (spill_fixed o s segment h).0 ≡ ok tt
      → Holds o max_samples rs (spill_fixed o s segment h).1
  unfolding spill_fixed
  spill_fixed-Holds max_samples rs s none h holds same e = holds
  spill_fixed-Holds max_samples rs s (some segment) h holds same e =
      spill_records-Holds max_samples rs s segment.records segment.memory h holds
        (ap segment_records same) e

  pub spill_current-Holds :
      (max_samples : ℕ) (rs : List (Rec V)) (s : ExactState V) (h : Heap)
      → Holds o max_samples rs s
      → (spill_current o s h).0 ≡ ok tt
      → Holds o max_samples rs (spill_current o s h).1
  unfolding spill_current
  spill_current-Holds max_samples rs s h holds e =
      guarded-keeps (Holds o max_samples rs) (spill_target s.directory s.account (held s.segment)) s
        h (spill_fixed o s s.segment h) tt
        (spill_fixed-Holds max_samples rs s s.segment h holds refl) e
