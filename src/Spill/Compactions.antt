-- ===== src/Spill/Compactions.antt =====
-- Compaction of distinct/mod.rs keeps what a state holds.
use proofframe.Prelude.{
  ℕ, zero, suc, ◌+◌, ◌≡◌, refl, sym, ap, ◌∙◌, List, ◌++◌, length, take, take-append-drop,
  append_assoc, Bool, Bool-cases, inl, inr, ltb,
}
use proofframe.Error.{Result, ok, err, bind-ok, Result-cases, ◌>>=◌}
use proofframe.Resource.{ResourceAccount, Reservation, Heap, try_reserve_temp, check}
use proofframe.Sorting.{Order, sort}
use proofframe.Sorting.Laws.{sort-IsSorted}
use proofframe.Distinct.{Rec, rec_order}
use proofframe.Distinct.Heap.Pending.{concat, AllSorted}
use proofframe.Distinct.Merge.{compact_payload}
use proofframe.Distinct.Merge.Equal.{compact_payload-ok}
use proofframe.Spill.State.{Layout, Run, ExactState, Pass, records_of, max_merge_fan_in}
use proofframe.Spill.Compact.{
  CompactionSpec, spill_target, compaction_spec, ended, compacted_run, merge_into, reserve_merge,
  compact_with, compact,
}
use proofframe.Spill.Ops.{
  segment_records, drained, keep_compacted, compact_inputs, compact_round, compact_rounds,
}
use proofframe.Spill.Holds.{
  Holds, records_of-append, concat-append, AllSorted-split, proceed-keeps, guarded-keeps,
}
use proofframe.Spill.Keeps.{sort-sort-append, close_compaction-ok, ended-ok, compacted_run-ok}

module _ {V : Type 0} (o : Order V) (layout : Layout V) where
  merge_into-ok :
      (flag : ℕ → Bool) (spec : CompactionSpec) (temp : Reservation) (memory : Result Reservation)
      (runs : List (Run V)) (h : Heap) (run : Run V)
      → AllSorted o (records_of runs)
      → (merge_into o layout flag spec temp memory runs h).0 ≡ ok run
      → run.records ≡ sort (rec_order o) (concat o (records_of runs))
  unfolding merge_into
  merge_into-ok flag spec temp (ok memory) runs h run sorted e =
      let closed =
        close_compaction-ok
          (ended (compact_payload o flag (records_of runs)) >>= compacted_run layout spec temp) temp
          memory h run e in
      let (written, merged, built) =
        bind-ok (ended (compact_payload o flag (records_of runs))) (compacted_run layout spec temp)
          run closed in
      compacted_run-ok layout spec temp written run built
      ∙ compact_payload-ok o flag (records_of runs) written sorted
          (ended-ok (compact_payload o flag (records_of runs)) written merged)
  merge_into-ok flag spec temp (err x) runs h run sorted e = cc

  compact_with-ok :
      (flag : ℕ → Bool) (spec : CompactionSpec) (account : ResourceAccount) (runs : List (Run V))
      (reserved : Result Reservation × Heap) (run : Run V)
      → AllSorted o (records_of runs)
      → (compact_with o layout flag spec account runs reserved).0 ≡ ok run
      → run.records ≡ sort (rec_order o) (concat o (records_of runs))
  unfolding compact_with
  compact_with-ok flag spec account runs (ok temp, h) run sorted e =
      let (memory, h') = reserve_merge o layout account runs h in
      merge_into-ok flag spec temp memory runs h' run sorted e
  compact_with-ok flag spec account runs (err x, h) run sorted e = cc

  compact-ok :
      (verified : Bool) (flag : ℕ → Bool) (runs : List (Run V)) (account : ResourceAccount)
      (h : Heap) (run : Run V)
      → AllSorted o (records_of runs)
      → (compact o layout verified flag runs account h).0 ≡ ok run
      → run.records ≡ sort (rec_order o) (concat o (records_of runs))
  unfolding compact
  compact-ok verified flag runs account h run sorted e =
      elim (Result-cases (compaction_spec verified runs)) [
        | inl (spec, fits) ↦
            compact_with-ok flag spec account runs (try_reserve_temp account spec.total_bytes h) run
              sorted (rw (fits, compact) at e)
        | inr (x, bad) ↦ let clash : Result.err x ≡ ok run = (rw (bad, compact) at e) in cc
      ]

  -- `s` is what is left when the inputs were drained from `p`.
  keep_compacted-Holds :
      (max_samples : ℕ) (rs : List (Rec V)) (p s : ExactState V) (inputs : List (Run V))
      (m : Result (Run V) × Heap)
      → Holds o max_samples rs p
      → inputs ++ s.runs ≡ p.runs
      → s.segment ≡ p.segment
      → s.account ≡ p.account
      → ((run : Run V)
          → AllSorted o (records_of inputs)
          → m.0 ≡ ok run
          → run.records ≡ sort (rec_order o) (concat o (records_of inputs)))
      → (keep_compacted s inputs m).0 ≡ ok tt
      → Holds o max_samples rs (keep_compacted s inputs m).1
  unfolding keep_compacted
  keep_compacted-Holds max_samples rs p s inputs (ok run, h) holds parted same owner merged e =
      let split : AllSorted o (records_of inputs) × AllSorted o (records_of s.runs) =
        AllSorted-split o (records_of inputs) (records_of s.runs)
          (rw (← records_of-append inputs s.runs, parted) holds.sorted) in
      let run_is = merged run split.0 refl in
      let old = concat o (records_of inputs) in
      let kept = concat o (records_of s.runs) in
      let tail = segment_records s.segment in
      let parts : concat o (records_of p.runs) ≡ old ++ kept =
        ap (λ r. concat o (records_of r)) (sym parted)
        ∙ ap (concat o) (records_of-append inputs s.runs)
        ∙ concat-append o (records_of inputs) (records_of s.runs) in
      record {
        sorted = (rw run_is (sort-IsSorted (rec_order o) old), split.1);
        limit = ap (λ (a : ResourceAccount). a.limits.max_samples) owner ∙ holds.limit;
        same =
            rw (run_is, append_assoc (sort (rec_order o) old) kept tail)
              (sort-sort-append o old (kept ++ tail)
                ∙ ap (sort (rec_order o)) (sym (append_assoc old kept tail))
                ∙ ap (λ r. sort (rec_order o) (r ++ tail)) (sym parts)
                ∙ ap (λ r. sort (rec_order o) (concat o (records_of p.runs) ++ segment_records r))
                    same
                ∙ holds.same);
      }
  keep_compacted-Holds max_samples rs p s inputs (err x, h) holds parted same owner merged e = cc

  compact_inputs-Holds :
      (max_samples : ℕ) (rs : List (Rec V)) (pass : Pass) (round : ℕ) (p s : ExactState V)
      (inputs : List (Run V)) (target : Result (Unit {0})) (h : Heap)
      → Holds o max_samples rs p
      → inputs ++ s.runs ≡ p.runs
      → s.segment ≡ p.segment
      → s.account ≡ p.account
      → (compact_inputs o layout pass round inputs s target h).0 ≡ ok tt
      → Holds o max_samples rs (compact_inputs o layout pass round inputs s target h).1
  unfolding compact_inputs
  compact_inputs-Holds max_samples rs pass round p s inputs (ok _) h holds parted same owner e =
      keep_compacted-Holds max_samples rs p s inputs
        (compact o layout (pass.at_verify round) (pass.at_merge round) inputs s.account h) holds
        parted same owner
        (λ run sorted.
          compact-ok (pass.at_verify round) (pass.at_merge round) inputs s.account h run sorted)
        e
  compact_inputs-Holds max_samples rs pass round p s inputs (err x) h holds parted same owner e =
      keep_compacted-Holds max_samples rs p s inputs (err x, h) holds parted same owner
        (λ run sorted clash. cc) e

  compact_round-Holds :
      (max_samples : ℕ) (rs : List (Rec V)) (pass : Pass) (round : ℕ) (s : ExactState V) (h : Heap)
      → Holds o max_samples rs s
      → (compact_round o layout pass round s h).0 ≡ ok tt
      → Holds o max_samples rs (compact_round o layout pass round s h).1
  unfolding compact_round
  compact_round-Holds max_samples rs pass round s h holds e =
      let target = spill_target s.directory s.account 0 in
      guarded-keeps (Holds o max_samples rs) (check (pass.at_round round)) s h
        (compact_inputs o layout pass round (take max_merge_fan_in s.runs) (drained s) target h) tt
        (compact_inputs-Holds max_samples rs pass round s (drained s) (take max_merge_fan_in s.runs)
          target h holds (take-append-drop max_merge_fan_in s.runs) refl refl)
        e

  pub compact_rounds-Holds :
      (max_samples : ℕ) (rs : List (Rec V)) (fuel : ℕ) (pass : Pass) (round : ℕ) (s : ExactState V)
      (h : Heap)
      → Holds o max_samples rs s
      → (compact_rounds o layout fuel pass round s h).0 ≡ ok tt
      → Holds o max_samples rs (compact_rounds o layout fuel pass round s h).1
  unfolding compact_rounds
  compact_rounds-Holds max_samples rs zero pass round s h holds e = holds
  compact_rounds-Holds max_samples rs (suc fuel) pass round s h holds e =
      elim (Bool-cases (ltb max_merge_fan_in (length s.runs))) [
        | inl many ↦
            rw (many, compact_rounds)
              (proceed-keeps (Holds o max_samples rs) (compact_round o layout pass round s h)
                (λ _ s' h'. compact_rounds o layout fuel pass (round + 1) s' h') tt
                (compact_round-Holds max_samples rs pass round s h holds)
                (λ s' h' holds'.
                  compact_rounds-Holds max_samples rs fuel pass (round + 1) s' h' holds')
                (rw (many, compact_rounds) at e))
        | inr few ↦ rw (few, compact_rounds) holds
      ]
