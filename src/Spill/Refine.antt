-- ===== src/Spill/Refine.antt =====
-- A whole use of an `ExactState` of distinct/mod.rs, from its creation to its summary, against the list
-- of the records that were inserted.
use proofframe.Prelude.{
  ℕ, ◌*◌, ◌≡◌, refl, sym, ap, ◌∙◌, true, false, List, [], ◌∷◌, ◌++◌, Option, none, some, Bool, ltb,
  append_assoc, append-nil,
}
use proofframe.Error.{Result, ok, err, bind-ok, ok-eq}
use proofframe.Resource.{u64_mod, ResourceAccount, Reservation, Heap, try_reserve_memory}
use proofframe.Sorting.{Order, sort}
use proofframe.Distinct.{
  Rec, rec_order, Tally, fresh_tally, ExactSummary, scan, summary_of, in_memory_metrics,
  finish_fixed_in_memory,
}
use proofframe.Distinct.Exact.{visits, scan-ok}
use proofframe.Distinct.Heap.Pending.{concat}
use proofframe.Distinct.Merge.{merge}
use proofframe.Distinct.Merge.Equal.{merge-scan}
use proofframe.Spill.State.{
  Layout, FixedSegment, Run, ExactState, Step, Pass, records_of, proceed, record_size,
}
use proofframe.Spill.Compact.{reserve_merge, ended}
use proofframe.Spill.Ops.{
  is_missing, is_some, clamp, hinted_records, empty_state, segment_records, new_with_cancellation,
  insert, seal,
}
use proofframe.Spill.Finish.{
  Loads, merge_metrics, state_metrics, merge_with, merge_runs, finish_sealed, in_memory, finish_by,
  finish,
}
use proofframe.Spill.Holds.{Holds, proceed-to, if-both}
use proofframe.Spill.Keeps.{ended-ok}
use proofframe.Spill.Inserts.{insert-Holds}
use proofframe.Spill.Sealed.{IsSealed, seal-Holds}

-- a call of `insert`, with what the flag shows to its compactions
pub record Insertion (V : Type 0) : Type 0 where
  pub first : Pass
  pub last : Pass
  pub value : V
  pub row : ℕ

abbrev pub inserted : {V : Type 0} → List (Insertion V) → List (Rec V)
inserted [] = []
inserted (i ∷ is) = (i.value, i.row) ∷ inserted is

-- the counts and the samples of a summary, without its metrics
abbrev pub figures : ExactSummary → ℕ × ℕ × List (ℕ × ℕ)
figures s = (s.distinct_count, s.duplicate_count, s.duplicate_samples)

abbrev pub tally_figures : {V : Type 0} → Tally V → ℕ × ℕ × List (ℕ × ℕ)
tally_figures t = (t.distinct_count, t.duplicate_count, t.duplicate_samples)

module _ {V : Type 0} (o : Order V) where
  -- The abstract view: one scan over all the records, sorted.
  unfoldable pub figures_of : ℕ → List (Rec V) → ℕ × ℕ × List (ℕ × ℕ)
  figures_of max_samples rs =
      tally_figures (visits o max_samples (fresh_tally V) (sort (rec_order o) rs))

  pub finish_none-figures :
      (max_samples : ℕ) (flag : ℕ → Bool) (account : ResourceAccount) (h : Heap)
      (summary : ExactSummary)
      → finish_fixed_in_memory o max_samples flag account h none ≡ ok summary
      → figures summary ≡ figures_of max_samples []
  unfolding finish_fixed_in_memory figures_of summary_of
  finish_none-figures max_samples flag account h summary e =
      ap figures (sym (ok-eq _ _ e)) ∙ unfold visits sort in refl

  pub finish_some-figures :
      (max_samples : ℕ) (flag : ℕ → Bool) (account : ResourceAccount) (h : Heap)
      (records : List (Rec V)) (summary : ExactSummary)
      → finish_fixed_in_memory o max_samples flag account h (some records) ≡ ok summary
      → figures summary ≡ figures_of max_samples records
  unfolding finish_fixed_in_memory figures_of summary_of
  finish_some-figures max_samples flag account h records summary e =
      let sorted = sort (rec_order o) records in
      let (tally, scanned, built) =
        bind-ok (scan o max_samples flag 0 sorted (fresh_tally V))
          (λ t. ok (summary_of t (in_memory_metrics account h))) summary e in
      ap figures (sym (ok-eq _ _ built))
      ∙ ap tally_figures (scan-ok o max_samples flag 0 sorted (fresh_tally V) tally scanned)

  finish_in_memory-figures :
      (max_samples : ℕ) (flag : ℕ → Bool) (account : ResourceAccount) (h : Heap)
      (segment : Option (FixedSegment V)) (summary : ExactSummary)
      → finish_fixed_in_memory o max_samples flag account h (in_memory segment) ≡ ok summary
      → figures summary ≡ figures_of max_samples (segment_records segment)
  finish_in_memory-figures max_samples flag account h none =
      finish_none-figures max_samples flag account h
  finish_in_memory-figures max_samples flag account h (some segment) =
      finish_some-figures max_samples flag account h segment.records

  pub figures_of-sort :
      (max_samples : ℕ) (xs ys : List (Rec V))
      → sort (rec_order o) xs ≡ sort (rec_order o) ys
      → figures_of max_samples xs ≡ figures_of max_samples ys
  unfolding figures_of
  figures_of-sort max_samples xs ys same =
      ap (λ r. tally_figures (visits o max_samples (fresh_tally V) r)) same

module _ {V : Type 0} (o : Order V) (layout : Layout V) where
  merge_with-figures :
      (flag : ℕ → Bool) (s : ExactState V) (reserved : Result Reservation × Heap)
      (max_samples desired : ℕ) (rs : List (Rec V)) (summary : ExactSummary)
      → Holds o max_samples rs s
      → IsSealed desired s
      → (merge_with o layout flag s reserved).0 ≡ ok summary
      → figures summary ≡ figures_of o max_samples rs
  unfolding merge_with summary_of figures_of
  merge_with-figures flag s (ok memory, h) max_samples desired rs summary holds sealed e =
      let limit = s.account.limits.max_samples in
      let runs = records_of s.runs in
      let sorted = sort (rec_order o) (concat o runs) in
      let (tally, merged, built) =
        bind-ok (ended (merge o flag limit runs)) (λ t. ok (summary_of t (merge_metrics s h)))
          summary e in
      let scanned : some (scan o limit flag 0 sorted (fresh_tally V)) ≡ some (ok tally) =
        sym (merge-scan o flag limit runs holds.sorted)
        ∙ ended-ok (merge o flag limit runs) tally merged in
      let all : sorted ≡ sort (rec_order o) rs =
        ap (sort (rec_order o)) (sym (append-nil (concat o runs)))
        ∙ ap (λ r. sort (rec_order o) (concat o runs ++ segment_records r.0)) (sym sealed)
        ∙ holds.same in
      ap figures (sym (ok-eq _ _ built))
      ∙ ap tally_figures (scan-ok o limit flag 0 sorted (fresh_tally V) tally cc)
      ∙ ap (λ r. tally_figures (visits o limit (fresh_tally V) r)) all
      ∙ ap (λ m. tally_figures (visits o m (fresh_tally V) (sort (rec_order o) rs))) holds.limit
  merge_with-figures flag s (err x, h) max_samples desired rs summary holds sealed e = cc

  merge_runs-figures :
      (verified : Bool) (flag : ℕ → Bool) (s : ExactState V) (h : Heap) (max_samples desired : ℕ)
      (rs : List (Rec V)) (summary : ExactSummary)
      → Holds o max_samples rs s
      → IsSealed desired s
      → (merge_runs o layout verified flag s h).0 ≡ ok summary
      → figures summary ≡ figures_of o max_samples rs
  unfolding merge_runs
  merge_runs-figures true flag s h max_samples desired rs summary holds sealed e = cc
  merge_runs-figures false flag s h max_samples desired rs summary holds sealed e =
      merge_with-figures flag s (reserve_merge o layout s.account s.runs h) max_samples desired rs
        summary holds sealed e

  pub finish_sealed-figures :
      (loads : Loads) (m : Step V (Unit {0})) (max_samples desired : ℕ) (rs : List (Rec V))
      (summary : ExactSummary)
      → ((m.0 ≡ ok tt) → Holds o max_samples rs m.1 × IsSealed desired m.1)
      → (finish_sealed o layout loads m).0 ≡ ok summary
      → figures summary ≡ figures_of o max_samples rs
  unfolding finish_sealed state_metrics
  finish_sealed-figures loads (ok tt, s, h) max_samples desired rs summary holds e =
      let (merged, done, built) =
        bind-ok (merge_runs o layout loads.at_verify loads.at_merge s h).0
          (λ merged. ok (state_metrics s merged)) summary e in
      ap figures (sym (ok-eq _ _ built))
      ∙ merge_runs-figures loads.at_verify loads.at_merge s h max_samples desired rs merged
          (holds refl).0 (holds refl).1 done
  finish_sealed-figures loads (err x, s, h) max_samples desired rs summary holds e = cc

  finish_by-figures :
      (runs : List (Run V)) (loads : Loads) (s : ExactState V) (h : Heap) (max_samples : ℕ)
      (rs : List (Rec V)) (summary : ExactSummary)
      → Holds o max_samples rs s
      → s.runs ≡ runs
      → (finish_by o layout runs loads s h).0 ≡ ok summary
      → figures summary ≡ figures_of o max_samples rs
  unfolding finish_by
  finish_by-figures [] loads s h max_samples rs summary holds none_left e =
      let limit = s.account.limits.max_samples in
      finish_in_memory-figures o limit loads.at_merge s.account h s.segment summary e
      ∙ figures_of-sort o limit (segment_records s.segment) rs (
          ap (λ r. sort (rec_order o) (concat o (records_of r) ++ segment_records s.segment))
            (sym none_left)
          ∙ holds.same)
      ∙ ap (λ m. figures_of o m rs) holds.limit
  finish_by-figures (r ∷ runs) loads s h max_samples rs summary holds some_left e =
      finish_sealed-figures loads (seal o layout loads.at_seal loads.pass s h) max_samples
        s.desired_capacity rs summary
        (seal-Holds o layout max_samples rs loads.at_seal loads.pass s h holds) e

  -- the calls of a scan, with `?` after each
  unfoldable pub insert_all : List (Insertion V) → ExactState V → Heap → Step V (Unit {0})
  unfolding insert proceed
  insert_all [] s h = (ok tt, s, h)
  insert_all (i ∷ is) s h =
      proceed (insert o layout i.first i.last i.value i.row s h) (λ _ s' h'. insert_all is s' h')

  pub insert_all-Holds :
      (is : List (Insertion V)) (max_samples : ℕ) (rs : List (Rec V)) (s : ExactState V) (h : Heap)
      → Holds o max_samples rs s
      → (insert_all is s h).0 ≡ ok tt
      → Holds o max_samples (rs ++ inserted is) (insert_all is s h).1
  unfolding insert_all
  insert_all-Holds [] max_samples rs s h holds e = rw (append-nil rs) holds
  insert_all-Holds (i ∷ is) max_samples rs s h holds e =
      rw (← append_assoc rs ((i.value, i.row) ∷ []) (inserted is)) (
        proceed-to (Holds o max_samples (rs ++ (i.value, i.row) ∷ []))
          (Holds o max_samples ((rs ++ (i.value, i.row) ∷ []) ++ inserted is))
          (insert o layout i.first i.last i.value i.row s h) (λ _ s' h'. insert_all is s' h')
          (insert-Holds o layout max_samples rs i.first i.last i.value i.row s h holds)
          (λ s' h' holds'.
            insert_all-Holds is max_samples (rs ++ (i.value, i.row) ∷ []) s' h' holds')
          e)

  pub new-Holds :
      (account : ResourceAccount) (directory : Option Bool) (hint : Option ℕ) (h : Heap)
      (s : ExactState V)
      → (new_with_cancellation account directory hint h).0 ≡ ok s
      → Holds o account.limits.max_samples [] s
  unfolding new_with_cancellation
  new-Holds account directory hint h s =
      let bytes = account.limits.max_samples * record_size in
      let desired = clamp (hinted_records directory hint) in
      let Created : Result (ExactState V) × Heap → Type 0 =
        λ m. m.0 ≡ ok s → Holds o account.limits.max_samples [] s in
      if-both Created (is_missing directory) (λ clash. cc)
        (if-both Created (ltb bytes u64_mod)
          (λ e.
            let (reserved, granted, built) =
              bind-ok (try_reserve_memory account bytes h).0
                (λ reserved. ok (empty_state desired account (is_some directory) reserved)) s e in
            rw (sym (ok-eq _ _ built)) (record { sorted = tt; limit = refl; same = refl }))
          (λ clash. cc))

  -- A state is a list of records to whoever uses it: where its creation, its insertions and `finish` end
  -- without an error, the counts and the samples of the summary are those of one scan over all that was
  -- inserted, sorted, however often the state grew, spilled and compacted on the way.
  pub finish-refines :
      (account : ResourceAccount) (directory : Option Bool) (hint : Option ℕ) (h : Heap)
      (s : ExactState V) (is : List (Insertion V)) (loads : Loads) (h1 h2 : Heap)
      (summary : ExactSummary)
      → (new_with_cancellation account directory hint h).0 ≡ ok s
      → (insert_all is s h1).0 ≡ ok tt
      → (finish o layout loads (insert_all is s h1).1 h2).0 ≡ ok summary
      → figures summary ≡ figures_of o account.limits.max_samples (inserted is)
  unfolding finish
  finish-refines account directory hint h s is loads h1 h2 summary created filled finished =
      let s' : ExactState V = (insert_all is s h1).1 in
      finish_by-figures s'.runs loads s' h2 account.limits.max_samples (inserted is) summary
        (insert_all-Holds is account.limits.max_samples [] s h1
          (new-Holds account directory hint h s created) filled)
        refl finished
