-- ===== src/Spill/Inserts.antt =====
-- Insertion of distinct/mod.rs adds the record to what a state holds.
use proofframe.Prelude.{
  ℕ, zero, suc, ◌+◌, ◌≡◌, refl, sym, ap, ◌∙◌, List, [], ◌∷◌, ◌++◌, Option, none, some, length,
  append_assoc, ltb, ◌&&◌, ◌/◌, ◌&&◌, ◌/◌, max, max,
}
use proofframe.Error.{Result, ok, err, bind-ok, ok-eq, error_code}
use proofframe.Resource.{ResourceAccount, Reservation, Heap}
use proofframe.Sorting.{Order}
use proofframe.Sorting.Laws.{sort-append_comm, sort-append_cong}
use proofframe.Distinct.{Rec, rec_order}
use proofframe.Distinct.Heap.Pending.{concat}
use proofframe.Spill.State.{Layout, FixedSegment, ExactState, Step, Pass, records_of}
use proofframe.Spill.Segment.{
  segment_is_full, grow, reserve_records, insert_fixed, allocate, or_halve, is_limit,
  size_overflowed, allocate_fixed_segment, push_record,
}
use proofframe.Spill.Ops.{
  segment_records, grow_segment, keep_segment, spill_current, compact_runs_if_needed, make_room,
  store_record, insert,
}
use proofframe.Spill.Holds.{content, Holds, proceed-to, proceed-keeps, if-both}
use proofframe.Spill.Compactions.{compact_rounds-Holds}
use proofframe.Spill.Keeps.{spill_current-Holds}

module _ {V : Type 0} (o : Order V) (layout : Layout V) where
  pub compact_runs_if_needed-Holds :
      (max_samples : ℕ) (rs : List (Rec V)) (pass : Pass) (s : ExactState V) (h : Heap)
      → Holds o max_samples rs s
      → (compact_runs_if_needed o layout pass s h).0 ≡ ok tt
      → Holds o max_samples rs (compact_runs_if_needed o layout pass s h).1
  unfolding compact_runs_if_needed
  compact_runs_if_needed-Holds max_samples rs pass s h holds e =
      compact_rounds-Holds o layout max_samples rs (length s.runs) pass 0 s h holds e

  grow_segment-Holds :
      (max_samples : ℕ) (rs : List (Rec V)) (s : ExactState V)
      (m : Result (Option (FixedSegment V)) × Heap)
      → Holds o max_samples rs s
      → ((segment : Option (FixedSegment V))
          → m.0 ≡ ok segment
          → segment_records segment ≡ segment_records s.segment)
      → (grow_segment s m).0 ≡ ok tt
      → Holds o max_samples rs (grow_segment s m).1
  unfolding grow_segment
  grow_segment-Holds max_samples rs s (ok segment, h) holds grown e = record {
    sorted = holds.sorted;
    limit = holds.limit;
    same = rw (grown segment refl) holds.same;
  }
  grow_segment-Holds max_samples rs s (err x, h) holds grown e = cc

  grow-ok :
      (segment : Option (FixedSegment V)) (account : ResourceAccount) (h : Heap)
      (grown : Option (FixedSegment V))
      → (grow segment account h).0 ≡ ok grown
      → segment_records grown ≡ segment_records segment
  unfolding grow
  grow-ok none account h grown e = ap segment_records (sym (ok-eq _ _ e))
  grow-ok (some segment) account h grown e =
      let extra = max segment.capacity 1 in
      let (memory, reserved, built) =
        bind-ok (reserve_records extra account h).0
          (λ memory. ok (
            some (record segment {
              capacity = segment.capacity + extra;
              memory = segment.memory ++ memory ∷ [];
            })))
          grown e in
      ap segment_records (sym (ok-eq _ _ built))

  -- a step that leaves the records in the state, if it ends without an error
  abbrev pub Keeps : ℕ → List (Rec V) → Step V (Unit {0}) → Type 0
  Keeps max_samples rs m = (m.0 ≡ ok tt) → Holds o max_samples rs m.1

  pub make_room-Holds :
      (max_samples : ℕ) (rs : List (Rec V)) (pass : Pass) (s : ExactState V) (h : Heap)
      → Holds o max_samples rs s
      → Keeps max_samples rs (make_room o layout pass s h)
  unfolding make_room
  make_room-Holds max_samples rs pass s h holds =
      if-both (Keeps max_samples rs) (segment_is_full s.segment)
        (if-both (Keeps max_samples rs) s.directory
          (proceed-keeps (Holds o max_samples rs) (spill_current o s h)
            (λ _ s' h'. compact_runs_if_needed o layout pass s' h') tt
            (spill_current-Holds o max_samples rs s h holds)
            (λ s' h' holds'. compact_runs_if_needed-Holds max_samples rs pass s' h' holds'))
          (grow_segment-Holds max_samples rs s (grow s.segment s.account h) holds
            (grow-ok s.segment s.account h)))
        (λ _. holds)

  keep_segment-Holds :
      (max_samples : ℕ) (rs : List (Rec V)) (r : Rec V) (s : ExactState V)
      (m : Result (FixedSegment V) × Heap)
      → Holds o max_samples rs s
      → ((segment : FixedSegment V)
          → m.0 ≡ ok segment
          → segment.records ≡ segment_records s.segment ++ r ∷ [])
      → Keeps max_samples (rs ++ r ∷ []) (keep_segment s m)
  unfolding keep_segment
  keep_segment-Holds max_samples rs r s (ok segment, h) holds added e =
      let before = concat o (records_of s.runs) in
      record {
        sorted = holds.sorted;
        limit = holds.limit;
        same =
            rw (added segment refl, ← append_assoc before (segment_records s.segment) (r ∷ []))
              (sort-append_comm (rec_order o) (content o s) (r ∷ [])
                ∙ sort-append_cong (rec_order o) (r ∷ []) (content o s) rs holds.same
                ∙ sort-append_comm (rec_order o) (r ∷ []) rs);
      }
  keep_segment-Holds max_samples rs r s (err x, h) holds added e = cc

  or_halve-empty :
      (capacity : ℕ) (m : Result Reservation × Heap) (retry : Heap → Result (FixedSegment V) × Heap)
      (segment : FixedSegment V)
      → ((h : Heap) → (retry h).0 ≡ ok segment → segment.records ≡ [])
      → (or_halve capacity m retry).0 ≡ ok segment
      → segment.records ≡ []
  unfolding or_halve
  or_halve-empty capacity (ok memory, h) retry segment later e =
      ap (λ (s : FixedSegment V). s.records) (sym (ok-eq _ _ e))
  or_halve-empty capacity (err x, h) retry segment later e =
      if-both (λ (m : Result (FixedSegment V) × Heap). m.0 ≡ ok segment → segment.records ≡ [])
        (ltb 1 capacity && is_limit (error_code x)) (later h) (λ clash. cc) e

  allocate-empty :
      (fuel capacity : ℕ) (account : ResourceAccount) (h : Heap) (segment : FixedSegment V)
      → (allocate fuel capacity account h).0 ≡ ok segment
      → segment.records ≡ []
  unfolding allocate
  allocate-empty zero capacity account h segment e =
      or_halve-empty capacity (reserve_records capacity account h) (λ h'. (err size_overflowed, h'))
        segment (λ h' clash. cc) e
  allocate-empty (suc fuel) capacity account h segment e =
      or_halve-empty capacity (reserve_records capacity account h)
        (λ h'. allocate fuel (max (capacity / 2) 1) account h') segment
        (λ h'. allocate-empty fuel (max (capacity / 2) 1) account h' segment) e

  insert_fixed-ok :
      (stored : Option (FixedSegment V)) (desired : ℕ) (value : V) (row : ℕ)
      (account : ResourceAccount) (h : Heap) (segment : FixedSegment V)
      → (insert_fixed stored desired value row account h).0 ≡ ok segment
      → segment.records ≡ segment_records stored ++ (value, row) ∷ []
  unfolding insert_fixed allocate_fixed_segment
  insert_fixed-ok (some old) desired value row account h segment e =
      ap (λ (s : FixedSegment V). s.records) (sym (ok-eq _ _ e))
  insert_fixed-ok none desired value row account h segment e =
      let (fresh, allocated, built) =
        bind-ok (allocate desired desired account h).0
          (λ segment. ok (push_record value row segment)) segment e in
      ap (λ (s : FixedSegment V). s.records) (sym (ok-eq _ _ built))
      ∙ ap (λ r. r ++ (value, row) ∷ []) (allocate-empty desired desired account h fresh allocated)

  -- An `insert` that ends without an error adds its record to what the state holds, whether it spilled,
  -- compacted or grew on the way.
  pub insert-Holds :
      (max_samples : ℕ) (rs : List (Rec V)) (first last : Pass) (value : V) (row : ℕ)
      (s : ExactState V) (h : Heap)
      → Holds o max_samples rs s
      → Keeps max_samples (rs ++ (value, row) ∷ []) (insert o layout first last value row s h)
  unfolding insert store_record
  insert-Holds max_samples rs first last value row s h holds =
      proceed-to (Holds o max_samples rs) (Holds o max_samples (rs ++ (value, row) ∷ []))
        (make_room o layout first s h) _ (make_room-Holds max_samples rs first s h holds)
        (λ s1 h1 holds1.
          proceed-keeps (Holds o max_samples (rs ++ (value, row) ∷ []))
            (store_record value row s1 h1) (λ _ s2 h2. compact_runs_if_needed o layout last s2 h2)
            tt
            (keep_segment-Holds max_samples rs (value, row) s1
              (insert_fixed s1.segment s1.desired_capacity value row s1.account h1) holds1
              (insert_fixed-ok s1.segment s1.desired_capacity value row s1.account h1))
            (λ s2 h2 holds2.
              compact_runs_if_needed-Holds max_samples (rs ++ (value, row) ∷ []) last s2 h2 holds2))
