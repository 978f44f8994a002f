-- ===== src/Spill/Bounded.antt =====
-- Every `insert` of distinct/mod.rs leaves a state within its bounds.
use proofframe.Prelude.{
  ℕ, ◌≤◌, ◌<◌, ◌≡◌, refl, sym, ap, ◌∙◌, Option, none, some, length, arith, Bool, ltb, ◌*◌,
}
use proofframe.Error.{Result, ok, err, bind-ok, ok-eq}
use proofframe.Resource.{u64_mod, ResourceAccount, Heap, try_reserve_memory}
use proofframe.Sorting.{Order}
use proofframe.Spill.State.{
  Layout, FixedSegment, ExactState, Step, Pass, proceed, max_merge_fan_in, record_size,
}
use proofframe.Spill.Segment.{segment_is_full, grow, insert_fixed}
use proofframe.Spill.Ops.{
  is_missing, is_some, clamp, hinted_records, empty_state, new_with_cancellation, grow_segment,
  keep_segment, spill_current, compact_rounds, compact_runs_if_needed, make_room, store_record,
  insert,
}
use proofframe.Spill.Holds.{proceed-to, if-both, if-cases}
use proofframe.Spill.Sealed.{frame, spill_current-IsSealed, compact_rounds-frame}
use proofframe.Spill.Within.{compact_runs_if_needed-fan_in}
use proofframe.Spill.Room.{HasRoom, IsFilled, not_full, grow-HasRoom, insert_fixed-IsFilled}

-- The segment is within its capacity, the capacity to ask for is not zero, and the runs are few enough
-- for one merge.
pub record IsWithin {V : Type 0} (s : ExactState V) : Type 0 where
  pub filled : IsFilled s.segment
  pub positive : 0 < s.desired_capacity
  pub fan_in : length s.runs ≤ max_merge_fan_in

-- what `debug_assert!(segment.records.len() < segment.capacity)` needs
pub record IsReady {V : Type 0} (s : ExactState V) : Type 0 where
  pub room : HasRoom s.segment
  pub positive : 0 < s.desired_capacity

pub record IsStored {V : Type 0} (s : ExactState V) : Type 0 where
  pub filled : IsFilled s.segment
  pub positive : 0 < s.desired_capacity

module _ {V : Type 0} where
  grow_segment-IsReady :
      (s : ExactState V) (m : Result (Option (FixedSegment V)) × Heap)
      → ((grown : Option (FixedSegment V)) → m.0 ≡ ok grown → HasRoom grown)
      → 0 < s.desired_capacity
      → (grow_segment s m).0 ≡ ok tt
      → IsReady (grow_segment s m).1
  unfolding grow_segment
  grow_segment-IsReady s (ok segment, h) grown positive e = record {
    room = grown segment refl;
    positive = positive;
  }
  grow_segment-IsReady s (err x, h) grown positive e = cc

  keep_segment-IsStored :
      (s : ExactState V) (m : Result (FixedSegment V) × Heap)
      → ((segment : FixedSegment V) → m.0 ≡ ok segment → IsFilled (some segment))
      → 0 < s.desired_capacity
      → (keep_segment s m).0 ≡ ok tt
      → IsStored (keep_segment s m).1
  unfolding keep_segment
  keep_segment-IsStored s (ok segment, h) filled positive e = record {
    filled = filled segment refl;
    positive = positive;
  }
  keep_segment-IsStored s (err x, h) filled positive e = cc

  store_record-IsStored :
      (value : V) (row : ℕ) (s : ExactState V) (h : Heap)
      → IsReady s
      → (store_record value row s h).0 ≡ ok tt
      → IsStored (store_record value row s h).1
  unfolding store_record
  store_record-IsStored value row s h ready =
      keep_segment-IsStored s (insert_fixed s.segment s.desired_capacity value row s.account h)
        (λ segment.
          insert_fixed-IsFilled s.segment s.desired_capacity value row s.account h segment
            ready.positive ready.room)
        ready.positive

  IsReady-frame :
      (s t : ExactState V) (desired : ℕ)
      → frame t ≡ frame s
      → frame s ≡ (none, desired)
      → 0 < desired
      → IsReady t
  IsReady-frame s t desired kept sealed positive =
      let same : frame t ≡ (none, desired) = kept ∙ sealed in
      record {
        room = rw (ap (λ (r : Option (FixedSegment V) × ℕ). r.0) same) tt;
        positive = rw (ap (λ (r : Option (FixedSegment V) × ℕ). r.1) same) positive;
      }

module _ {V : Type 0} (o : Order V) (layout : Layout V) where
  pub make_room-IsReady :
      (pass : Pass) (s : ExactState V) (h : Heap)
      → IsWithin s
      → (make_room o layout pass s h).0 ≡ ok tt
      → IsReady (make_room o layout pass s h).1
  unfolding make_room compact_runs_if_needed
  make_room-IsReady pass s h within =
      let Ready : Step V (Unit {0}) → Type 0 = λ m. m.0 ≡ ok tt → IsReady m.1 in
      if-cases Ready (segment_is_full s.segment)
        (λ _.
          if-both Ready s.directory
            (proceed-to (λ s'. frame s' ≡ (none, s.desired_capacity)) IsReady (spill_current o s h)
              (λ _ s' h'. compact_runs_if_needed o layout pass s' h') (spill_current-IsSealed o s h)
              (λ s' h' sealed _.
                IsReady-frame s' (compact_rounds o layout (length s'.runs) pass 0 s' h').1
                  s.desired_capacity (compact_rounds-frame o layout (length s'.runs) pass 0 s' h')
                  sealed within.positive))
            (grow_segment-IsReady s (grow s.segment s.account h)
              (λ grown. grow-HasRoom s.segment s.account h grown within.filled) within.positive))
        (λ room _. record {
          room = not_full s.segment within.filled room;
          positive = within.positive;
        })

  compact-IsWithin :
      (pass : Pass) (s : ExactState V) (h : Heap)
      → IsStored s
      → (compact_runs_if_needed o layout pass s h).0 ≡ ok tt
      → IsWithin (compact_runs_if_needed o layout pass s h).1
  compact-IsWithin pass s h stored e =
      let kept : frame (compact_runs_if_needed o layout pass s h).1 ≡ frame s =
        unfold compact_runs_if_needed in compact_rounds-frame o layout (length s.runs) pass 0 s h in
      record {
        filled = rw (ap (λ (r : Option (FixedSegment V) × ℕ). r.0) kept) stored.filled;
        positive = rw (ap (λ (r : Option (FixedSegment V) × ℕ). r.1) kept) stored.positive;
        fan_in = compact_runs_if_needed-fan_in o layout pass s h e;
      }

  -- Every `insert` that ends without an error leaves the segment within its capacity and 32 runs at
  -- most, from a state that was so. Before it stores the record, the segment has a place left, as
  -- `insert_fixed` asserts.
  pub insert-IsWithin :
      (first last : Pass) (value : V) (row : ℕ) (s : ExactState V) (h : Heap)
      → IsWithin s
      → ((make_room o layout first s h).0 ≡ ok tt → IsReady (make_room o layout first s h).1)
        × ((insert o layout first last value row s h).0 ≡ ok tt
            → IsWithin (insert o layout first last value row s h).1)
  unfolding insert
  insert-IsWithin first last value row s h within =
      let ready = make_room-IsReady first s h within in
      (
        ready,
        proceed-to IsReady IsWithin (make_room o layout first s h)
            (λ _ s1 h1.
              proceed (store_record value row s1 h1)
                (λ _ s2 h2. compact_runs_if_needed o layout last s2 h2))
            ready
            (λ s1 h1 ready1.
              proceed-to IsStored IsWithin (store_record value row s1 h1)
                (λ _ s2 h2. compact_runs_if_needed o layout last s2 h2)
                (store_record-IsStored value row s1 h1 ready1)
                (λ s2 h2 stored. compact-IsWithin last s2 h2 stored)),
      )

module _ {V : Type 0} where
  -- A state that was just created is within its bounds.
  pub new-IsWithin :
      (account : ResourceAccount) (directory : Option Bool) (hint : Option ℕ) (h : Heap)
      (s : ExactState V)
      → (new_with_cancellation account directory hint h).0 ≡ ok s
      → IsWithin s
  unfolding new_with_cancellation
  new-IsWithin account directory hint h s =
      let bytes = account.limits.max_samples * record_size in
      let desired = clamp (hinted_records directory hint) in
      let Created : Result (ExactState V) × Heap → Type 0 = λ m. m.0 ≡ ok s → IsWithin s in
      if-both Created (is_missing directory) (λ clash. cc)
        (if-both Created (ltb bytes u64_mod)
          (λ e.
            let (reserved, granted, built) =
              bind-ok (try_reserve_memory account bytes h).0
                (λ reserved. ok (empty_state desired account (is_some directory) reserved)) s e in
            rw (sym (ok-eq _ _ built))
              (record { filled = tt; positive = omega arith; fan_in = omega arith }))
          (λ clash. cc))
