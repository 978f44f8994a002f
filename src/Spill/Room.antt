-- ===== src/Spill/Room.antt =====
-- The room of a segment of distinct/mod.rs: what the `debug_assert!` of `insert_fixed` states.
use proofframe.Prelude.{
  ℕ, zero, suc, ◌+◌, ◌/◌, ◌≤◌, ◌<◌, ◌≡◌, refl, sym, false, [], ◌∷◌, ◌++◌, Option, none, some,
  length, length-append, arith, ltb, max, ◌&&◌,
}
use proofframe.Error.{Result, ok, err, bind-ok, ok-eq, error_code}
use proofframe.Resource.{ResourceAccount, Reservation, Heap}
use proofframe.Spill.State.{FixedSegment, ExactState}
use proofframe.Spill.Segment.{
  segment_is_full, grow, reserve_records, insert_fixed, or_halve, allocate, allocate_fixed_segment,
  push_record, is_limit, size_overflowed,
}
use proofframe.Spill.Ops.{grow_segment}
use proofframe.Spill.Holds.{if-both}

-- a place is left in the segment, if there is one
abbrev pub HasRoom : {V : Type 0} → Option (FixedSegment V) → Type 0
HasRoom none = Unit
HasRoom (some segment) = length segment.records < segment.capacity

abbrev pub IsFilled : {V : Type 0} → Option (FixedSegment V) → Type 0
IsFilled none = Unit
IsFilled (some segment) = length segment.records ≤ segment.capacity

module _ {V : Type 0} where
  pub not_full :
      (segment : Option (FixedSegment V))
      → IsFilled segment
      → segment_is_full segment ≡ false
      → HasRoom segment
  unfolding segment_is_full
  not_full none filled e = tt
  not_full (some segment) filled e = ground arith

  pub grow-HasRoom :
      (segment : Option (FixedSegment V)) (account : ResourceAccount) (h : Heap)
      (grown : Option (FixedSegment V))
      → IsFilled segment
      → (grow segment account h).0 ≡ ok grown
      → HasRoom grown
  unfolding grow
  grow-HasRoom none account h grown filled e = rw (sym (ok-eq none grown e)) tt
  grow-HasRoom (some segment) account h grown filled e =
      let extra = max segment.capacity 1 in
      let (memory, reserved, built) =
        bind-ok (reserve_records extra account h).0
          (λ memory. ok (
            some (record segment {
              capacity = segment.capacity + extra;
              memory = segment.memory ++ memory ∷ [];
            })))
          grown e in
      rw (sym (ok-eq _ _ built)) (omega (arith, filled))

  pub grow_segment-HasRoom :
      (s : ExactState V) (m : Result (Option (FixedSegment V)) × Heap)
      → ((grown : Option (FixedSegment V)) → m.0 ≡ ok grown → HasRoom grown)
      → (grow_segment s m).0 ≡ ok tt
      → HasRoom (grow_segment s m).1.segment
  unfolding grow_segment
  grow_segment-HasRoom s (ok segment, h) grown e = grown segment refl
  grow_segment-HasRoom s (err x, h) grown e = cc

  or_halve-capacity :
      (capacity : ℕ) (m : Result Reservation × Heap) (retry : Heap → Result (FixedSegment V) × Heap)
      (segment : FixedSegment V)
      → 0 < capacity
      → ((h : Heap) → (retry h).0 ≡ ok segment → HasRoom (some segment))
      → (or_halve capacity m retry).0 ≡ ok segment
      → HasRoom (some segment)
  unfolding or_halve
  or_halve-capacity capacity (ok memory, h) retry segment positive later e =
      rw (sym (ok-eq _ _ e)) positive
  or_halve-capacity capacity (err x, h) retry segment positive later e =
      if-both (λ (m : Result (FixedSegment V) × Heap). m.0 ≡ ok segment → HasRoom (some segment))
        (ltb 1 capacity && is_limit (error_code x)) (later h) (λ clash. cc) e

  allocate-HasRoom :
      (fuel capacity : ℕ) (account : ResourceAccount) (h : Heap) (segment : FixedSegment V)
      → 0 < capacity
      → (allocate fuel capacity account h).0 ≡ ok segment
      → HasRoom (some segment)
  unfolding allocate
  allocate-HasRoom zero capacity account h segment positive e =
      or_halve-capacity capacity (reserve_records capacity account h)
        (λ h'. (err size_overflowed, h')) segment positive (λ h' clash. cc) e
  allocate-HasRoom (suc fuel) capacity account h segment positive e =
      or_halve-capacity capacity (reserve_records capacity account h)
        (λ h'. allocate fuel (max (capacity / 2) 1) account h') segment positive
        (λ h'. allocate-HasRoom fuel (max (capacity / 2) 1) account h' segment (omega arith)) e

  pub insert_fixed-IsFilled :
      (stored : Option (FixedSegment V)) (desired : ℕ) (value : V) (row : ℕ)
      (account : ResourceAccount) (h : Heap) (segment : FixedSegment V)
      → 0 < desired
      → HasRoom stored
      → (insert_fixed stored desired value row account h).0 ≡ ok segment
      → IsFilled (some segment)
  unfolding insert_fixed allocate_fixed_segment
  insert_fixed-IsFilled (some old) desired value row account h segment positive room e =
      rw (sym (ok-eq _ _ e)) (omega (arith, room, length-append old.records ((value, row) ∷ [])))
  insert_fixed-IsFilled none desired value row account h segment positive room e =
      let (fresh, allocated, built) =
        bind-ok (allocate desired desired account h).0
          (λ segment. ok (push_record value row segment)) segment e in
      rw (sym (ok-eq _ _ built)) (
        omega (
          arith,
          allocate-HasRoom desired desired account h fresh positive allocated,
          length-append fresh.records ((value, row) ∷ []),
        ))
