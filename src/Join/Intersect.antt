-- ===== src/Join/Intersect.antt =====
-- `intersect` of distinct/run.rs, and `intersect_exact_states` of distinct/mod.rs.
use proofframe.Prelude.{
  ℕ, zero, suc, ◌+◌, Bool, List, [], ◌∷◌, ◌++◌, Option, none, some, length, ltb, ◌==◌,
  if◌then◌else◌,
}
use proofframe.Error.{Result, ok, err, ◌>>=◌, corrupt_data}
use proofframe.Resource.{ResourceAccount, Heap, check}
use proofframe.Sorting.{Order}
use proofframe.Distinct.Heap.{pending}
use proofframe.Distinct.Merge.{checked}
use proofframe.RunFile.{OwnedValue}
use proofframe.Sorting.Bytes.{bytes_order}
use proofframe.Spill.Bytes.{ByteState, bytes_layout, seal_bytes, sealed_step, drop_bytes}
use proofframe.Spill.State.{Layout, Run, ExactState, Pass, Step}
use proofframe.Spill.Compact.{ended}
use proofframe.Spill.Finish.{drop_state}
use proofframe.Join.Side.{Side, advance, open_side, then_run}
use proofframe.Join.AntiJoin.{JoinLoads, holding, reserve_samples, open_merge}

-- the 32 bytes of an identity, for a sample
unfoldable pub digest_of : OwnedValue → Result (List ℕ)
digest_of (OwnedValue.bytes bytes) =
    if length bytes == 32
    then ok bytes
    else err (corrupt_data "Leakage identity digest is not 32 bytes")
digest_of _ = err (corrupt_data "Leakage intersection requires byte identities")

-- The locals of the function; `loads` counts the loads of the cancellation flag.
pub record Intersection (V : Type 0) (D : Type 0) : Type 0 where
  pub left : Side V
  pub right : Side V
  pub overlap : ℕ
  pub samples : List D
  pub loads : ℕ

pub record IntersectionSummary (D : Type 0) : Type 0 where
  pub left_distinct : ℕ
  pub right_distinct : ℕ
  pub overlap : ℕ
  pub samples : List D

abbrev pub summary_of_intersection : {V D : Type 0} → Intersection V D → IntersectionSummary D
summary_of_intersection s = record {
  left_distinct = s.left.distinct;
  right_distinct = s.right.distinct;
  overlap = s.overlap;
  samples = s.samples;
}

-- `(Some(left_item), Some(right_item))`
abbrev pub both {ℓ} : {A : Type ℓ} → Option A → Option A → Option (A × A)
both (some a) (some b) = some (a, b)
both _ _ = none

module _ {V D : Type 0} (o : Order V) (digest : V → Result D) (max_samples : ℕ)
    (flag : ℕ → Bool) where
  unfoldable pub pass_left : Intersection V D → Option (Result (Intersection V D))
  unfolding advance then_run
  pass_left s =
      then_run (advance o (flag s.loads) s.left)
        (λ left. some (ok (record s { left = left; loads = s.loads + 1 })))

  unfoldable pub pass_other : Intersection V D → Option (Result (Intersection V D))
  unfolding advance then_run
  pass_other s =
      then_run (advance o (flag s.loads) s.right)
        (λ right. some (ok (record s { right = right; loads = s.loads + 1 })))

  -- the samples after a match, if there is a digest of it
  unfoldable pub sampled : V → List D → Result (List D)
  sampled value samples =
      if ltb (length samples) max_samples
      then digest value >>= (λ d. ok (samples ++ d ∷ []))
      else ok samples

  unfoldable pub count_match : V → Intersection V D → Option (Result (Intersection V D))
  unfolding sampled pass_left pass_other then_run
  count_match value s = then_run (some (sampled value s.samples)) (λ samples.
      then_run (pass_left (record s { overlap = s.overlap + 1; samples = samples })) pass_other)

  -- one round of the loop, after its check
  unfoldable pub meet_branch : V → V → Intersection V D → Option (Result (Intersection V D))
  unfolding pass_left pass_other count_match
  meet_branch left right s =
      if o.leq left right
      then (if o.leq right left then count_match left s else pass_left s)
      else pass_other s

  unfoldable pub meet_round : V → V → Intersection V D → Option (Result (Intersection V D))
  unfolding meet_branch
  meet_round left right s =
      checked (check (flag s.loads)) (meet_branch left right (record s { loads = s.loads + 1 }))

  -- `while let (Some(left_item), Some(right_item))`; each round leaves a value of one side behind.
  unfoldable pub meet_loop : ℕ → Intersection V D → Option (Result (Intersection V D))
  unfolding meet_round then_run
  meet_loop zero s = elim (both s.left.value s.right.value) [ none ↦ some (ok s) | some lr ↦ none ]
  meet_loop (suc fuel) s = elim (both s.left.value s.right.value) [
    | none ↦ some (ok s)
    | some (l, r) ↦ then_run (meet_round l.0 r.0 s) (λ s'. meet_loop fuel s')
  ]

  -- `while left_value.is_some()`, and the same for the right
  unfoldable pub drain_left : ℕ → Intersection V D → Option (Result (Intersection V D))
  unfolding pass_left then_run
  drain_left zero s = elim s.left.value [ none ↦ some (ok s) | some l ↦ none ]
  drain_left (suc fuel) s = elim s.left.value [
    | none ↦ some (ok s)
    | some l ↦ then_run (pass_left s) (λ s'. drain_left fuel s')
  ]

  unfoldable pub drain_other : ℕ → Intersection V D → Option (Result (Intersection V D))
  unfolding pass_other then_run
  drain_other zero s = elim s.right.value [ none ↦ some (ok s) | some r ↦ none ]
  drain_other (suc fuel) s = elim s.right.value [
    | none ↦ some (ok s)
    | some r ↦ then_run (pass_other s) (λ s'. drain_other fuel s')
  ]

  -- both sides opened, to the end of the last loop
  unfoldable pub intersect_run : List (Run V) → List (Run V) → Option (Result (Intersection V D))
  unfolding open_side pass_left pass_other meet_loop drain_left drain_other
  intersect_run left right =
      let l = open_side o left in
      let r = open_side o right in
      let fuel = length (pending l.heap) + length (pending r.heap) in
      let start : Intersection V D = record {
        left = l;
        right = r;
        overlap = 0;
        samples = [];
        loads = 0;
      } in
      then_run (pass_left start) (λ s1. then_run (pass_other s1) (λ s2.
        then_run (meet_loop fuel s2)
          (λ s3. then_run (drain_left fuel s3) (λ s4. drain_other fuel s4))))

module _ {V D : Type 0} (o : Order V) (digest : V → Result D) (layout : Layout V) where
  unfoldable pub intersect :
      JoinLoads
      → ℕ
      → List (Run V)
      → List (Run V)
      → ResourceAccount
      → ResourceAccount
      → Heap
      → Result (IntersectionSummary D) × Heap
  unfolding open_merge holding reserve_samples intersect_run
  intersect loads max_samples left right left_account right_account h =
      holding (reserve_samples "Leakage sample size overflowed" 32 max_samples left_account h)
        (λ h1. holding (open_merge o layout loads.at_left left_account left h1) (λ h2.
          holding (open_merge o layout loads.at_right right_account right h2) (λ h3. (
            ended (intersect_run o digest max_samples loads.at left right)
                >>= (λ s. ok (summary_of_intersection s)),
            h3,
          ))))

  -- the right state sealed, behind the left one
  unfoldable pub intersect_sealed :
      JoinLoads → ℕ → ExactState V → Step V (Unit {0}) → Result (IntersectionSummary D) × Heap
  unfolding intersect drop_state
  intersect_sealed loads max_samples left (ok _, right, h) =
      let (met, h') =
        intersect loads max_samples left.runs right.runs left.account right.account h in
      (met, drop_state left (drop_state right h'))
  intersect_sealed loads max_samples left (err e, right, h) =
      (err e, drop_state left (drop_state right h))

-- The states of leakage checks hold byte strings.
module _ {D : Type 0} (digest : List ℕ → Result D) (cursor_bytes : ℕ) where
  unfoldable pub intersect_left_sealed :
      Bool
      → Pass
      → JoinLoads
      → ℕ
      → ByteState
      → Step (List ℕ) (Unit {0})
      → Result (IntersectionSummary D) × Heap
  unfolding intersect_sealed seal_bytes sealed_step drop_state drop_bytes
  intersect_left_sealed cancelled pass loads max_samples right (ok _, left, h) =
      intersect_sealed bytes_order digest (bytes_layout cursor_bytes) loads max_samples left
        (sealed_step (seal_bytes cursor_bytes cancelled pass right h))
  intersect_left_sealed cancelled pass loads max_samples right (err e, left, h) =
      (err e, drop_state left (drop_bytes right h))

  unfoldable pub intersect_exact_states :
      Bool
      → Pass
      → Bool
      → Pass
      → JoinLoads
      → ℕ
      → ByteState
      → ByteState
      → Heap
      → Result (IntersectionSummary D) × Heap
  unfolding intersect_left_sealed seal_bytes sealed_step
  intersect_exact_states cancelled pass cancelled' pass' loads max_samples left right h =
      intersect_left_sealed cancelled' pass' loads max_samples right
        (sealed_step (seal_bytes cursor_bytes cancelled pass left h))
