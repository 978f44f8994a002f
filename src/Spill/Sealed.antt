-- ===== src/Spill/Sealed.antt =====
-- `seal` of distinct/mod.rs leaves every record in the runs.
use proofframe.Prelude.{
  ℕ, zero, suc, ◌+◌, ◌≡◌, refl, ap, ◌∙◌, List, [], ◌∷◌, Option, none, some, length, take, Bool,
  Bool-cases, inl, inr, ltb,
}
use proofframe.Error.{Result, ok, err}
use proofframe.Resource.{Reservation, Heap, check}
use proofframe.Sorting.{Order, sort}
use proofframe.Distinct.{Rec, rec_order}
use proofframe.Spill.State.{
  Layout, FixedSegment, Run, ExactState, Step, Pass, proceed, guarded, max_merge_fan_in,
}
use proofframe.Spill.Compact.{spill_target, write_run, compact}
use proofframe.Spill.Ops.{
  held, drained, keep_run, keep_compacted, spill_records, spill_fixed, spill_current,
  compact_inputs, compact_round, compact_rounds, compact_runs_if_needed, seal,
}
use proofframe.Spill.Holds.{Holds, proceed-to, guarded-keeps}
use proofframe.Spill.Keeps.{spill_current-Holds}
use proofframe.Spill.Inserts.{compact_runs_if_needed-Holds}

-- what a compaction leaves alone
abbrev pub frame : {V : Type 0} → ExactState V → Option (FixedSegment V) × ℕ
frame s = (s.segment, s.desired_capacity)

-- the frame of a state without a segment
abbrev pub IsSealed : {V : Type 0} → ℕ → ExactState V → Type 0
IsSealed desired s = frame s ≡ (none, desired)

keep_compacted-frame :
    {V : Type 0} (s : ExactState V) (inputs : List (Run V)) (m : Result (Run V) × Heap)
    → frame (keep_compacted s inputs m).1 ≡ frame s
unfolding keep_compacted
keep_compacted-frame s inputs (ok run, h) = refl
keep_compacted-frame s inputs (err x, h) = refl

proceed-frame :
    {V : Type 0} (kept : Option (FixedSegment V) × ℕ) (m : Step V (Unit {0}))
    (rest : Unit {0} → ExactState V → Heap → Step V (Unit {0}))
    → frame m.1 ≡ kept
    → ((s : ExactState V) (h : Heap) → frame s ≡ kept → frame (rest tt s h).1 ≡ kept)
    → frame (proceed m rest).1 ≡ kept
unfolding proceed
proceed-frame kept (ok tt, s, h) rest first later = later s h first
proceed-frame kept (err x, s, h) rest first later = first

guarded-frame :
    {V : Type 0} (c : Result (Unit {0})) (s : ExactState V) (h : Heap) (rest : Step V (Unit {0}))
    → frame rest.1 ≡ frame s
    → frame (guarded c s h rest).1 ≡ frame s
unfolding guarded
guarded-frame (ok _) s h rest same = same
guarded-frame (err x) s h rest same = refl

module _ {V : Type 0} (o : Order V) where
  keep_run-IsSealed :
      (s : ExactState V) (memory : List Reservation) (m : Result (Run V) × Heap)
      → IsSealed s.desired_capacity (keep_run s memory m).1
  unfolding keep_run
  keep_run-IsSealed s memory (ok run, h) = refl
  keep_run-IsSealed s memory (err x, h) = refl

  spill_records-IsSealed :
      (s : ExactState V) (records : List (Rec V)) (memory : List Reservation) (h : Heap)
      → IsSealed s.desired_capacity (spill_records o s records memory h).1
  unfolding spill_records
  spill_records-IsSealed s [] memory h = refl
  spill_records-IsSealed s (r ∷ rs) memory h =
      keep_run-IsSealed s memory (write_run (sort (rec_order o) (r ∷ rs)) s.account h)

  spill_fixed-IsSealed :
      (s : ExactState V) (segment : Option (FixedSegment V)) (h : Heap)
      → s.segment ≡ segment
      → IsSealed s.desired_capacity (spill_fixed o s segment h).1
  unfolding spill_fixed
  spill_fixed-IsSealed s none h same = ap (λ r. (r, s.desired_capacity)) same
  spill_fixed-IsSealed s (some segment) h same =
      spill_records-IsSealed s segment.records segment.memory h

  pub spill_current-IsSealed :
      (s : ExactState V) (h : Heap)
      → (spill_current o s h).0 ≡ ok tt
      → IsSealed s.desired_capacity (spill_current o s h).1
  unfolding spill_current
  spill_current-IsSealed s h e =
      guarded-keeps (IsSealed s.desired_capacity)
        (spill_target s.directory s.account (held s.segment)) s h (spill_fixed o s s.segment h) tt
        (λ _. spill_fixed-IsSealed s s.segment h refl) e

module _ {V : Type 0} (o : Order V) (layout : Layout V) where
  compact_inputs-frame :
      (pass : Pass) (round : ℕ) (inputs : List (Run V)) (s : ExactState V)
      (target : Result (Unit {0})) (h : Heap)
      → frame (compact_inputs o layout pass round inputs s target h).1 ≡ frame s
  unfolding compact_inputs
  compact_inputs-frame pass round inputs s (ok _) h =
      keep_compacted-frame s inputs
        (compact o layout (pass.at_verify round) (pass.at_merge round) inputs s.account h)
  compact_inputs-frame pass round inputs s (err x) h = keep_compacted-frame s inputs (err x, h)

  compact_round-frame :
      (pass : Pass) (round : ℕ) (s : ExactState V) (h : Heap)
      → frame (compact_round o layout pass round s h).1 ≡ frame s
  unfolding compact_round
  compact_round-frame pass round s h =
      let target = spill_target s.directory s.account 0 in
      guarded-frame (check (pass.at_round round)) s h
        (compact_inputs o layout pass round (take max_merge_fan_in s.runs) (drained s) target h)
        (compact_inputs-frame pass round (take max_merge_fan_in s.runs) (drained s) target h)

  pub compact_rounds-frame :
      (fuel : ℕ) (pass : Pass) (round : ℕ) (s : ExactState V) (h : Heap)
      → frame (compact_rounds o layout fuel pass round s h).1 ≡ frame s
  unfolding compact_rounds
  compact_rounds-frame zero pass round s h = refl
  compact_rounds-frame (suc fuel) pass round s h =
      elim (Bool-cases (ltb max_merge_fan_in (length s.runs))) [
        | inl many ↦
            rw (many, compact_rounds)
              (proceed-frame (frame s) (compact_round o layout pass round s h)
                (λ _ s' h'. compact_rounds o layout fuel pass (round + 1) s' h')
                (compact_round-frame pass round s h)
                (λ s' h' same. compact_rounds-frame fuel pass (round + 1) s' h' ∙ same))
        | inr few ↦ rw (few, compact_rounds) refl
      ]

  -- A `seal` that ends without an error keeps what the state holds, and moves all of it into the runs.
  pub seal-Holds :
      (max_samples : ℕ) (rs : List (Rec V)) (cancelled : Bool) (pass : Pass) (s : ExactState V)
      (h : Heap)
      → Holds o max_samples rs s
      → (seal o layout cancelled pass s h).0 ≡ ok tt
      → Holds o max_samples rs (seal o layout cancelled pass s h).1
        × IsSealed s.desired_capacity (seal o layout cancelled pass s h).1
  unfolding seal compact_runs_if_needed
  seal-Holds max_samples rs cancelled pass s h holds =
      let Both : ExactState V → Type 0 =
        λ s'. Holds o max_samples rs s' × IsSealed s.desired_capacity s' in
      guarded-keeps Both (check cancelled) s h
        (proceed (spill_current o s h) (λ _ s' h'. compact_runs_if_needed o layout pass s' h')) tt
        (proceed-to Both Both (spill_current o s h)
          (λ _ s' h'. compact_runs_if_needed o layout pass s' h')
          (λ e. (spill_current-Holds o max_samples rs s h holds e, spill_current-IsSealed o s h e))
          (λ s' h' both e. (
            compact_runs_if_needed-Holds o layout max_samples rs pass s' h' both.0 e,
            compact_rounds-frame (length s'.runs) pass 0 s' h' ∙ both.1,
          )))
