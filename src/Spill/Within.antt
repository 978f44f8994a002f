-- ===== src/Spill/Within.antt =====
-- The bounds that distinct/mod.rs keeps: a segment within its capacity, and few runs.
use proofframe.Prelude.{
  ℕ, zero, suc, ◌+◌, ◌-◌, ◌≤◌, ◌<◌, ◌≡◌, refl, List, [], ◌∷◌, length, take, drop, arith, Bool-cases,
  inl, inr, ltb,
}
use proofframe.Error.{Result, ok, err}
use proofframe.Resource.{Heap, check}
use proofframe.Sorting.{Order}
use proofframe.Spill.State.{Layout, Run, ExactState, Pass, max_merge_fan_in}
use proofframe.Spill.Compact.{spill_target, compact}
use proofframe.Spill.Ops.{
  drained, keep_compacted, compact_inputs, compact_round, compact_rounds, compact_runs_if_needed,
}
use proofframe.Spill.Holds.{proceed-to, guarded-keeps}

length-drop : {V : Type 0} (n : ℕ) (xs : List (Run V)) → length (drop n xs) ≡ length xs - n
length-drop zero xs = omega arith
length-drop (suc n) [] = omega arith
length-drop (suc n) (x ∷ xs) = omega (arith, length-drop n xs)

keep_compacted-fan_in :
    {V : Type 0} (s : ExactState V) (inputs : List (Run V)) (m : Result (Run V) × Heap)
    → (keep_compacted s inputs m).0 ≡ ok tt
    → length (keep_compacted s inputs m).1.runs ≡ suc (length s.runs)
unfolding keep_compacted
keep_compacted-fan_in s inputs (ok run, h) e = refl
keep_compacted-fan_in s inputs (err x, h) e = cc

module _ {V : Type 0} (o : Order V) (layout : Layout V) where
  compact_inputs-fan_in :
      (pass : Pass) (round : ℕ) (inputs : List (Run V)) (s : ExactState V)
      (target : Result (Unit {0})) (h : Heap)
      → (compact_inputs o layout pass round inputs s target h).0 ≡ ok tt
      → length (compact_inputs o layout pass round inputs s target h).1.runs ≡ suc (length s.runs)
  unfolding compact_inputs
  compact_inputs-fan_in pass round inputs s (ok _) h e =
      keep_compacted-fan_in s inputs
        (compact o layout (pass.at_verify round) (pass.at_merge round) inputs s.account h) e
  compact_inputs-fan_in pass round inputs s (err x) h e =
      keep_compacted-fan_in s inputs (err x, h) e

  -- Each round leaves 31 runs fewer.
  compact_round-fan_in :
      (pass : Pass) (round : ℕ) (s : ExactState V) (h : Heap)
      → max_merge_fan_in < length s.runs
      → (compact_round o layout pass round s h).0 ≡ ok tt
      → length (compact_round o layout pass round s h).1.runs + 31 ≡ length s.runs
  unfolding compact_round
  compact_round-fan_in pass round s h many =
      let target = spill_target s.directory s.account 0 in
      let inputs = take max_merge_fan_in s.runs in
      guarded-keeps (λ s'. length s'.runs + 31 ≡ length s.runs) (check (pass.at_round round)) s h
        (compact_inputs o layout pass round inputs (drained s) target h) tt
        (λ e. omega (
          arith,
          many,
          compact_inputs-fan_in pass round inputs (drained s) target h e,
          length-drop max_merge_fan_in s.runs,
        ))

  compact_rounds-fan_in :
      (fuel : ℕ) (pass : Pass) (round : ℕ) (s : ExactState V) (h : Heap)
      → length s.runs ≤ max_merge_fan_in + fuel
      → (compact_rounds o layout fuel pass round s h).0 ≡ ok tt
      → length (compact_rounds o layout fuel pass round s h).1.runs ≤ max_merge_fan_in
  unfolding compact_rounds
  compact_rounds-fan_in zero pass round s h few e = omega (arith, few)
  compact_rounds-fan_in (suc fuel) pass round s h few e =
      elim (Bool-cases (ltb max_merge_fan_in (length s.runs))) [
        | inl many ↦
            rw (many, compact_rounds)
              (proceed-to (λ s'. length s'.runs + 31 ≡ length s.runs)
                (λ s'. length s'.runs ≤ max_merge_fan_in) (compact_round o layout pass round s h)
                (λ _ s' h'. compact_rounds o layout fuel pass (round + 1) s' h')
                (compact_round-fan_in pass round s h (ground arith))
                (λ s' h' fewer.
                  compact_rounds-fan_in fuel pass (round + 1) s' h' (omega (arith, fewer, few)))
                (rw (many, compact_rounds) at e))
        | inr enough ↦ rw (enough, compact_rounds) (ground arith)
      ]

  -- The compaction loop ends, and where it ends without an error it leaves 32 runs at most.
  pub compact_runs_if_needed-fan_in :
      (pass : Pass) (s : ExactState V) (h : Heap)
      → (compact_runs_if_needed o layout pass s h).0 ≡ ok tt
      → length (compact_runs_if_needed o layout pass s h).1.runs ≤ max_merge_fan_in
  unfolding compact_runs_if_needed
  compact_runs_if_needed-fan_in pass s h =
      compact_rounds-fan_in (length s.runs) pass 0 s h (omega arith)
