-- ===== src/Execution/Unique.antt =====
-- What the unique rules add to the count of violations, in `finish_unique_states` of execution/mod.rs.
use proofframe.Prelude.{
  ℕ, Option-cases, inl, inr, ◌+◌, ◌-◌, ◌%◌, ◌≤◌, ◌<◌, ◌≡◌, refl, sym, ap, ◌∙◌, Bool, List, [], ◌∷◌,
  Option, none, some, String, arith, length,
}
use proofframe.Error.{Result, ok, err}
use proofframe.Resource.{u64_mod, Heap, ResourceAccount}
use proofframe.Sorting.{Order}
use proofframe.Distinct.{Rec, ExactSummary}
use proofframe.Distinct.Exact.{distinct_values, visits-exact}
use proofframe.Spill.State.{ExactState, fixed_layout}
use proofframe.Spill.Ops.{new_with_cancellation}
use proofframe.Spill.Finish.{finish as finish_fixed}
use proofframe.Sorting.Bytes.{bytes_order}
use proofframe.Spill.Bytes.{ByteState, new_bytes}
use proofframe.Spill.Bytes.Stored.{insert_values}
use proofframe.Spill.Bytes.Finish.{finish_bytes, finish_bytes-figures}
use proofframe.Spill.Refine.{Insertion, inserted, insert_all, figures, figures_of, finish-refines}
use proofframe.Validation.{Finding, ValidationState, check_resources, count_violations}
use proofframe.Validation.Findings.{record_lazy-counted}
use proofframe.Execution.{
  SpillMetrics, Run, proceed, duplicate_finding, record_checked, record_samples, finish_summary,
  finish_result, finish_column, finish_unique_states, finish_state, UniqueState,
}

proceed-ok :
    {A B : Type 0} (x : Run A) (k : A → ValidationState → Heap → Run B) (b : B)
    → (proceed x k).0 ≡ ok b
    → (a : A) × (x.0 ≡ ok a) × (proceed x k ≡ k a x.1 x.2)
unfolding proceed
proceed-ok (ok a, v, h) k b e = (a, refl, refl)
proceed-ok (err x, v, h) k b e = cc

check_resources-counted :
    (v : ValidationState) → (check_resources v).1.violation_count ≡ v.violation_count
unfolding check_resources
check_resources-counted v = elim (Option-cases v.resource_error) [
  | inl quiet ↦ rw (quiet, check_resources) refl
  | inr (e, set) ↦ rw (set, check_resources) refl
]

module _ (string_capacity : String → ℕ) where
  record_checked-counted :
      (f : Finding) (v : ValidationState) (h : Heap)
      → (record_checked string_capacity f v h).1.violation_count ≡ (v.violation_count + 1) % u64_mod
  unfolding record_checked
  record_checked-counted f v h =
      check_resources-counted _ ∙ record_lazy-counted string_capacity f v h

  record_samples-counted :
      (column : String) (ds : List (ℕ × ℕ)) (v : ValidationState) (h : Heap)
      → v.violation_count + length ds < u64_mod
      → (record_samples string_capacity column ds v h).0 ≡ ok tt
      → (record_samples string_capacity column ds v h).1.violation_count
        ≡ v.violation_count + length ds
  unfolding record_samples
  record_samples-counted column [] v h small e = omega arith
  record_samples-counted column (d ∷ ds) v h small e =
      let (r, v', h') = record_checked string_capacity (duplicate_finding column d) v h in
      let (_, _, next) =
        proceed-ok (r, v', h') (λ _ v' h'. record_samples string_capacity column ds v' h') tt e in
      let here = record_checked-counted (duplicate_finding column d) v h in
      let there =
        record_samples-counted column ds v' h' (omega (arith, small, here))
          (sym (ap (λ x. x.0) next) ∙ e) in
      ap (λ x. x.1.violation_count) next ∙ omega (arith, small, here, there)

  finish_summary-counted :
      (column : String) (s : ExactSummary) (m m' : SpillMetrics) (v : ValidationState) (h : Heap)
      → length s.duplicate_samples ≤ s.duplicate_count
      → v.violation_count + s.duplicate_count < u64_mod
      → (finish_summary string_capacity column s m v h).0 ≡ ok m'
      → (finish_summary string_capacity column s m v h).1.violation_count
        ≡ v.violation_count + s.duplicate_count
  unfolding finish_summary count_violations
  finish_summary-counted column s m m' v h fewer small e =
      let (_, sampled, next) =
        proceed-ok (record_samples string_capacity column s.duplicate_samples v h) _ m' e in
      let here =
        record_samples-counted column s.duplicate_samples v h (omega (arith, fewer, small))
          sampled in
      ap (λ x. x.1.violation_count) next ∙ omega (arith, fewer, small, here)

-- the number of records whose value some other record has, all but one
abbrev pub repeated : {V : Type 0} → Order V → List (Rec V) → ℕ
repeated o rs = length rs - distinct_values o rs

-- the counts and the samples of a summary are those of the records
exact_figures :
    {V : Type 0} (o : Order V) (max_samples : ℕ) (rs : List (Rec V)) (s : ExactSummary)
    → figures s ≡ figures_of o max_samples rs
    → (s.duplicate_count ≡ repeated o rs) × (length s.duplicate_samples ≤ s.duplicate_count)
unfolding figures_of
exact_figures o max_samples rs s same =
    let (distinct, total, samples) = visits-exact o max_samples rs in
    let first = ap (λ f. f.0) same in
    let second = ap (λ f. f.1) same in
    let third = ap (λ f. length f.2) same in
    (omega (arith, distinct, total, first, second), omega (arith, samples, second, third))

module _ (cursor_bytes : ℕ) where
  -- States that were created and then filled by the calls of `insert` over a scan, none of which failed.
  pub record IsFilled {V : Type 0} (o : Order V) (state : ExactState V) : Type 0 where
    pub account : ResourceAccount
    pub directory : Option Bool
    pub hint : Option ℕ
    pub before : Heap
    pub created : ExactState V
    pub created_ok : (new_with_cancellation account directory hint before).0 ≡ ok created
    pub calls : List (Insertion V)
    pub after : Heap
    pub filled_ok : (insert_all o (fixed_layout cursor_bytes) calls created after).0 ≡ ok tt
    pub reached : state ≡ (insert_all o (fixed_layout cursor_bytes) calls created after).1

  pub record IsFilledBytes (state : ByteState) : Type 0 where
    pub account : ResourceAccount
    pub directory : Option Bool
    pub hint : Option ℕ
    pub before : Heap
    pub created : ByteState
    pub created_ok : (new_bytes account directory hint before).0 ≡ ok created
    pub calls : List (Insertion (List ℕ))
    pub after : Heap
    pub filled_ok : (insert_values cursor_bytes calls created after).0 ≡ ok tt
    pub reached : state ≡ (insert_values cursor_bytes calls created after).1

  abbrev pub Filled : UniqueState → Type 0
  Filled (UniqueState.fixed_state o s loads) = IsFilled o s
  Filled (UniqueState.byte_state s loads) = IsFilledBytes s

  -- the records that repeat a value in a column
  abbrev pub repeated_in : (u : UniqueState) → Filled u → ℕ
  repeated_in (UniqueState.fixed_state o s loads) filled = repeated o (inserted filled.calls)
  repeated_in (UniqueState.byte_state s loads) filled = repeated bytes_order (inserted filled.calls)

  abbrev pub AreFilled : List (String × Option UniqueState) → Type 0
  AreFilled [] = Unit
  AreFilled ((column, none) ∷ rest) = AreFilled rest
  AreFilled ((column, some u) ∷ rest) = Filled u × AreFilled rest

  -- over all the columns, the records that repeat a value
  abbrev pub all_repeated : (columns : List (String × Option UniqueState)) → AreFilled columns → ℕ
  all_repeated [] filled = 0
  all_repeated ((column, none) ∷ rest) filled = all_repeated rest filled
  all_repeated ((column, some u) ∷ rest) (filled, others) =
      repeated_in u filled + all_repeated rest others

  finish_state-repeated :
      (u : UniqueState) (filled : Filled u) (h : Heap) (s : ExactSummary)
      → (finish_state cursor_bytes u h).0 ≡ ok s
      → (s.duplicate_count ≡ repeated_in u filled)
        × (length s.duplicate_samples ≤ s.duplicate_count)
  unfolding finish_state
  finish_state-repeated (UniqueState.fixed_state o state loads) filled h s finished =
      exact_figures o filled.account.limits.max_samples (inserted filled.calls) s (
        finish-refines o (fixed_layout cursor_bytes) filled.account filled.directory filled.hint
          filled.before filled.created filled.calls loads filled.after h s filled.created_ok
          filled.filled_ok
          (ap (λ state. (finish_fixed o (fixed_layout cursor_bytes) loads state h).0)
              (sym filled.reached)
            ∙ finished))
  finish_state-repeated (UniqueState.byte_state state loads) filled h s finished =
      exact_figures bytes_order filled.account.limits.max_samples (inserted filled.calls) s (
        finish_bytes-figures cursor_bytes filled.account filled.directory filled.hint filled.before
          filled.created filled.calls loads filled.after h s filled.created_ok filled.filled_ok
          (ap (λ state. (finish_bytes cursor_bytes loads state h).0) (sym filled.reached)
            ∙ finished))

  module _ (string_capacity : String → ℕ) where
    finish_result-counted :
        (column : String) (r : Result ExactSummary × Heap) (n : ℕ) (m m' : SpillMetrics)
        (v : ValidationState)
        → ((s : ExactSummary)
            → r.0 ≡ ok s
            → (s.duplicate_count ≡ n) × (length s.duplicate_samples ≤ s.duplicate_count))
        → v.violation_count + n < u64_mod
        → (finish_result string_capacity column r m v).0 ≡ ok m'
        → (finish_result string_capacity column r m v).1.violation_count ≡ v.violation_count + n
    unfolding finish_result
    finish_result-counted column (err x, h) n m m' v exact small e = cc
    finish_result-counted column (ok s, h) n m m' v exact small e =
        let (same, fewer) = exact s refl in
        finish_summary-counted string_capacity column s m m' v h fewer (omega (arith, same, small))
          e
        ∙ omega (arith, same)

    -- Over columns of fixed-width values and of byte strings, whose exact states were created and then filled by
    -- a scan, however often they spilled: where the unique rules end without an error and the count stays below
    -- 2 ^ 64, they add to the violations, over their columns, the number of inserted records that repeat a
    -- value, however few samples the limits let them keep.
    pub finish_unique_states-counted :
        (columns : List (String × Option UniqueState)) (filled : AreFilled columns)
        (m m' : SpillMetrics) (v : ValidationState) (h : Heap)
        → v.violation_count + all_repeated columns filled < u64_mod
        → (finish_unique_states string_capacity cursor_bytes columns m v h).0 ≡ ok m'
        → (finish_unique_states string_capacity cursor_bytes columns m v h).1.violation_count
          ≡ v.violation_count + all_repeated columns filled
    unfolding finish_unique_states finish_column
    finish_unique_states-counted [] filled m m' v h small e = omega arith
    finish_unique_states-counted ((column, none) ∷ rest) filled m m' v h small e =
        finish_unique_states-counted rest filled m m' v h small e
    finish_unique_states-counted ((column, some u) ∷ rest) (filled, others) m m' v h small e =
        let finished = finish_state cursor_bytes u h in
        let n = repeated_in u filled in
        let (r, v', h') = finish_result string_capacity column finished m v in
        let (m1, first, next) =
          proceed-ok (r, v', h')
            (λ m1 v' h'. finish_unique_states string_capacity cursor_bytes rest m1 v' h') m' e in
        let here =
          finish_result-counted column finished n m m1 v (finish_state-repeated u filled h)
            (omega (arith, small)) first in
        let there =
          finish_unique_states-counted rest others m1 m' v' h' (omega (arith, small, here))
            (sym (ap (λ x. x.0) next) ∙ e) in
        ap (λ x. x.1.violation_count) next ∙ omega (arith, here, there)
