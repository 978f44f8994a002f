-- ===== src/Validation/Events.antt =====
-- Everything that a scan does to its validation state, in any order: what keeps the counts of lib.rs coherent.
use proofframe.Prelude.{
  ℕ, ◌+◌, ◌%◌, ◌≤◌, ◌<◌, ◌≡◌, refl, ap, ◌∙◌, Bool, true, false, List, [], ◌∷◌, String, length,
  length-append, arith, ltb, Bool-cases, Option-cases, get_elem?, inl, inr,
}
use proofframe.Resource.{u64_mod, Heap, ResourceAccount}
use proofframe.Validation.{
  Finding, ValidationState, new, new_accounted, push, count_violations, reserve_finding, push_if,
  record_finding, record_lazy, prepare_evaluated, record_evaluated,
}
use proofframe.Validation.Findings.{IsKept, start, reserve_with-IsKept, record_lazy-counted}

-- a violation, duplicates that are counted without a finding, or the values that a column offered
pub data Event : Type 0 where
  violation : Finding → Event
  uncounted : ℕ → Event
  offered : ℕ → ℕ → Event

-- how many violations the events count
abbrev pub all_counted : List Event → ℕ
all_counted [] = 0
all_counted (violation f ∷ events) = 1 + all_counted events
all_counted (uncounted n ∷ events) = n + all_counted events
all_counted (offered i n ∷ events) = all_counted events

-- The findings of a state are at most its violations and its limit.
pub record IsBounded (m : ℕ) (v : ValidationState) : Type 0 where
  pub limit : v.max_findings ≡ m
  pub counted : length v.findings ≤ v.violation_count
  pub kept : length v.findings ≤ m

start_counted :
    (m plans : ℕ) (account : ResourceAccount) → (start m plans account).violation_count ≡ 0
unfolding prepare_evaluated new_accounted new
start_counted m plans account = refl

start-IsBounded : (m plans : ℕ) (account : ResourceAccount) → IsBounded m (start m plans account)
unfolding prepare_evaluated new_accounted new
start-IsBounded m plans account = record { limit = refl; counted = omega arith; kept = omega arith }

module _ (string_capacity : String → ℕ) where
  abbrev pub record_event : Event → ValidationState → Heap → ValidationState × Heap
  record_event (violation f) v h = record_lazy string_capacity f v h
  record_event (uncounted n) v h = (count_violations n v, h)
  record_event (offered i n) v h = (record_evaluated i n v, h)

  unfoldable pub record_events : List Event → ValidationState → Heap → ValidationState × Heap
  unfolding record_lazy count_violations record_evaluated
  record_events [] v h = (v, h)
  record_events (event ∷ events) v h =
      let (v', h') = record_event event v h in record_events events v' h'

  count_violations-counted :
      (n : ℕ) (v : ValidationState)
      → (count_violations n v).violation_count ≡ (v.violation_count + n) % u64_mod
  unfolding count_violations
  count_violations-counted n v = refl

  count_violations-IsBounded :
      (m n : ℕ) (v : ValidationState)
      → v.violation_count + n < u64_mod
      → IsBounded m v
      → IsBounded m (count_violations n v)
  unfolding count_violations
  count_violations-IsBounded m n v small b = record {
    limit = b.limit;
    counted = omega (arith, small, b.counted);
    kept = b.kept;
  }

  push_if-IsBounded :
      (m : ℕ) (f : Finding) (v v' : ValidationState) (ok_to_push : Bool) (h : Heap)
      → v.violation_count + 1 < u64_mod
      → length v.findings < m
      → IsBounded m v
      → IsKept (count_violations 1 v) ok_to_push v'
      → IsBounded m (push_if f (ok_to_push, v', h)).0
  unfolding push_if push count_violations
  push_if-IsBounded m f v v' true h small room b k = record {
    limit = k.limit ∙ b.limit;
    counted = omega (
      arith,
      small,
      b.counted,
      k.counted,
      ap length k.findings,
      length-append v'.findings (f ∷ []),
    );
    kept = omega (arith, room, ap length k.findings, length-append v'.findings (f ∷ []));
  }
  push_if-IsBounded m f v v' false h small room b k = record {
    limit = k.limit ∙ b.limit;
    counted = omega (arith, small, b.counted, k.counted, ap length k.findings);
    kept = omega (arith, b.kept, ap length k.findings);
  }

  record_lazy-IsBounded :
      (m : ℕ) (f : Finding) (v : ValidationState) (h : Heap)
      → v.violation_count + 1 < u64_mod
      → IsBounded m v
      → IsBounded m (record_lazy string_capacity f v h).0
  unfolding record_lazy record_finding reserve_finding count_violations
  record_lazy-IsBounded m f v h small b =
      elim (Bool-cases (ltb (length v.findings) v.max_findings)) [
        | inl room ↦ rw room (
            push_if-IsBounded m f v _ _ _ small (ground (arith, b.limit)) b (
              reserve_with-IsKept string_capacity v.finding_memory v.resource_error f
                (count_violations 1 v) h refl))
        | inr full ↦ rw full (count_violations-IsBounded m 1 v small b)
      ]

  record_evaluated_cases :
      (m i n : ℕ) (v : ValidationState)
      → IsBounded m v
      → IsBounded m (record_evaluated i n v)
        × ((record_evaluated i n v).violation_count ≡ v.violation_count)
  unfolding record_evaluated
  record_evaluated_cases m i n v b = elim (Option-cases (get_elem? v.evaluated i)) [
    | inl outside ↦ rw (record_evaluated, outside) (b, refl)
    | inr (total, found) ↦
        rw (record_evaluated, found)
          (record { limit = b.limit; counted = b.counted; kept = b.kept }, refl)
  ]

  record_events-IsBounded :
      (m : ℕ) (events : List Event) (v : ValidationState) (h : Heap)
      → v.violation_count + all_counted events < u64_mod
      → IsBounded m v
      → IsBounded m (record_events events v h).0
  unfolding record_events
  record_events-IsBounded m [] v h small b = b
  record_events-IsBounded m (violation f ∷ events) v h small b =
      let (v', h') = record_lazy string_capacity f v h in
      record_events-IsBounded m events v' h'
        (omega (arith, small, record_lazy-counted string_capacity f v h))
        (record_lazy-IsBounded m f v h (omega (arith, small)) b)
  record_events-IsBounded m (uncounted n ∷ events) v h small b =
      record_events-IsBounded m events (count_violations n v) h
        (omega (arith, small, count_violations-counted n v))
        (count_violations-IsBounded m n v (omega (arith, small)) b)
  record_events-IsBounded m (offered i n ∷ events) v h small b =
      let (bounded, same) = record_evaluated_cases m i n v b in
      record_events-IsBounded m events (record_evaluated i n v) h (omega (arith, small, same))
        bounded

  -- from the state in which a validation starts
  pub record_events-start-IsBounded :
      (m plans : ℕ) (account : ResourceAccount) (events : List Event) (h : Heap)
      → all_counted events < u64_mod
      → IsBounded m (record_events events (start m plans account) h).0
  record_events-start-IsBounded m plans account events h small =
      record_events-IsBounded m events (start m plans account) h
        (omega (arith, small, start_counted m plans account)) (start-IsBounded m plans account)
