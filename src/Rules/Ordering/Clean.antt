-- ===== src/Rules/Ordering/Clean.antt =====
-- When the rule of execution/ordering.rs records nothing.
use proofframe.Prelude.{
  ℕ, inl, inr, ◌+◌, ◌≤◌, ◌<◌, ◌≡◌, refl, sym, ap, ◌↔◌, Bool, true, false, if◌then◌else◌, List, [],
  ◌∷◌, Option, none, some, String, arith, length,
}
use proofframe.Error.{Result, ok, err, ◌>>=◌, bind-ok, ok-eq, Result-cases}
use proofframe.Resource.{u64_mod, Heap}
use proofframe.Validation.{Finding, ValidationState, record_all}
use proofframe.Validation.Findings.{record_all-counted}
use proofframe.Rules.Ordering.{
  Ordered, MonotonicityPlan, skip, follows, order_finding, value_findings, visit_row,
  update_ordering,
}
use proofframe.Rules.Ordering.Batches.{update_ordering-ok, update_ordering-err, update_ordering-nil}
use proofframe.Rules.Ordering.Sorted.{
  InOrder, present, readable, good, follows-good, steps, steps-none,
}

-- what a value that is not null records, and how many times
step_of : MonotonicityPlan → Option Ordered → Ordered → ℕ
unfolding good
step_of plan none x = 0
step_of plan (some p) x = if good plan.direction p x then 0 else 1

value_findings-length :
    (plan : MonotonicityPlan) (row : ℕ) (p : Option Ordered) (x : Ordered) (fs : List Finding)
    → value_findings plan row p x ≡ ok fs
    → length fs ≡ step_of plan p x
unfolding value_findings step_of
value_findings-length plan row none x fs e = ap length (sym (ok-eq [] fs e))
value_findings-length plan row (some p) x fs e =
    let (b, is, made) = bind-ok (follows plan.direction p x) _ fs e in
    rw (sym (ok-eq _ fs made), follows-good plan.direction p x b is) (each b)
  where
    each :
        (b : Bool)
        → length {A = Finding} (if b then [] else order_finding plan row ∷ [])
          ≡ (if b then 0 else 1)
    each true = refl
    each false = refl

step_of-small : (plan : MonotonicityPlan) (p : Option Ordered) (x : Ordered) → step_of plan p x ≤ 1
unfolding step_of
step_of-small plan none x = omega arith
step_of-small plan (some p) x = ground arith

steps-cons :
    (plan : MonotonicityPlan) (p : Option Ordered) (x : Ordered) (xs : List Ordered)
    → steps plan.direction p (x ∷ xs) ≡ step_of plan p x + steps plan.direction (some x) xs
unfolding steps step_of
steps-cons plan none x xs = omega arith
steps-cons plan (some p) x xs = refl

visit-none :
    (plan : MonotonicityPlan) (row : ℕ) (p : Option Ordered)
    → plan.nulls ≡ skip
    → visit_row plan row p none ≡ ok ([], p)
unfolding visit_row
visit-none plan row p skips = rw skips refl

visit-some :
    (plan : MonotonicityPlan) (row : ℕ) (p : Option Ordered) (x : Ordered)
    (r : Result (List Finding))
    → value_findings plan row p x ≡ r
    → visit_row plan row p (some (ok x)) ≡ (r >>= λ fs. ok (fs, some x))
unfolding visit_row
visit-some plan row p x r e = rw e refl

module _ (string_capacity : String → ℕ) where
  update_ordering-counted :
      (plan : MonotonicityPlan) (row : ℕ) (cells : List (Option Ordered)) (p last : Option Ordered)
      (v : ValidationState) (h : Heap)
      → plan.nulls ≡ skip
      → v.violation_count + length cells < u64_mod
      → (update_ordering string_capacity plan row (readable cells) p v h).0 ≡ ok last
      → (update_ordering string_capacity plan row (readable cells) p v h).1.violation_count
        ≡ v.violation_count + steps plan.direction p (present cells)
  unfolding steps record_all
  update_ordering-counted plan row [] p last v h skips small e =
      rw (update_ordering-nil string_capacity plan row p v h, steps) (omega arith)
  update_ordering-counted plan row (none ∷ cells) p last v h skips small e =
      let next =
        update_ordering-ok string_capacity plan row none (readable cells) p p v h []
          (visit-none plan row p skips) in
      rw (next, record_all)
        (update_ordering-counted plan (row + 1) cells p last v h skips (omega (arith, small))
          (rw (next, record_all) at e))
  update_ordering-counted plan row (some x ∷ cells) p last v h skips small e =
      elim (Result-cases (value_findings plan row p x)) [
        | inl (fs, made) ↦
            let (v', h') = record_all string_capacity fs v h in
            let next =
              update_ordering-ok string_capacity plan row (some (ok x)) (readable cells) p (some x)
                v h fs (visit-some plan row p x (ok fs) made) in
            let one = value_findings-length plan row p x fs made in
            let few = step_of-small plan p x in
            let here = record_all-counted string_capacity fs v h (omega (arith, small, one, few)) in
            let rest =
              update_ordering-counted plan (row + 1) cells (some x) last v' h' skips
                (omega (arith, small, one, few, here)) (rw next at e) in
            rw next (omega (arith, one, here, rest, steps-cons plan p x (present cells)))
        | inr (y, bad) ↦
            let stop =
              update_ordering-err string_capacity plan row (some (ok x)) (readable cells) p v h y
                (visit-some plan row p x (err y) bad) in
            let clash : Result.err y ≡ ok last = (rw stop at e) in cc
      ]

  -- Where nulls are skipped and the count stays below 2 ^ 64, a scan of a whole column that ends without
  -- an error records a violation
  -- for some row unless every value of the column stands in the rule's direction to every value after
  -- it, and records none if so: comparing each value with the one before is enough.
  pub update_ordering-InOrder :
      (plan : MonotonicityPlan) (row : ℕ) (cells : List (Option Ordered)) (last : Option Ordered)
      (v : ValidationState) (h : Heap)
      → plan.nulls ≡ skip
      → v.violation_count + length cells < u64_mod
      → (update_ordering string_capacity plan row (readable cells) none v h).0 ≡ ok last
      → ((update_ordering string_capacity plan row (readable cells) none v h).1.violation_count
          ≡ v.violation_count)
        ↔ InOrder plan.direction (present cells)
  update_ordering-InOrder plan row cells last v h skips small e =
      let counted = update_ordering-counted plan row cells none last v h skips small e in
      let (sound, complete) = steps-none plan.direction (present cells) in
      (
        λ same. sound (omega (arith, counted, same)),
        λ order. omega (arith, counted, complete order),
      )
