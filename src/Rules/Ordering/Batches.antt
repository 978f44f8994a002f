-- ===== src/Rules/Ordering/Batches.antt =====
-- How the rule of execution/ordering.rs sees a column that comes in batches.
use proofframe.Prelude.{
  ℕ, inl, inr, ◌+◌, ◌≡◌, refl, sym, ap, List, [], ◌∷◌, ◌++◌, Option, String, arith, length,
}
use proofframe.Error.{ProofFrameError, Result, ok, err, Result-cases}
use proofframe.Resource.{Heap}
use proofframe.Validation.{Finding, ValidationState, record_all}
use proofframe.Execution.{proceed}
use proofframe.Rules.Ordering.{Ordered, MonotonicityPlan, visit_row, update_ordering}

module _ (string_capacity : String → ℕ) where
  pub update_ordering-ok :
      (plan : MonotonicityPlan) (row : ℕ) (cell : Option (Result Ordered))
      (cells : List (Option (Result Ordered))) (previous previous' : Option Ordered)
      (v : ValidationState) (h : Heap) (fs : List Finding)
      → visit_row plan row previous cell ≡ ok (fs, previous')
      → update_ordering string_capacity plan row (cell ∷ cells) previous v h
        ≡ update_ordering string_capacity plan
            (row + 1)
            cells
            previous'
            (record_all string_capacity fs v h).0
            (record_all string_capacity fs v h).1
  unfolding update_ordering
  update_ordering-ok plan row cell cells previous previous' v h fs e = rw (e, update_ordering) refl

  pub update_ordering-err :
      (plan : MonotonicityPlan) (row : ℕ) (cell : Option (Result Ordered))
      (cells : List (Option (Result Ordered))) (previous : Option Ordered) (v : ValidationState)
      (h : Heap) (x : ProofFrameError)
      → visit_row plan row previous cell ≡ err x
      → update_ordering string_capacity plan row (cell ∷ cells) previous v h ≡ (err x, v, h)
  unfolding update_ordering
  update_ordering-err plan row cell cells previous v h x e = rw (e, update_ordering) refl

  pub update_ordering-nil :
      (plan : MonotonicityPlan) (row : ℕ) (previous : Option Ordered) (v : ValidationState)
      (h : Heap)
      → update_ordering string_capacity plan row [] previous v h ≡ (ok previous, v, h)
  unfolding update_ordering
  update_ordering-nil plan row previous v h = refl

  -- The outcome does not depend on where the reader cuts the rows: a column that comes in one batch
  -- records, ends and carries on as it does in two, the second from the previous value, the state and
  -- the row at which the first ends.
  pub update_ordering-append :
      (plan : MonotonicityPlan) (row : ℕ) (xs ys : List (Option (Result Ordered)))
      (previous : Option Ordered) (v : ValidationState) (h : Heap)
      → update_ordering string_capacity plan row (xs ++ ys) previous v h
        ≡ proceed (update_ordering string_capacity plan row xs previous v h) (λ previous' v' h'.
          update_ordering string_capacity plan (row + length xs) ys previous' v' h')
  unfolding proceed
  update_ordering-append plan row [] ys previous v h =
      rw (update_ordering-nil plan row previous v h)
        (ap (λ r. update_ordering string_capacity plan r ys previous v h) (omega arith))
  update_ordering-append plan row (cell ∷ xs) ys previous v h =
      elim (Result-cases (visit_row plan row previous cell)) [
        | inr (x, bad) ↦
            rw
              (
                update_ordering-err plan row cell (xs ++ ys) previous v h x bad,
                update_ordering-err plan row cell xs previous v h x bad,
              )
              refl
        | inl ((fs, previous'), good) ↦
            let (v', h') = record_all string_capacity fs v h in
            let later : row + 1 + length xs ≡ row + length (cell ∷ xs) = omega arith in
            rw
              (
                update_ordering-ok plan row cell (xs ++ ys) previous previous' v h fs good,
                update_ordering-ok plan row cell xs previous previous' v h fs good,
                sym later,
              )
              (update_ordering-append plan (row + 1) xs ys previous' v' h')
      ]
