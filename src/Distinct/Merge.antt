-- ===== src/Distinct/Merge.antt =====
-- The merge loops of distinct/run.rs: `merge`, and the payload loop of `compact`. Both take one record
-- from the heap in each round, so the number of records is fuel enough; `none` would be its end.
pub mod Equal
use proofframe.Prelude.{ℕ, zero, suc, ◌+◌, Bool, List, [], ◌∷◌, ◌++◌, Option, none, some, length}
use proofframe.Error.{Result, ok, err}
use proofframe.Sorting.{Order}
use proofframe.Distinct.Scan.{Rec, Tally, fresh_tally, visit, check_at}
use proofframe.Distinct.Heap.{Entry, refill, open_heap, pending}

-- `check()?` in front of the rest of a round
abbrev pub checked {ℓ} : {A : Type ℓ} → Result (Unit {0}) → Option (Result A) → Option (Result A)
checked (ok _) rest = rest
checked (err e) rest = some (err e)

module _ {V : Type 0} (o : Order V) (flag : ℕ → Bool) where
  unfoldable pub merge_loop : ℕ → ℕ → ℕ → List (Entry V) → Tally V → Option (Result (Tally V))
  unfolding visit refill
  merge_loop max_samples fuel i [] t = some (ok t)
  merge_loop max_samples zero i (e ∷ es) t = none
  merge_loop max_samples (suc fuel) i (e ∷ es) t = checked (check_at flag i) (
      merge_loop max_samples fuel (i + 1) (refill o e.key.1 e.rest es)
        (visit o max_samples t e.key.0))

  -- `merge`, of runs that were read back
  unfoldable pub merge : ℕ → List (List (Rec V)) → Option (Result (Tally V))
  unfolding merge_loop open_heap
  merge max_samples runs =
      let heap = open_heap o 0 runs [] in
      merge_loop max_samples (length (pending heap)) 0 heap (fresh_tally V)

  -- `merge_compacted_payload`: the records in the order in which they are written
  unfoldable pub compact_loop :
      ℕ → ℕ → List (Entry V) → List (Rec V) → Option (Result (List (Rec V)))
  unfolding refill
  compact_loop fuel i [] written = some (ok written)
  compact_loop zero i (e ∷ es) written = none
  compact_loop (suc fuel) i (e ∷ es) written =
      checked (check_at flag i)
        (compact_loop fuel (i + 1) (refill o e.key.1 e.rest es) (written ++ e.key.0 ∷ []))

  unfoldable pub compact_payload : List (List (Rec V)) → Option (Result (List (Rec V)))
  unfolding compact_loop open_heap
  compact_payload runs =
      let heap = open_heap o 0 runs [] in compact_loop (length (pending heap)) 0 heap []
