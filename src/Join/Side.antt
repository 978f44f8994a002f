-- ===== src/Join/Side.antt =====
-- `UniqueMerge` of distinct/run.rs: each value of some sorted runs once, with the lowest row that has it.
use proofframe.Prelude.{
  ℕ, zero, suc, ◌+◌, Bool, List, [], ◌∷◌, Option, none, some, length, if◌then◌else◌,
}
use proofframe.Error.{Result, ok, err}
use proofframe.Resource.{check}
use proofframe.Sorting.{Order}
use proofframe.Distinct.{Rec, same}
use proofframe.Distinct.Heap.{Entry, refill, open_heap, pending}
use proofframe.Distinct.Merge.{checked}
use proofframe.Spill.State.{Run, records_of}

-- `?` after a loop; `none` is a loop out of fuel
unfoldable pub then_run :
    {A B : Type 0} → Option (Result A) → (A → Option (Result B)) → Option (Result B)
then_run none rest = none
then_run (some (ok a)) rest = rest a
then_run (some (err e)) rest = some (err e)

-- One side of a join: its merge, how many values it gave, and the value that it stands at.
pub record Side (V : Type 0) : Type 0 where
  pub heap : List (Entry V)
  pub distinct : ℕ
  pub value : Option (Rec V)

module _ {V : Type 0} (o : Order V) where
  -- The loop of `next_unique_with_row`, on as much fuel as there are records: each round pops one.
  unfoldable pub skip_equal : ℕ → V → List (Entry V) → Option (List (Entry V))
  unfolding refill
  skip_equal fuel value [] = some []
  skip_equal zero value (e ∷ es) = if same o e.key.0.0 value then none else some (e ∷ es)
  skip_equal (suc fuel) value (e ∷ es) =
      let popped = skip_equal fuel value (refill o e.key.1 e.rest es) in
      if same o e.key.0.0 value then popped else some (e ∷ es)

  abbrev pub stand_at : Side V → Rec V → Option (List (Entry V)) → Option (Result (Side V))
  stand_at s r none = none
  stand_at s r (some heap) =
      some (ok (record { heap = heap; distinct = s.distinct + 1; value = some r }))

  -- `next_unique_with_row` without its check, and the count of `next_counted_with_row`
  unfoldable pub advance_by : List (Entry V) → Side V → Option (Result (Side V))
  unfolding skip_equal
  advance_by [] s = some (ok (record s { heap = []; value = none }))
  advance_by (e ∷ es) s =
      let heap = refill o e.key.1 e.rest es in
      stand_at s e.key.0 (skip_equal (length (pending heap)) e.key.0.0 heap)

  -- `next_counted_with_row`; `next_counted` is the same without the row.
  unfoldable pub advance : Bool → Side V → Option (Result (Side V))
  unfolding advance_by
  advance cancelled s = checked (check cancelled) (advance_by s.heap s)

  -- `UniqueMerge::new` after its checks and reservation
  unfoldable pub open_side : List (Run V) → Side V
  unfolding open_heap
  open_side runs = record { heap = open_heap o 0 (records_of runs) []; distinct = 0; value = none }
