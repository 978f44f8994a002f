-- ===== src/Join/Sides.antt =====
-- A side of a join in distinct/run.rs gives the values of its runs once each, in ascending order.
use proofframe.Prelude.{
  ℕ, zero, suc, ◌+◌, ◌≤◌, ◌≡◌, refl, sym, ap, ◌∙◌, Bool, Bool-cases, inl, inr, List, [], ◌∷◌,
  Option, none, some, arith, length, append-nil,
}
use proofframe.Error.{ok}
use proofframe.Sorting.{Order, sort}
use proofframe.Sorting.Laws.{length-sort}
use proofframe.Distinct.{Rec, rec_order, same}
use proofframe.Distinct.Heap.{Entry, refill, pending, IsHeap}
use proofframe.Distinct.Heap.Pending.{
  sort-pop, sort-refill, IsHeap-refill, length-refill, concat, AllSorted, IsHeap-open_heap,
  sort-open_heap,
}
use proofframe.Spill.State.{Run, records_of}
use proofframe.Join.Side.{Side, skip_equal, advance_by, advance, open_side}
use proofframe.Join.Lowest.{
  lowest, lowest_fewer, lowest_after, lowest_cons, lowest_after-again, lowest_after-new,
}
use proofframe.Join.Ends.{Ends, Ends-checked}

-- the value that a side stands at, of those that it has left
abbrev pub front : {V : Type 0} → List (Rec V) → Option (Rec V)
front [] = none
front (r ∷ rs) = some r

module _ {V : Type 0} (o : Order V) where
  -- the merge will give these records
  pub record Pops (rs : List (Rec V)) (heap : List (Entry V)) : Type 0 where
    pub heap_ok : IsHeap o heap
    pub same : lowest o (sort (rec_order o) (pending heap)) ≡ rs

  -- The records of the runs are fuel enough.
  pub pending_enough :
      (rs : List (Rec V)) (heap : List (Entry V)) → Pops rs heap → length rs ≤ length (pending heap)
  pending_enough rs heap pops =
      let sorted = sort (rec_order o) (pending heap) in
      omega (
        arith,
        ap length pops.same,
        lowest_fewer o sorted,
        length-sort (rec_order o) (pending heap),
      )

  -- a side before its next value
  abbrev pub Ahead : ℕ → List (Rec V) → Side V → Type 0
  Ahead total rs s = Pops rs s.heap × (s.distinct + length rs ≡ total)

  -- a side that stands at the first of these records, with the count that it will end with
  abbrev pub Stands : ℕ → List (Rec V) → Side V → Type 0
  Stands total [] s = (s.value ≡ none) × (s.distinct ≡ total)
  Stands total (r ∷ rs) s = (s.value ≡ some r) × Ahead total rs s

  pub Stands-front :
      (total : ℕ) (rs : List (Rec V)) (s : Side V) → Stands total rs s → s.value ≡ front rs
  Stands-front total [] s stands = stands.0
  Stands-front total (r ∷ rs) s stands = stands.0

  -- The loop over equal values ends, and leaves the greater ones.
  skip_equal-Pops :
      (fuel : ℕ) (v : V) (heap : List (Entry V))
      → IsHeap o heap
      → length (pending heap) ≤ fuel
      → (left : List (Entry V)) × ((skip_equal o fuel v heap ≡ some left)
          × Pops (lowest_after o v (sort (rec_order o) (pending heap))) left)
  unfolding skip_equal
  skip_equal-Pops fuel v [] h enough =
      ([], (refl, record { heap_ok = tt; same = unfold sort lowest in refl }))
  skip_equal-Pops zero v (e ∷ es) h enough = absurd (omega arith)
  skip_equal-Pops (suc fuel) v (e ∷ es) h enough =
      let popped = refill o e.key.1 e.rest es in
      let (left, (ends, pops)) =
        skip_equal-Pops fuel v popped (IsHeap-refill o e.key.1 e.rest es h.0.1 h.2)
          (omega (arith, enough, length-refill o e.key.1 e.rest es)) in
      elim (Bool-cases (same o e.key.0.0 v)) [
        | inl again ↦ (
          left,
          (
            rw again ends,
            rw
                (ap (lowest_after o v) (sort-pop o e es h)
                  ∙ lowest_after-again o v e.key.0 _ again
                  ∙ ap (lowest_after o v) (sym (sort-refill o e.key.1 e.rest es)))
                pops,
          ),
        )
        | inr new ↦ (
          e ∷ es,
          (
            rw new,
            record {
              heap_ok = h;
              same =
                  ap (lowest o) (sort-pop o e es h)
                  ∙ lowest_cons o e.key.0 _
                  ∙ sym (lowest_after-new o v e.key.0 _ new)
                  ∙ ap (lowest_after o v) (sym (sort-pop o e es h));
            },
          ),
        )
      ]

  advance_by-Stands :
      (heap : List (Entry V)) (s : Side V) (total : ℕ) (rs : List (Rec V))
      → Pops rs heap
      → s.distinct + length rs ≡ total
      → (next : Side V) × ((advance_by o heap s ≡ some (ok next)) × Stands total rs next)
  unfolding advance_by
  advance_by-Stands [] s total rs pops count =
      let nothing : [] ≡ rs = unfold sort lowest in pops.same in
      (
        record s { heap = []; value = none },
        (refl, rw (sym nothing) (refl, omega (arith, count, ap length nothing))),
      )
  advance_by-Stands (e ∷ es) s total rs pops count =
      let popped = refill o e.key.1 e.rest es in
      let h : IsHeap o (e ∷ es) = pops.heap_ok in
      let (left, (ends, later)) =
        skip_equal-Pops (length (pending popped)) e.key.0.0 popped
          (IsHeap-refill o e.key.1 e.rest es h.0.1 h.2) (omega arith) in
      let first : e.key.0 ∷ lowest_after o e.key.0.0 (sort (rec_order o) (pending popped)) ≡ rs =
        ap (λ l. e.key.0 ∷ lowest_after o e.key.0.0 l) (sort-refill o e.key.1 e.rest es)
        ∙ sym (ap (lowest o) (sort-pop o e es h) ∙ lowest_cons o e.key.0 _)
        ∙ pops.same in
      (
        record { heap = left; distinct = s.distinct + 1; value = some e.key.0 },
        (rw ends, rw (sym first) (refl, (later, omega (arith, count, ap length first)))),
      )

  -- The next value is the first of those ahead.
  pub advance-Stands :
      (flag : ℕ → Bool) (j total : ℕ) (rs : List (Rec V)) (s : Side V)
      → Ahead total rs s
      → Ends flag (Stands total rs) (advance o (flag j) s)
  unfolding advance
  advance-Stands flag j total rs s ahead =
      let (next, ends) = advance_by-Stands s.heap s total rs ahead.0 ahead.1 in
      Ends-checked flag (Stands total rs) j (advance_by o s.heap s) (inl (next, ends))

  pub open_side-Ahead :
      (runs : List (Run V))
      → AllSorted o (records_of runs)
      → let all = lowest o (sort (rec_order o) (concat o (records_of runs))) in
        Ahead (length all) all (open_side o runs)
  unfolding open_side
  open_side-Ahead runs sorted = (
    record {
      heap_ok = IsHeap-open_heap o 0 (records_of runs) [] sorted tt;
      same = ap (lowest o) (
          sort-open_heap o 0 (records_of runs) []
          ∙ ap (sort (rec_order o)) (append-nil (concat o (records_of runs))));
    },
    omega arith,
  )
