-- ===== src/Distinct/Merge/Equal.antt =====
-- Merging sorted runs is scanning all their records sorted: spilling does not change the answer.
use proofframe.Prelude.{
  ℕ, zero, suc, ◌+◌, ◌≤◌, ◌≡◌, refl, ap, ◌∙◌, Bool, false, List, [], ◌∷◌, ◌++◌, some, arith, length,
  append-nil, append_assoc,
}
use proofframe.Error.{Result, ok, err, ◌>>◌}
use proofframe.Sorting.{Order, sort}
use proofframe.Distinct.Scan.{Rec, rec_order, Tally, fresh_tally, visit, check_at, scan}
use proofframe.Distinct.Heap.{Entry, refill, open_heap, pending, IsHeap}
use proofframe.Distinct.Heap.Pending.{
  sort-pop, sort-refill, IsHeap-refill, length-refill, concat, AllSorted, IsHeap-open_heap,
  sort-open_heap,
}
use proofframe.Distinct.Merge.{checked, merge_loop, merge, compact_loop, compact_payload}

checked-some {ℓ} :
    {A : Type ℓ} (c : Result (Unit {0})) (r : Result A) → checked c (some r) ≡ some (c >> r)
checked-some (ok _) r = refl
checked-some (err e) r = refl

module _ {V : Type 0} (o : Order V) (flag : ℕ → Bool) where
  merge_loop-scan :
      (max_samples fuel i : ℕ) (heap : List (Entry V)) (t : Tally V)
      → IsHeap o heap
      → length (pending heap) ≤ fuel
      → merge_loop o flag max_samples fuel i heap t
        ≡ some (scan o max_samples flag i (sort (rec_order o) (pending heap)) t)
  merge_loop-scan max_samples fuel i [] t h enough = unfold merge_loop sort scan in refl
  merge_loop-scan max_samples zero i (e ∷ es) t h enough = absurd (omega arith)
  merge_loop-scan max_samples (suc fuel) i (e ∷ es) t h enough = merge_round (
      merge_loop-scan max_samples fuel (i + 1) (refill o e.key.1 e.rest es)
        (visit o max_samples t e.key.0) (IsHeap-refill o e.key.1 e.rest es h.0.1 h.2)
        (omega (arith, length-refill o e.key.1 e.rest es)))
    where
      merge_round :
          merge_loop o flag max_samples fuel
              (i + 1)
              (refill o e.key.1 e.rest es)
              (visit o max_samples t e.key.0)
            ≡ some (
                scan o max_samples flag
                  (i + 1)
                  (sort (rec_order o) (pending (refill o e.key.1 e.rest es)))
                  (visit o max_samples t e.key.0))
          → merge_loop o flag max_samples (suc fuel) i (e ∷ es) t
            ≡ some (scan o max_samples flag i (sort (rec_order o) (pending (e ∷ es))) t)
      merge_round ih =
          rw (sort-pop o e es h)
            (unfold merge_loop scan in rw (ih, sort-refill) (checked-some (check_at flag i) _))

  -- For sorted runs the merge ends, and answers what the scan of all their records in sorted order
  -- does, which is what a state that never spilled answers: the counts, the samples, and the place
  -- at which a cancellation is noticed.
  pub merge-scan :
      (max_samples : ℕ) (runs : List (List (Rec V)))
      → AllSorted o runs
      → merge o flag max_samples runs
        ≡ some (scan o max_samples flag 0 (sort (rec_order o) (concat o runs)) (fresh_tally V))
  unfolding merge
  merge-scan max_samples runs s =
      merge_loop-scan max_samples _ 0 (open_heap o 0 runs []) (fresh_tally V)
        (IsHeap-open_heap o 0 runs [] s tt) (omega arith)
      ∙ rw (sort-open_heap, append-nil)

  -- the rounds of `compact_loop`, over the records in the order in which they come
  copied : ℕ → List (Rec V) → List (Rec V) → Result (List (Rec V))
  copied i [] written = ok written
  copied i (r ∷ rs) written = check_at flag i >> copied (i + 1) rs (written ++ r ∷ [])

  copied_ok :
      (i : ℕ) (rs written ws : List (Rec V)) → copied i rs written ≡ ok ws → ws ≡ written ++ rs
  unfolding copied
  copied_ok i [] written ws e = rw append-nil (cc)
  copied_ok i (r ∷ rs) written ws e =
      copied_ok (i + 1) rs (written ++ r ∷ []) ws (after_check (check_at flag i) e)
      ∙ append_assoc written (r ∷ []) rs
    where
      after_check :
          (c : Result (Unit {0}))
          → (c >> copied (i + 1) rs (written ++ r ∷ [])) ≡ ok ws
          → copied (i + 1) rs (written ++ r ∷ []) ≡ ok ws
      after_check (ok _) h = h
      after_check (err x) h = cc

  copied_running :
      (i : ℕ) (rs written : List (Rec V))
      → ((j : ℕ) → flag j ≡ false)
      → copied i rs written ≡ ok (written ++ rs)
  unfolding copied
  copied_running i [] written running = rw append-nil
  copied_running i (r ∷ rs) written running = after_check (running i) (
      copied_running (i + 1) rs (written ++ r ∷ []) running
      ∙ ap ok (append_assoc written (r ∷ []) rs))
    where
      after_check :
          {x y : Result (List (Rec V))} → flag i ≡ false → x ≡ y → (check_at flag i >> x) ≡ y
      after_check quiet h = ground (arith)

  compact_loop-copied :
      (fuel i : ℕ) (heap : List (Entry V)) (written : List (Rec V))
      → IsHeap o heap
      → length (pending heap) ≤ fuel
      → compact_loop o flag fuel i heap written
        ≡ some (copied i (sort (rec_order o) (pending heap)) written)
  compact_loop-copied fuel i [] written h enough = unfold compact_loop sort copied in refl
  compact_loop-copied zero i (e ∷ es) written h enough = absurd (omega arith)
  compact_loop-copied (suc fuel) i (e ∷ es) written h enough = compact_round (
      compact_loop-copied fuel (i + 1) (refill o e.key.1 e.rest es) (written ++ e.key.0 ∷ [])
        (IsHeap-refill o e.key.1 e.rest es h.0.1 h.2)
        (omega (arith, length-refill o e.key.1 e.rest es)))
    where
      compact_round :
          compact_loop o flag fuel (i + 1) (refill o e.key.1 e.rest es) (written ++ e.key.0 ∷ [])
            ≡ some (
                copied
                  (i + 1)
                  (sort (rec_order o) (pending (refill o e.key.1 e.rest es)))
                  (written ++ e.key.0 ∷ []))
          → compact_loop o flag (suc fuel) i (e ∷ es) written
            ≡ some (copied i (sort (rec_order o) (pending (e ∷ es))) written)
      compact_round ih =
          rw (sort-pop o e es h)
            (unfold compact_loop copied in rw (ih, sort-refill) (checked-some (check_at flag i) _))

  compact_payload-copied :
      (runs : List (List (Rec V)))
      → AllSorted o runs
      → compact_payload o flag runs ≡ some (copied 0 (sort (rec_order o) (concat o runs)) [])
  unfolding compact_payload
  compact_payload-copied runs s =
      compact_loop-copied _ 0 (open_heap o 0 runs []) [] (IsHeap-open_heap o 0 runs [] s tt)
        (omega arith)
      ∙ rw (sort-open_heap, append-nil)

  -- Where the compaction of sorted runs ends without an error, what it wrote is all their records,
  -- sorted.
  pub compact_payload-ok :
      (runs : List (List (Rec V))) (ws : List (Rec V))
      → AllSorted o runs
      → compact_payload o flag runs ≡ some (ok ws)
      → ws ≡ sort (rec_order o) (concat o runs)
  compact_payload-ok runs ws s e =
      copied_ok 0 (sort (rec_order o) (concat o runs)) [] ws (cc (compact_payload-copied runs s, e))

  -- While no cancellation is seen, the compaction of sorted runs ends without an error, and has written
  -- all their records, sorted.
  pub compact_payload-running :
      (runs : List (List (Rec V)))
      → AllSorted o runs
      → ((j : ℕ) → flag j ≡ false)
      → compact_payload o flag runs ≡ some (ok (sort (rec_order o) (concat o runs)))
  compact_payload-running runs s running =
      compact_payload-copied runs s ∙ ap some (copied_running 0 _ [] running)
