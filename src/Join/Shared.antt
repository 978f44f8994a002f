-- ===== src/Join/Shared.antt =====
-- `intersect` of distinct/run.rs as a whole: what its summary says of the records on both sides.
use proofframe.Prelude.{
  ℕ, ◌+◌, ◌≡◌, refl, ap, ◌∙◌, Bool, Bool-cases, inl, inr, List, [], ◌∷◌, arith, length, some, take,
  map, All,
}
use proofframe.Error.{Result, ok}
use proofframe.Sorting.{Order, sort, insert}
use proofframe.Sorting.Laws.{sort-IsSorted}
use proofframe.Distinct.{Rec, rec_order, same}
use proofframe.Distinct.Exact.{occurs-sort, distinct_values}
use proofframe.Distinct.Heap.{pending}
use proofframe.Distinct.Heap.Pending.{concat, AllSorted}
use proofframe.Spill.State.{Run, records_of}
use proofframe.Join.Side.{advance, open_side}
use proofframe.Join.Intersect.{
  Intersection, IntersectionSummary, summary_of_intersection, pass_left, pass_other, intersect_run,
}
use proofframe.Join.Lowest.{
  lowest, lowest_after, Ascending, lowest-Ascending, occurs-lowest, length-lowest,
}
use proofframe.Join.Absent.{present, present_cong, collected, collected_fresh}
use proofframe.Join.Ends.{Ends, Ends-then_run, Ends-map}
use proofframe.Join.Sides.{pending_enough, Stands, Ahead, advance-Stands, open_side-Ahead}
use proofframe.Join.Meets.{Digested, sample_of, Meets}
use proofframe.Join.Overlap.{loops-At}

module _ {V : Type 0} (o : Order V) (P : Rec V → Type 0) where
  All-insert : (r : Rec V) (rs : List (Rec V)) → P r → All P rs → All P (insert (rec_order o) r rs)
  unfolding insert
  All-insert r [] p all = (p, tt)
  All-insert r (s ∷ rs) p all = elim (Bool-cases ((rec_order o).leq r s)) [
    | inl le ↦ rw le (p, all)
    | inr gt ↦ rw gt (all.0, All-insert r rs p all.1)
  ]

  pub All-sort : (rs : List (Rec V)) → All P rs → All P (sort (rec_order o) rs)
  unfolding sort
  All-sort [] all = tt
  All-sort (r ∷ rs) all = All-insert r (sort (rec_order o) rs) all.0 (All-sort rs all.1)

  All-lowest_after : (v : V) (rs : List (Rec V)) → All P rs → All P (lowest_after o v rs)
  unfolding lowest_after
  All-lowest_after v [] all = tt
  All-lowest_after v (r ∷ rs) all = elim (Bool-cases (same o r.0 v)) [
    | inl again ↦ rw again (All-lowest_after v rs all.1)
    | inr new ↦ rw new (all.0, All-lowest_after r.0 rs all.1)
  ]

  pub All-lowest : (rs : List (Rec V)) → All P rs → All P (lowest o rs)
  unfolding lowest
  All-lowest [] all = tt
  All-lowest (r ∷ rs) all = (all.0, All-lowest_after r.0 rs all.1)

module _ {V D : Type 0} (o : Order V) (digest : V → Result D) (identity : V → D) where
  -- The abstract view: the values of the left records that some right record has, once each in order.
  unfoldable pub shared_of : List (Rec V) → List (Rec V) → List (Rec V)
  shared_of left right = present o (lowest o (sort (rec_order o) left)) right

  pub record IsMet (max_samples : ℕ) (left right : List (Rec V)) (s : IntersectionSummary D)
      : Type 0 where
    pub left_distinct : s.left_distinct ≡ distinct_values o left
    pub right_distinct : s.right_distinct ≡ distinct_values o right
    pub overlap : s.overlap ≡ length (shared_of left right)
    pub samples :
        s.samples ≡ take max_samples (map (sample_of o digest identity) (shared_of left right))

  module _ (max_samples : ℕ) (flag : ℕ → Bool) where
    Meets-IsMet :
        (left right : List (Rec V)) (s : Intersection V D)
        → let all_left = lowest o (sort (rec_order o) left) in
          let all_right = lowest o (sort (rec_order o) right) in
          let common = present o all_left all_right in
          Meets o digest identity max_samples flag
            (length all_left)
            (length all_right)
            (length common)
            (collected (sample_of o digest identity) max_samples [] common)
            []
            []
            s
          → IsMet max_samples left right (summary_of_intersection s)
    unfolding shared_of
    Meets-IsMet left right s meets =
        let all_left = lowest o (sort (rec_order o) left) in
        let all_right = lowest o (sort (rec_order o) right) in
        let common : present o all_left all_right ≡ shared_of left right =
          present_cong o all_left all_right right
            (λ v. occurs-lowest o v (sort (rec_order o) right) ∙ occurs-sort o v right) in
        record {
          left_distinct = meets.at_left.1 ∙ length-lowest o left;
          right_distinct = meets.at_right.1 ∙ length-lowest o right;
          overlap = omega (arith, meets.counts, ap length common);
          samples =
              meets.collects
              ∙ collected_fresh (sample_of o digest identity) max_samples
                  (present o all_left all_right)
              ∙ ap (λ a. take max_samples (map (sample_of o digest identity) a)) common;
        }

    module _ (all_left all_right : List (Rec V)) where
      -- the left side stands at its first value, and the right one is still to begin
      record Begun (s : Intersection V D) : Type 0 where
        at_left : Stands o (length all_left) all_left s.left
        ahead : Ahead o (length all_right) all_right s.right
        none_met : s.overlap ≡ 0
        none_kept : s.samples ≡ []

      abbrev AtFirst : Intersection V D → Type 0
      AtFirst =
          Meets o digest identity max_samples flag (length all_left) (length all_right)
            (length (present o all_left all_right))
            (collected (sample_of o digest identity) max_samples [] (present o all_left all_right))
            all_left all_right

      pass_left-Begun :
          (s : Intersection V D)
          → Ahead o (length all_left) all_left s.left
          → Ahead o (length all_right) all_right s.right
          → s.overlap ≡ 0
          → s.samples ≡ []
          → Ends flag Begun (pass_left o digest max_samples flag s)
      unfolding pass_left
      pass_left-Begun s ahead_left ahead_right none_met none_kept =
          Ends-then_run flag (Stands o (length all_left) all_left) Begun
            (advance o (flag s.loads) s.left)
            (λ next. some (ok (record s { left = next; loads = s.loads + 1 })))
            (advance-Stands o flag s.loads (length all_left) all_left s.left ahead_left)
            (λ next stands. inl (
              _,
              (
                refl,
                record {
                  at_left = stands;
                  ahead = ahead_right;
                  none_met = none_met;
                  none_kept = none_kept;
                },
              ),
            ))

      pass_other-AtFirst :
          (s : Intersection V D)
          → Begun s
          → Ascending o all_left
          → Ascending o all_right
          → Digested o digest identity all_left
          → Ends flag AtFirst (pass_other o digest max_samples flag s)
      unfolding pass_other
      pass_other-AtFirst s begun left_up right_up digests =
          let common = present o all_left all_right in
          Ends-then_run flag (Stands o (length all_right) all_right) AtFirst
            (advance o (flag s.loads) s.right)
            (λ next. some (ok (record s { right = next; loads = s.loads + 1 })))
            (advance-Stands o flag s.loads (length all_right) all_right s.right begun.ahead)
            (λ next stands. inl (
              _,
              (
                refl,
                record {
                  at_left = begun.at_left;
                  at_right = stands;
                  left_up = left_up;
                  right_up = right_up;
                  digests = digests;
                  counts = omega (arith, begun.none_met);
                  collects =
                      ap (λ ds. collected (sample_of o digest identity) max_samples ds common)
                        begun.none_kept;
                },
              ),
            ))

    -- `intersect` of sorted runs ends, where the left values have digests: either with the number of
    -- different values on each side, the number of values that both sides have, and the digests of the
    -- first of them, as many as fit; or cancelled, where a load of the flag saw it.
    pub intersect_run-IsMet :
        (left right : List (Run V))
        → AllSorted o (records_of left)
        → AllSorted o (records_of right)
        → Digested o digest identity (lowest o (sort (rec_order o) (concat o (records_of left))))
        → Ends flag
            (λ s.
              IsMet max_samples
                (concat o (records_of left))
                (concat o (records_of right))
                (summary_of_intersection s))
            (intersect_run o digest max_samples flag left right)
    unfolding intersect_run
    intersect_run-IsMet left right sorted_left sorted_right digests =
        let l = open_side o left in
        let r = open_side o right in
        let xs = concat o (records_of left) in
        let ys = concat o (records_of right) in
        let all_left = lowest o (sort (rec_order o) xs) in
        let all_right = lowest o (sort (rec_order o) ys) in
        let common = present o all_left all_right in
        let kept = collected (sample_of o digest identity) max_samples [] common in
        let Met : Intersection V D → Type 0 =
          λ s. IsMet max_samples xs ys (summary_of_intersection s) in
        let ahead_left = open_side-Ahead o left sorted_left in
        let ahead_right = open_side-Ahead o right sorted_right in
        let few_left = pending_enough o all_left l.heap ahead_left.0 in
        let few_right = pending_enough o all_right r.heap ahead_right.0 in
        let fuel : ℕ = length (pending l.heap) + length (pending r.heap) in
        let start : Intersection V D = record {
          left = l;
          right = r;
          overlap = 0;
          samples = [];
          loads = 0;
        } in
        Ends-then_run flag (Begun all_left all_right) Met
          (pass_left o digest max_samples flag start) _
          (pass_left-Begun all_left all_right start ahead_left ahead_right refl refl)
          (λ s1 begun.
            Ends-then_run flag (AtFirst all_left all_right) Met
              (pass_other o digest max_samples flag s1) _
              (pass_other-AtFirst all_left all_right s1 begun
                (lowest-Ascending o _ (sort-IsSorted (rec_order o) xs))
                (lowest-Ascending o _ (sort-IsSorted (rec_order o) ys)) digests)
              (λ s2 at.
                Ends-map flag
                  (Meets o digest identity max_samples flag (length all_left) (length all_right)
                    (length common) kept [] [])
                  Met _ (λ s done. Meets-IsMet xs ys s done)
                  (loops-At o digest max_samples flag identity (length all_left) (length all_right)
                    (length common) kept fuel all_left all_right s2 at
                    (omega (arith, few_left, few_right)))))
