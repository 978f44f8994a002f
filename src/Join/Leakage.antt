-- ===== src/Join/Leakage.antt =====
-- A leakage check over two states of distinct/mod.rs, from their insertions to the summary.
use proofframe.Prelude.{
  ℕ, ◌≡◌, refl, sym, ap, ◌∙◌, subst, Bool, List, [], Option, length, take, map,
}
use proofframe.Error.{Result, ok, err, bind-ok, ok-eq}
use proofframe.Resource.{ResourceAccount, Heap}
use proofframe.Sorting.{Order, sort}
use proofframe.Distinct.{Rec, rec_order}
use proofframe.Distinct.Exact.{occurs, occurs-sort}
use proofframe.Distinct.Heap.Pending.{concat, AllSorted}
use proofframe.Spill.State.{Layout, Run, ExactState, Pass, Step, records_of}
use proofframe.Spill.Compact.{ended}
use proofframe.Spill.Holds.{Holds}
use proofframe.Spill.Sealed.{IsSealed}
use proofframe.Spill.Refine.{Insertion, inserted}
use proofframe.Sorting.Bytes.{bytes_order}
use proofframe.Spill.Bytes.{ByteState, bytes_layout, new_bytes, seal_bytes, sealed_step}
use proofframe.Spill.Bytes.Spilled.{IsStored}
use proofframe.Spill.Bytes.Stored.{
  new_bytes-IsStored, insert_values, insert_values-IsStored, seal_bytes-IsSpilled,
  sealed_step-Holds,
}
use proofframe.Join.AntiJoin.{JoinLoads, open_merge, reserve_samples}
use proofframe.Join.Intersect.{
  IntersectionSummary, summary_of_intersection, intersect_run, intersect, intersect_sealed,
  intersect_left_sealed, intersect_exact_states,
}
use proofframe.Join.Lowest.{lowest}
use proofframe.Join.Absent.{present, present_cong}
use proofframe.Join.States.{holding-ok, ended-Ends, sealed_records, distinct_values-same}
use proofframe.Join.Meets.{Digested, sample_of}
use proofframe.Join.Shared.{All-sort, All-lowest, IsMet, shared_of, intersect_run-IsMet}

module _ {V D : Type 0} (o : Order V) (digest : V → Result D) (identity : V → D) where
  IsMet-sort :
      (max_samples : ℕ) (left left' right right' : List (Rec V)) (s : IntersectionSummary D)
      → sort (rec_order o) left ≡ sort (rec_order o) left'
      → sort (rec_order o) right ≡ sort (rec_order o) right'
      → IsMet o digest identity max_samples left right s
      → IsMet o digest identity max_samples left' right' s
  IsMet-sort max_samples left left' right right' s same_left same_right met =
      let same : shared_of o digest identity left right ≡ shared_of o digest identity left' right' =
        unfold shared_of in
        ap (λ l. present o (lowest o l) right) same_left
        ∙ present_cong o (lowest o (sort (rec_order o) left')) right right' (λ v.
          sym (occurs-sort o v right) ∙ ap (occurs o v) same_right ∙ occurs-sort o v right') in
      record {
        left_distinct = met.left_distinct ∙ distinct_values-same o left left' same_left;
        right_distinct = met.right_distinct ∙ distinct_values-same o right right' same_right;
        overlap = met.overlap ∙ ap length same;
        samples =
            met.samples ∙ ap (λ a. take max_samples (map (sample_of o digest identity) a)) same;
      }

  module _ (layout : Layout V) where
    intersect-IsMet :
        (loads : JoinLoads) (max_samples : ℕ) (left right : List (Run V))
        (left_account right_account : ResourceAccount) (h : Heap) (summary : IntersectionSummary D)
        → AllSorted o (records_of left)
        → AllSorted o (records_of right)
        → Digested o digest identity (lowest o (sort (rec_order o) (concat o (records_of left))))
        → (intersect o digest layout loads max_samples left right left_account right_account h).0
          ≡ ok summary
        → IsMet o digest identity max_samples
            (concat o (records_of left))
            (concat o (records_of right))
            summary
    unfolding intersect
    intersect-IsMet loads max_samples left right left_account right_account h summary sorted_left
          sorted_right digests e =
        let Met : IntersectionSummary D → Type 0 =
          IsMet o digest identity max_samples (concat o (records_of left))
            (concat o (records_of right)) in
        let (h1, in_samples) =
          holding-ok
            (reserve_samples "Leakage sample size overflowed" 32 max_samples left_account h) _
            summary e in
        let (h2, in_left) =
          holding-ok (open_merge o layout loads.at_left left_account left h1) _ summary
            in_samples in
        let (h3, body) =
          holding-ok (open_merge o layout loads.at_right right_account right h2) _ summary
            in_left in
        let (s, ran, built) =
          bind-ok (ended (intersect_run o digest max_samples loads.at left right))
            (λ s. ok (summary_of_intersection s)) summary body in
        subst Met (ok-eq (summary_of_intersection s) summary built) (
          ended-Ends loads.at (λ t. Met (summary_of_intersection t))
            (intersect_run o digest max_samples loads.at left right) s
            (intersect_run-IsMet o digest identity max_samples loads.at left right sorted_left
              sorted_right digests)
            ran)

    intersect_sealed-IsMet :
        (loads : JoinLoads) (max_samples m m' d d' : ℕ) (xs ys : List (Rec V)) (left : ExactState V)
        (sealed : Step V (Unit {0})) (summary : IntersectionSummary D)
        → Holds o m xs left × IsSealed d left
        → ((sealed.0 ≡ ok tt) → Holds o m' ys sealed.1 × IsSealed d' sealed.1)
        → Digested o digest identity xs
        → (intersect_sealed o digest layout loads max_samples left sealed).0 ≡ ok summary
        → IsMet o digest identity max_samples xs ys summary
    unfolding intersect_sealed
    intersect_sealed-IsMet loads max_samples m m' d d' xs ys left (ok tt, right, h) summary
          left_holds right_holds digests e =
        let same = sealed_records o left left_holds in
        IsMet-sort max_samples (concat o (records_of left.runs)) xs
          (concat o (records_of right.runs)) ys summary same
          (sealed_records o right (right_holds refl))
          (intersect-IsMet loads max_samples left.runs right.runs left.account right.account h
            summary left_holds.0.sorted (right_holds refl).0.sorted
            (subst (λ l. Digested o digest identity (lowest o l)) (sym same)
              (All-lowest o _ (sort (rec_order o) xs) (All-sort o _ xs digests)))
            e)
    intersect_sealed-IsMet loads max_samples m m' d d' xs ys left (err x, right, h) summary
          left_holds right_holds digests e =
        cc

module _ {D : Type 0} (digest : List ℕ → Result D) (identity : List ℕ → D) (cursor_bytes : ℕ) where
  left_sealed-IsMet :
      (cancelled : Bool) (pass : Pass) (loads : JoinLoads) (max_samples m m' d : ℕ)
      (xs ys : List (Rec (List ℕ))) (right : ByteState) (sealed : Step (List ℕ) (Unit {0}))
      (summary : IntersectionSummary D)
      → ((sealed.0 ≡ ok tt) → Holds bytes_order m xs sealed.1 × IsSealed d sealed.1)
      → IsStored m' ys right
      → Digested bytes_order digest identity xs
      → (intersect_left_sealed digest cursor_bytes cancelled pass loads max_samples right sealed).0
        ≡ ok summary
      → IsMet bytes_order digest identity max_samples xs ys summary
  unfolding intersect_left_sealed
  left_sealed-IsMet cancelled pass loads max_samples m m' d xs ys right (ok tt, left, h) summary
        left_holds right_stored digests e =
      let step = seal_bytes cursor_bytes cancelled pass right h in
      intersect_sealed-IsMet bytes_order digest identity (bytes_layout cursor_bytes) loads
        max_samples m m' d (sealed_step step).1.desired_capacity xs ys left (sealed_step step)
        summary (left_holds refl)
        (sealed_step-Holds m' ys step
          (seal_bytes-IsSpilled cursor_bytes m' ys cancelled pass right h right_stored))
        digests e
  left_sealed-IsMet cancelled pass loads max_samples m m' d xs ys right (err x, left, h) summary
        left_holds right_stored digests e =
      cc

  -- A leakage check is exact: take two states of byte strings from their creation and all their insertions,
  -- where the values of the left one have digests, and let the check of one against the other end without an
  -- error. Then the summary counts the different values on both sides and those that both sides have, and
  -- samples the digests of the first of these, as many as fit, however the states spilled.
  pub intersect_exact_states-IsMet :
      (left_account right_account : ResourceAccount) (left_directory right_directory : Option Bool)
      (left_hint right_hint : Option ℕ) (left right : ByteState) (is js : List (Insertion (List ℕ)))
      (cancelled cancelled' : Bool) (pass pass' : Pass) (loads : JoinLoads) (max_samples : ℕ)
      (h h1 h2 h3 h4 : Heap) (summary : IntersectionSummary D)
      → (new_bytes left_account left_directory left_hint h).0 ≡ ok left
      → (insert_values cursor_bytes is left h1).0 ≡ ok tt
      → (new_bytes right_account right_directory right_hint h2).0 ≡ ok right
      → (insert_values cursor_bytes js right h3).0 ≡ ok tt
      → Digested bytes_order digest identity (inserted is)
      → (intersect_exact_states digest cursor_bytes cancelled pass cancelled' pass' loads
          max_samples
          (insert_values cursor_bytes is left h1).1
          (insert_values cursor_bytes js right h3).1
          h4).0
        ≡ ok summary
      → IsMet bytes_order digest identity max_samples (inserted is) (inserted js) summary
  unfolding intersect_exact_states
  intersect_exact_states-IsMet left_account right_account left_directory right_directory left_hint
        right_hint left right is js cancelled cancelled' pass pass' loads max_samples h h1 h2 h3 h4
        summary left_new left_filled right_new right_filled digests e =
      let ml = left_account.limits.max_samples in
      let mr = right_account.limits.max_samples in
      let l : ByteState = (insert_values cursor_bytes is left h1).1 in
      let r : ByteState = (insert_values cursor_bytes js right h3).1 in
      let left_stored =
        insert_values-IsStored cursor_bytes is ml [] left h1
          (new_bytes-IsStored left_account left_directory left_hint h left left_new) left_filled in
      let right_stored =
        insert_values-IsStored cursor_bytes js mr [] right h3
          (new_bytes-IsStored right_account right_directory right_hint h2 right right_new)
          right_filled in
      let step = seal_bytes cursor_bytes cancelled pass l h4 in
      left_sealed-IsMet cancelled' pass' loads max_samples ml mr
        (sealed_step step).1.desired_capacity (inserted is) (inserted js) r (sealed_step step)
        summary
        (sealed_step-Holds ml (inserted is) step
          (seal_bytes-IsSpilled cursor_bytes ml (inserted is) cancelled pass l h4 left_stored))
        right_stored digests e
