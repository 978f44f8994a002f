-- ===== src/Join/States.antt =====
-- A reference check over two states of distinct/mod.rs, from their insertions to the summary.
use proofframe.Prelude.{
  ℕ, ◌≡◌, refl, sym, ap, ◌∙◌, Bool, inl, inr, List, [], ◌++◌, Option, append-nil, length, take,
  subst,
}
use proofframe.Error.{Result, ok, err, bind-ok, ok-eq}
use proofframe.Resource.{ResourceAccount, Reservation, Heap}
use proofframe.Sorting.{Order, sort}
use proofframe.Distinct.{Rec, rec_order}
use proofframe.Distinct.Exact.{occurs, occurs-sort, distinct_values, distinct_values-sort}
use proofframe.Distinct.Heap.Pending.{concat, AllSorted}
use proofframe.Spill.State.{Layout, Run, ExactState, Pass, Step, records_of}
use proofframe.Spill.Compact.{ended}
use proofframe.Spill.Ops.{segment_records}
use proofframe.Spill.Holds.{Holds}
use proofframe.Spill.Sealed.{IsSealed}
use proofframe.Spill.Refine.{Insertion, inserted}
use proofframe.Sorting.Bytes.{bytes_order}
use proofframe.Spill.Bytes.{ByteState, bytes_layout, new_bytes, seal_bytes, sealed_step}
use proofframe.Spill.Bytes.Stored.{
  new_bytes-IsStored, insert_values, insert_values-IsStored, seal_bytes-IsSpilled,
  sealed_step-Holds,
}
use proofframe.Join.AntiJoin.{
  AntiJoinSummary, JoinLoads, anti_run, summary_of_join, holding, open_merge, reserve_samples,
  anti_join, spill_shape, anti_join_sealed, anti_join_exact_states,
}
use proofframe.Join.Lowest.{lowest}
use proofframe.Join.Absent.{absent, absent_cong, rows}
use proofframe.Join.Ends.{Ends}
use proofframe.Join.Reference.{IsExact, missing_of, anti_run-IsExact}

-- A scope that ends with a result entered its body.
pub holding-ok :
    {A : Type 0} (m : Result Reservation × Heap) (body : Heap → Result A × Heap) (a : A)
    → (holding m body).0 ≡ ok a
    → (h : Heap) × ((body h).0 ≡ ok a)
unfolding holding
holding-ok (ok r, h) body a e = (h, e)
holding-ok (err x, h) body a e = cc

-- A loop that ended without an error ended with what it brings about.
pub ended-Ends :
    {A : Type 0} (flag : ℕ → Bool) (P : A → Type 0) (m : Option (Result A)) (a : A)
    → Ends flag P m
    → ended m ≡ ok a
    → P a
ended-Ends flag P m a (inl (b, (e, p))) done =
    let same : ok b ≡ ok a = ap ended (sym e) ∙ done in subst P (ok-eq b a same) p
ended-Ends flag P m a (inr (e, seen)) done = cc (ap ended e, done)

module _ {V : Type 0} (o : Order V) where
  missing_of-sort :
      (left left' right right' : List (Rec V))
      → sort (rec_order o) left ≡ sort (rec_order o) left'
      → sort (rec_order o) right ≡ sort (rec_order o) right'
      → missing_of o left right ≡ missing_of o left' right'
  unfolding missing_of
  missing_of-sort left left' right right' same_left same_right =
      ap (λ l. absent o (lowest o l) right) same_left
      ∙ absent_cong o (lowest o (sort (rec_order o) left')) right right'
          (λ v. sym (occurs-sort o v right) ∙ ap (occurs o v) same_right ∙ occurs-sort o v right')

  pub distinct_values-same :
      (left left' : List (Rec V))
      → sort (rec_order o) left ≡ sort (rec_order o) left'
      → distinct_values o left ≡ distinct_values o left'
  distinct_values-same left left' same =
      sym (distinct_values-sort o left) ∙ ap (distinct_values o) same ∙ distinct_values-sort o left'

  -- The runs of a sealed state hold all its records.
  pub sealed_records :
      {m desired : ℕ} {rs : List (Rec V)} (s : ExactState V)
      → Holds o m rs s × IsSealed desired s
      → sort (rec_order o) (concat o (records_of s.runs)) ≡ sort (rec_order o) rs
  sealed_records s (holds, sealed) =
      let runs = concat o (records_of s.runs) in
      ap (sort (rec_order o)) (sym (append-nil runs))
      ∙ ap (λ r. sort (rec_order o) (runs ++ segment_records r.0)) (sym sealed)
      ∙ holds.same

  IsExact-sort :
      (max_samples : ℕ) (left left' right right' : List (Rec V)) (s : AntiJoinSummary)
      → sort (rec_order o) left ≡ sort (rec_order o) left'
      → sort (rec_order o) right ≡ sort (rec_order o) right'
      → IsExact o max_samples left right s
      → IsExact o max_samples left' right' s
  IsExact-sort max_samples left left' right right' s same_left same_right exact =
      let same = missing_of-sort left left' right right' same_left same_right in
      record {
        left_distinct = exact.left_distinct ∙ distinct_values-same left left' same_left;
        right_distinct = exact.right_distinct ∙ distinct_values-same right right' same_right;
        missing = exact.missing ∙ ap length same;
        samples = exact.samples ∙ ap (λ a. take max_samples (rows a)) same;
      }

module _ {V : Type 0} (o : Order V) (layout : Layout V) where
  anti_join-IsExact :
      (loads : JoinLoads) (max_samples : ℕ) (left right : List (Run V))
      (left_account right_account : ResourceAccount) (h : Heap) (summary : AntiJoinSummary)
      → AllSorted o (records_of left)
      → AllSorted o (records_of right)
      → (anti_join o layout loads max_samples left right left_account right_account h).0
        ≡ ok summary
      → IsExact o max_samples (concat o (records_of left)) (concat o (records_of right)) summary
  unfolding anti_join
  anti_join-IsExact loads max_samples left right left_account right_account h summary sorted_left
        sorted_right e =
      let xs = concat o (records_of left) in
      let ys = concat o (records_of right) in
      let (h1, in_left) =
        holding-ok (open_merge o layout loads.at_left left_account left h) _ summary e in
      let (h2, in_right) =
        holding-ok (open_merge o layout loads.at_right right_account right h1) _ summary in_left in
      let (h3, body) =
        holding-ok
          (reserve_samples "Reference sample size overflowed" 8 max_samples left_account h2) _
          summary in_right in
      let (s, ran, built) =
        bind-ok (ended (anti_run o max_samples loads.at left right)) (λ s. ok (summary_of_join s))
          summary body in
      subst (IsExact o max_samples xs ys) (ok-eq (summary_of_join s) summary built) (
        ended-Ends loads.at (λ t. IsExact o max_samples xs ys (summary_of_join t))
          (anti_run o max_samples loads.at left right) s
          (anti_run-IsExact o max_samples loads.at left right sorted_left sorted_right) ran)

  anti_join_sealed-IsExact :
      (loads : JoinLoads) (max_samples m desired : ℕ) (xs ys : List (Rec V)) (right : List (Run V))
      (right_account : ResourceAccount) (sealed : Step V (Unit {0})) (summary : AntiJoinSummary)
      → ((sealed.0 ≡ ok tt) → Holds o m xs sealed.1 × IsSealed desired sealed.1)
      → AllSorted o (records_of right)
      → sort (rec_order o) (concat o (records_of right)) ≡ sort (rec_order o) ys
      → (anti_join_sealed o layout loads max_samples right right_account sealed).0 ≡ ok summary
      → IsExact o max_samples xs ys summary
  unfolding anti_join_sealed
  anti_join_sealed-IsExact loads max_samples m desired xs ys right right_account (ok tt, s, h)
        summary holds sorted same e =
      let (joined, done, built) =
        bind-ok (anti_join o layout loads max_samples s.runs right s.account right_account h).0
          (λ joined. ok (spill_shape o layout s joined)) summary e in
      let exact =
        anti_join-IsExact loads max_samples s.runs right s.account right_account h joined
          (holds refl).0.sorted sorted done in
      subst (IsExact o max_samples xs ys) (ok-eq _ _ built) (
        reshape s (
          IsExact-sort o max_samples (concat o (records_of s.runs)) xs _ ys joined
            (sealed_records o s (holds refl)) same exact))
    where
      reshape :
          (s : ExactState V) {t : AntiJoinSummary}
          → IsExact o max_samples xs ys t
          → IsExact o max_samples xs ys (spill_shape o layout s t)
      reshape s exact = record {
        left_distinct = exact.left_distinct;
        right_distinct = exact.right_distinct;
        missing = exact.missing;
        samples = exact.samples;
      }
  anti_join_sealed-IsExact loads max_samples m desired xs ys right right_account (err x, s, h)
        summary holds sorted same e =
      cc

module _ (cursor_bytes : ℕ) where
  -- A reference check is exact: take two states of byte strings from their creation and all their
  -- insertions, seal the right one, and let the check of the left one against its runs end without an error.
  -- Then the summary counts the different values on both sides and the left values that no right record has,
  -- and samples the lowest rows of the first of these, as many as fit, however the states spilled.
  pub anti_join_exact_states-IsExact :
      (left_account right_account : ResourceAccount) (left_directory right_directory : Option Bool)
      (left_hint right_hint : Option ℕ) (left right : ByteState) (is js : List (Insertion (List ℕ)))
      (cancelled cancelled' : Bool) (pass pass' : Pass) (loads : JoinLoads) (max_samples : ℕ)
      (h h1 h2 h3 h4 h5 : Heap) (summary : AntiJoinSummary)
      → (new_bytes left_account left_directory left_hint h).0 ≡ ok left
      → (insert_values cursor_bytes is left h1).0 ≡ ok tt
      → (new_bytes right_account right_directory right_hint h2).0 ≡ ok right
      → (insert_values cursor_bytes js right h3).0 ≡ ok tt
      → (sealed_step
          (seal_bytes cursor_bytes cancelled pass (insert_values cursor_bytes js right h3).1 h4)).0
        ≡ ok tt
      → let sealed =
          (sealed_step (
            seal_bytes cursor_bytes cancelled pass
              (insert_values cursor_bytes js right h3).1
              h4)).1 in
        (anti_join_exact_states cursor_bytes cancelled' pass' loads max_samples
            (insert_values cursor_bytes is left h1).1
            sealed.runs
            sealed.account
            h5).0
          ≡ ok summary
        → IsExact bytes_order max_samples (inserted is) (inserted js) summary
  unfolding anti_join_exact_states
  anti_join_exact_states-IsExact left_account right_account left_directory right_directory left_hint
        right_hint left right is js cancelled cancelled' pass pass' loads max_samples h h1 h2 h3 h4
        h5 summary left_new left_filled right_new right_filled right_sealed e =
      let l : ByteState = (insert_values cursor_bytes is left h1).1 in
      let r : ByteState = (insert_values cursor_bytes js right h3).1 in
      let right_stored =
        insert_values-IsStored cursor_bytes js right_account.limits.max_samples [] right h3
          (new_bytes-IsStored right_account right_directory right_hint h2 right right_new)
          right_filled in
      let left_stored =
        insert_values-IsStored cursor_bytes is left_account.limits.max_samples [] left h1
          (new_bytes-IsStored left_account left_directory left_hint h left left_new) left_filled in
      let t = sealed_step (seal_bytes cursor_bytes cancelled pass r h4) in
      let sealed =
        sealed_step-Holds right_account.limits.max_samples (inserted js)
          (seal_bytes cursor_bytes cancelled pass r h4)
          (seal_bytes-IsSpilled cursor_bytes right_account.limits.max_samples (inserted js)
            cancelled pass r h4 right_stored)
          right_sealed in
      let step = seal_bytes cursor_bytes cancelled' pass' l h5 in
      anti_join_sealed-IsExact bytes_order (bytes_layout cursor_bytes) loads max_samples
        left_account.limits.max_samples (sealed_step step).1.desired_capacity (inserted is)
        (inserted js) t.1.runs t.1.account (sealed_step step) summary
        (sealed_step-Holds left_account.limits.max_samples (inserted is) step (
          seal_bytes-IsSpilled cursor_bytes left_account.limits.max_samples (inserted is) cancelled'
            pass' l h5 left_stored))
        sealed.0.sorted (sealed_records bytes_order t.1 sealed) e
