-- ===== src/Join/Reference.antt =====
-- `anti_join_exact_states` of distinct/mod.rs: which values of one state another state lacks.
use proofframe.Prelude.{ℕ, ◌+◌, ◌≤◌, ◌≡◌, refl, ap, ◌∙◌, Bool, List, [], arith, length, take}
use proofframe.Sorting.{Order, sort}
use proofframe.Sorting.Laws.{sort-IsSorted}
use proofframe.Distinct.{Rec, rec_order}
use proofframe.Distinct.Exact.{occurs-sort, distinct_values}
use proofframe.Distinct.Heap.{pending}
use proofframe.Distinct.Heap.Pending.{concat, AllSorted}
use proofframe.Spill.State.{Run, records_of}
use proofframe.Join.Side.{Side, advance, open_side, then_run}
use proofframe.Join.AntiJoin.{
  AntiJoin, AntiJoinSummary, anti_loop, drain_right, anti_run, summary_of_join,
}
use proofframe.Join.Lowest.{lowest, lowest-Ascending, occurs-lowest, length-lowest}
use proofframe.Join.Absent.{absent, absent_cong, rows, collected, collected_fresh, row_of}
use proofframe.Join.Ends.{Ends, Ends-then_run, Ends-map}
use proofframe.Join.Sides.{pending_enough, Stands, advance-Stands, open_side-Ahead}
use proofframe.Join.Rounds.{Joins}
use proofframe.Join.Missing.{anti_loop-Joins, drain_right-Joins}

module _ {V : Type 0} (o : Order V) where
  -- The abstract view: the values of the left records that no right record has, once each in order,
  -- with the lowest row that has them.
  unfoldable pub missing_of : List (Rec V) → List (Rec V) → List (Rec V)
  missing_of left right = absent o (lowest o (sort (rec_order o) left)) right

  pub record IsExact (max_samples : ℕ) (left right : List (Rec V)) (s : AntiJoinSummary)
      : Type 0 where
    pub left_distinct : s.left_distinct ≡ distinct_values o left
    pub right_distinct : s.right_distinct ≡ distinct_values o right
    pub missing : s.missing ≡ length (missing_of left right)
    pub samples : s.samples ≡ take max_samples (rows (missing_of left right))

  module _ (max_samples : ℕ) (flag : ℕ → Bool) where
    -- The counts that the loops end with are those of the records.
    Joins-IsExact :
        (left right : List (Rec V)) (s : AntiJoin V)
        → let all_left = lowest o (sort (rec_order o) left) in
          let all_right = lowest o (sort (rec_order o) right) in
          let lacking = absent o all_left all_right in
          Joins o max_samples flag
            (length all_left)
            (length all_right)
            (length lacking)
            (collected row_of max_samples [] lacking)
            []
            []
            s
          → IsExact max_samples left right (summary_of_join s)
    unfolding missing_of
    Joins-IsExact left right s joins =
        let all_left = lowest o (sort (rec_order o) left) in
        let all_right = lowest o (sort (rec_order o) right) in
        let lacking : absent o all_left all_right ≡ missing_of left right =
          absent_cong o all_left all_right right
            (λ v. occurs-lowest o v (sort (rec_order o) right) ∙ occurs-sort o v right) in
        record {
          left_distinct = joins.at_left.1 ∙ length-lowest o left;
          right_distinct = joins.at_right.1 ∙ length-lowest o right;
          missing = omega (arith, joins.counts, ap length lacking);
          samples =
              joins.collects
              ∙ collected_fresh row_of max_samples (absent o all_left all_right)
              ∙ ap (λ a. take max_samples (rows a)) lacking;
        }

    -- The two loops, from two sides that stand at their first values.
    loops-IsExact :
        (left right : List (Rec V)) (fuel : ℕ) (l r : Side V)
        → let all_left = lowest o (sort (rec_order o) left) in
          let all_right = lowest o (sort (rec_order o) right) in
          Stands o (length all_left) all_left l
          → Stands o (length all_right) all_right r
          → length all_left + length all_right ≤ fuel
          → Ends flag
              (λ s. IsExact max_samples left right (summary_of_join s))
              (then_run
                (anti_loop o max_samples flag fuel
                  (record { left = l; right = r; missing = 0; samples = []; loads = 2 }))
                (λ s. drain_right o max_samples flag fuel s))
    loops-IsExact left right fuel l r at_left at_right enough =
        let all_left = lowest o (sort (rec_order o) left) in
        let all_right = lowest o (sort (rec_order o) right) in
        let lacking = absent o all_left all_right in
        let samples = collected row_of max_samples [] lacking in
        let Standing : List (Rec V) → List (Rec V) → AntiJoin V → Type 0 =
          Joins o max_samples flag (length all_left) (length all_right) (length lacking) samples in
        let Exact : AntiJoin V → Type 0 = λ s. IsExact max_samples left right (summary_of_join s) in
        let start : AntiJoin V = record {
          left = l;
          right = r;
          missing = 0;
          samples = [];
          loads = 2;
        } in
        Ends-then_run flag
          (λ s'. (rest : List (Rec V)) × (Standing [] rest s' × (length rest ≤ length all_right)))
          Exact (anti_loop o max_samples flag fuel start)
          (λ s. drain_right o max_samples flag fuel s)
          (anti_loop-Joins o max_samples flag (length all_left) (length all_right) (length lacking)
            samples fuel all_left all_right start
            (record {
              at_left = at_left;
              at_right = at_right;
              left_up = lowest-Ascending o _ (sort-IsSorted (rec_order o) left);
              right_up = lowest-Ascending o _ (sort-IsSorted (rec_order o) right);
              counts = omega arith;
              collects = refl;
            })
            enough)
          (λ s' (rest, (standing, short)).
            Ends-map flag (Standing [] []) Exact (drain_right o max_samples flag fuel s')
              (λ s2 done. Joins-IsExact left right s2 done)
              (drain_right-Joins o max_samples flag (length all_left) (length all_right)
                (length lacking) samples fuel rest s' standing (omega (arith, enough, short))))

    -- `anti_join` of sorted runs ends: either with the number of different values on each side, the
    -- number of left values that the right side lacks, and the lowest rows of the first of them, as many
    -- as fit; or cancelled, where a load of the flag saw it.
    pub anti_run-IsExact :
        (left right : List (Run V))
        → AllSorted o (records_of left)
        → AllSorted o (records_of right)
        → Ends flag
            (λ s.
              IsExact max_samples
                (concat o (records_of left))
                (concat o (records_of right))
                (summary_of_join s))
            (anti_run o max_samples flag left right)
    unfolding anti_run
    anti_run-IsExact left right sorted_left sorted_right =
        let l = open_side o left in
        let r = open_side o right in
        let xs = concat o (records_of left) in
        let ys = concat o (records_of right) in
        let all_left = lowest o (sort (rec_order o) xs) in
        let all_right = lowest o (sort (rec_order o) ys) in
        let ahead_left = open_side-Ahead o left sorted_left in
        let ahead_right = open_side-Ahead o right sorted_right in
        let Exact : AntiJoin V → Type 0 = λ s. IsExact max_samples xs ys (summary_of_join s) in
        let few_left = pending_enough o all_left l.heap ahead_left.0 in
        let few_right = pending_enough o all_right r.heap ahead_right.0 in
        Ends-then_run flag (Stands o (length all_left) all_left) Exact (advance o (flag 0) l) _
          (advance-Stands o flag 0 (length all_left) all_left l ahead_left)
          (λ l' at_left.
            Ends-then_run flag (Stands o (length all_right) all_right) Exact (advance o (flag 1) r)
              _ (advance-Stands o flag 1 (length all_right) all_right r ahead_right)
              (λ r' at_right.
                loops-IsExact xs ys (length (pending l.heap) + length (pending r.heap)) l' r'
                  at_left at_right (omega (arith, few_left, few_right))))
