-- ===== src/Join/Rounds.antt =====
-- One round of the first loop of `anti_join` in distinct/run.rs.
use proofframe.Prelude.{
  ℕ, ◌+◌, ◌≤◌, ◌<◌, ◌≡◌, refl, sym, ap, subst, ◌∙◌, Bool, Bool-cases, inl, inr, List, [], ◌∷◌, some,
  arith, length,
}
use proofframe.Error.{ok}
use proofframe.Sorting.{Order}
use proofframe.Distinct.{Rec}
use proofframe.Join.Side.{advance, then_run}
use proofframe.Join.AntiJoin.{
  AntiJoin, add_sample, count_missing, pass_right, match_both, anti_branch, anti_round,
}
use proofframe.Join.Lowest.{Ascending}
use proofframe.Join.Absent.{
  absent, absent-nil, absent-below, absent-above, absent-equal, collected, row_of,
}
use proofframe.Join.Ends.{Ends, Ends-then_run, Ends-checked}
use proofframe.Join.Sides.{front, Stands, Stands-front, advance-Stands}

module _ {V : Type 0} (o : Order V) (max_samples : ℕ) (flag : ℕ → Bool) where
  module _ (nl nr missing : ℕ) (samples : List ℕ) where
    -- The sides stand at these records, and what is to come adds up to the counts of the summary.
    pub record Joins (left right : List (Rec V)) (s : AntiJoin V) : Type 0 where
      pub at_left : Stands o nl left s.left
      pub at_right : Stands o nr right s.right
      pub left_up : Ascending o left
      pub right_up : Ascending o right
      pub counts : s.missing + length (absent o left right) ≡ missing
      pub collects : collected row_of max_samples s.samples (absent o left right) ≡ samples

    -- a state behind that of a round, with fewer records ahead
    abbrev pub Later : ℕ → ℕ → AntiJoin V → Type 0
    Later ahead bound s =
        (left : List (Rec V)) × ((right : List (Rec V)) × (Joins left right s
            × ((length left + length right < ahead) × (length right ≤ bound))))

    later :
        (left right : List (Rec V)) (s : AntiJoin V) {ahead bound : ℕ}
        → Joins left right s
        → length left + length right < ahead
        → length right ≤ bound
        → Ends flag (Later ahead bound) (some (ok s))
    later left right s joins fewer few = inl (s, (refl, (left, (right, (joins, (fewer, few))))))

    count_missing-Later :
        (r : Rec V) (left right : List (Rec V)) (s : AntiJoin V)
        → Joins (r ∷ left) right s
        → absent o (r ∷ left) right ≡ r ∷ absent o left right
        → Ends flag
            (Later (length (r ∷ left) + length right) (length right))
            (count_missing o max_samples flag r s)
    unfolding count_missing
    count_missing-Later r left right s joins lacks =
        Ends-then_run flag (Stands o nl left)
          (Later (length (r ∷ left) + length right) (length right))
          (advance o (flag (s.loads + 1)) s.left)
          (λ next. some (
            ok (record {
              left = next;
              right = s.right;
              missing = s.missing + 1;
              samples = add_sample max_samples s.samples r.1;
              loads = s.loads + 2;
            })))
          (advance-Stands o flag (s.loads + 1) nl left s.left joins.at_left.1)
          (λ next stands.
            later left right _
              (record {
                at_left = stands;
                at_right = joins.at_right;
                left_up = joins.left_up.1;
                right_up = joins.right_up;
                counts = omega (arith, joins.counts, ap length lacks);
                collects = sym (ap (collected row_of max_samples s.samples) lacks) ∙ joins.collects;
              })
              (omega arith) (omega arith))

    pass_right-Later :
        (l r : Rec V) (left right : List (Rec V)) (s : AntiJoin V)
        → Joins (l ∷ left) (r ∷ right) s
        → absent o (l ∷ left) (r ∷ right) ≡ absent o (l ∷ left) right
        → Ends flag
            (Later (length (l ∷ left) + length (r ∷ right)) (length (r ∷ right)))
            (pass_right o max_samples flag s)
    unfolding pass_right
    pass_right-Later l r left right s joins same =
        Ends-then_run flag (Stands o nr right)
          (Later (length (l ∷ left) + length (r ∷ right)) (length (r ∷ right)))
          (advance o (flag (s.loads + 1)) s.right)
          (λ next. some (ok (record s { right = next; loads = s.loads + 2 })))
          (advance-Stands o flag (s.loads + 1) nr right s.right joins.at_right.1)
          (λ next stands.
            later (l ∷ left) right _
              (record {
                at_left = joins.at_left;
                at_right = stands;
                left_up = joins.left_up;
                right_up = joins.right_up.1;
                counts = sym (ap (λ a. s.missing + length a) same) ∙ joins.counts;
                collects = sym (ap (collected row_of max_samples s.samples) same) ∙ joins.collects;
              })
              (omega arith) (omega arith))

    match_both-Later :
        (l r : Rec V) (left right : List (Rec V)) (s : AntiJoin V)
        → Joins (l ∷ left) (r ∷ right) s
        → absent o (l ∷ left) (r ∷ right) ≡ absent o left right
        → Ends flag
            (Later (length (l ∷ left) + length (r ∷ right)) (length (r ∷ right)))
            (match_both o max_samples flag s)
    unfolding match_both
    match_both-Later l r left right s joins same =
        Ends-then_run flag (Stands o nl left)
          (Later (length (l ∷ left) + length (r ∷ right)) (length (r ∷ right)))
          (advance o (flag (s.loads + 1)) s.left)
          (λ next.
            then_run (advance o (flag (s.loads + 2)) s.right)
              (λ other. some (ok (record s { left = next; right = other; loads = s.loads + 3 }))))
          (advance-Stands o flag (s.loads + 1) nl left s.left joins.at_left.1)
          (λ next stands.
            Ends-then_run flag (Stands o nr right)
              (Later (length (l ∷ left) + length (r ∷ right)) (length (r ∷ right)))
              (advance o (flag (s.loads + 2)) s.right)
              (λ other. some (ok (record s { left = next; right = other; loads = s.loads + 3 })))
              (advance-Stands o flag (s.loads + 2) nr right s.right joins.at_right.1)
              (λ other stands'.
                later left right _
                  (record {
                    at_left = stands;
                    at_right = stands';
                    left_up = joins.left_up.1;
                    right_up = joins.right_up.1;
                    counts = sym (ap (λ a. s.missing + length a) same) ∙ joins.counts;
                    collects =
                        sym (ap (collected row_of max_samples s.samples) same) ∙ joins.collects;
                  })
                  (omega arith) (omega arith)))

    anti_branch-Later :
        (l : Rec V) (left right : List (Rec V)) (s : AntiJoin V)
        → Joins (l ∷ left) right s
        → Ends flag
            (Later (length (l ∷ left) + length right) (length right))
            (anti_branch o max_samples flag (front right) l s)
    unfolding anti_branch
    anti_branch-Later l left [] s joins =
        count_missing-Later l left [] s joins (rw (absent-nil o left))
    anti_branch-Later l left (r ∷ right) s joins = elim (Bool-cases (o.leq l.0 r.0)) [
      | inl up ↦ elim (Bool-cases (o.leq r.0 l.0)) [
        | inl down ↦
            rw (up, down)
              (match_both-Later l r left right s joins
                (absent-equal o l r left right up down joins.left_up.0))
        | inr below ↦
            rw (up, below)
              (count_missing-Later l left (r ∷ right) s joins
                (absent-below o l r left right up below joins.right_up.0))
      ]
      | inr above ↦ rw above (
          pass_right-Later l r left right s joins
            (absent-above o l r left right above joins.left_up.0))
    ]

    -- One round leaves a record of one side behind.
    pub anti_round-Later :
        (l : Rec V) (left right : List (Rec V)) (s : AntiJoin V)
        → Joins (l ∷ left) right s
        → Ends flag
            (Later (length (l ∷ left) + length right) (length right))
            (anti_round o max_samples flag l s)
    unfolding anti_round
    anti_round-Later l left right s joins =
        let Fewer : AntiJoin V → Type 0 = Later (length (l ∷ left) + length right) (length right) in
        Ends-checked flag Fewer s.loads (anti_branch o max_samples flag s.right.value l s) (
          subst (λ v. Ends flag Fewer (anti_branch o max_samples flag v l s))
            (sym (Stands-front o nr right s.right joins.at_right))
            (anti_branch-Later l left right s joins))
