-- ===== src/Join/Meets.antt =====
-- One round of the loop of `intersect` in distinct/run.rs.
use proofframe.Prelude.{
  ℕ, ◌+◌, ◌<◌, ◌≡◌, refl, sym, ap, subst, ◌∙◌, Bool, Bool-cases, inl, inr, List, ◌∷◌, Option, some,
  arith, length, ltb, All,
}
use proofframe.Error.{Result, ok}
use proofframe.Sorting.{Order}
use proofframe.Distinct.{Rec}
use proofframe.Join.Side.{advance, then_run}
use proofframe.Join.AntiJoin.{add_sample}
use proofframe.Join.Intersect.{
  Intersection, pass_left, pass_other, sampled, count_match, meet_branch, meet_round,
}
use proofframe.Join.Lowest.{Greater, Ascending}
use proofframe.Join.Absent.{
  present, present-Greater, present-below, present-above, present-equal, collected,
}
use proofframe.Join.Ends.{Ends, Ends-then_run, Ends-checked, Ends-map}
use proofframe.Join.Sides.{Stands, Ahead, advance-Stands}

module _ {V D : Type 0} (o : Order V) (digest : V → Result D) (identity : V → D) where
  -- these records have a digest
  abbrev pub Digested : List (Rec V) → Type 0
  Digested rs = All (λ r. digest r.0 ≡ ok (identity r.0)) rs

  abbrev pub sample_of : Rec V → D
  sample_of r = identity r.0

  module _ (max_samples : ℕ) (flag : ℕ → Bool) (nl nr overlap : ℕ) (samples : List D) where
    -- The sides stand at these records, and what is to come adds up to the counts of the summary.
    pub record Meets (left right : List (Rec V)) (s : Intersection V D) : Type 0 where
      pub at_left : Stands o nl left s.left
      pub at_right : Stands o nr right s.right
      pub left_up : Ascending o left
      pub right_up : Ascending o right
      pub digests : Digested left
      pub counts : s.overlap + length (present o left right) ≡ overlap
      pub collects : collected sample_of max_samples s.samples (present o left right) ≡ samples

    -- a state behind that of a round, with fewer records ahead
    abbrev pub Further : ℕ → Intersection V D → Type 0
    Further ahead s =
        (left : List (Rec V)) × ((right : List (Rec V)) × (Meets left right s
            × (length left + length right < ahead)))

    further :
        (left right : List (Rec V)) (m : Option (Result (Intersection V D))) {ahead : ℕ}
        → length left + length right < ahead
        → Ends flag (Meets left right) m
        → Ends flag (Further ahead) m
    further left right m {ahead} fewer ends =
        Ends-map flag (Meets left right) (Further ahead) m
          (λ s meets. (left, (right, (meets, fewer)))) ends

    -- The left side goes on.
    pub pass_left-Meets :
        (left right : List (Rec V)) (s : Intersection V D)
        → Ahead o nl left s.left
        → Stands o nr right s.right
        → Ascending o left
        → Ascending o right
        → Digested left
        → s.overlap + length (present o left right) ≡ overlap
        → collected sample_of max_samples s.samples (present o left right) ≡ samples
        → Ends flag (Meets left right) (pass_left o digest max_samples flag s)
    unfolding pass_left
    pass_left-Meets left right s ahead at_right left_up right_up digests counts collects =
        Ends-then_run flag (Stands o nl left) (Meets left right) (advance o (flag s.loads) s.left)
          (λ next. some (ok (record s { left = next; loads = s.loads + 1 })))
          (advance-Stands o flag s.loads nl left s.left ahead)
          (λ next stands. inl (
            _,
            (
              refl,
              record {
                at_left = stands;
                at_right = at_right;
                left_up = left_up;
                right_up = right_up;
                digests = digests;
                counts = counts;
                collects = collects;
              },
            ),
          ))

    -- The right side goes on.
    pub pass_other-Meets :
        (r : Rec V) (left right : List (Rec V)) (s : Intersection V D)
        → Meets left (r ∷ right) s
        → present o left (r ∷ right) ≡ present o left right
        → Ends flag (Meets left right) (pass_other o digest max_samples flag s)
    unfolding pass_other
    pass_other-Meets r left right s meets same =
        Ends-then_run flag (Stands o nr right) (Meets left right) (advance o (flag s.loads) s.right)
          (λ next. some (ok (record s { right = next; loads = s.loads + 1 })))
          (advance-Stands o flag s.loads nr right s.right meets.at_right.1)
          (λ next stands. inl (
            _,
            (
              refl,
              record {
                at_left = meets.at_left;
                at_right = stands;
                left_up = meets.left_up;
                right_up = meets.right_up.1;
                digests = meets.digests;
                counts = sym (ap (λ a. s.overlap + length a) same) ∙ meets.counts;
                collects =
                    sym (ap (collected sample_of max_samples s.samples) same) ∙ meets.collects;
              },
            ),
          ))

    -- A value with a digest is sampled while there is room.
    sampled-ok :
        (v : V) (ds : List D)
        → digest v ≡ ok (identity v)
        → sampled o digest max_samples flag v ds ≡ ok (add_sample max_samples ds (identity v))
    unfolding sampled
    sampled-ok v ds known = elim (Bool-cases (ltb (length ds) max_samples)) [
      | inl fits ↦ rw (fits, known)
      | inr full ↦ rw full
    ]

    -- A match is counted and sampled, and both sides go on.
    count_match-Meets :
        (l r : Rec V) (left right : List (Rec V)) (s : Intersection V D)
        → Meets (l ∷ left) (r ∷ right) s
        → present o (l ∷ left) (r ∷ right) ≡ l ∷ present o left right
        → present o left (r ∷ right) ≡ present o left right
        → Ends flag (Meets left right) (count_match o digest max_samples flag l.0 s)
    unfolding count_match then_run
    count_match-Meets l r left right s meets same other =
        let met : Intersection V D = record s {
          overlap = s.overlap + 1;
          samples = add_sample max_samples s.samples (identity l.0);
        } in
        rw (sampled-ok l.0 s.samples meets.digests.0) (
          Ends-then_run flag (Meets left (r ∷ right)) (Meets left right)
            (pass_left o digest max_samples flag met) (pass_other o digest max_samples flag)
            (pass_left-Meets left (r ∷ right) met meets.at_left.1 meets.at_right meets.left_up.1
              meets.right_up meets.digests.1
              (omega (arith, meets.counts, ap length same, ap length other))
              (ap (collected sample_of max_samples met.samples) other
                ∙ sym (ap (collected sample_of max_samples s.samples) same)
                ∙ meets.collects))
            (λ s' meets'. pass_other-Meets r left right s' meets' other))

    meet_branch-Further :
        (l r : Rec V) (left right : List (Rec V)) (s : Intersection V D)
        → Meets (l ∷ left) (r ∷ right) s
        → Ends flag
            (Further (length (l ∷ left) + length (r ∷ right)))
            (meet_branch o digest max_samples flag l.0 r.0 s)
    unfolding meet_branch
    meet_branch-Further l r left right s meets = elim (Bool-cases (o.leq l.0 r.0)) [
      | inl up ↦ elim (Bool-cases (o.leq r.0 l.0)) [
        | inl down ↦
            let one : l.0 ≡ r.0 = o.antisym l.0 r.0 up down in
            rw (up, down)
              (further left right (count_match o digest max_samples flag l.0 s) (omega arith) (
                count_match-Meets l r left right s meets
                  (present-equal o l r left right up down meets.left_up.0)
                  (present-Greater o r left right
                    (subst (λ v. Greater o v left) one meets.left_up.0))))
        | inr below ↦
            let same = present-below o l r left right up below meets.right_up.0 in
            rw (up, below)
              (further left (r ∷ right) (pass_left o digest max_samples flag s) (omega arith) (
                pass_left-Meets left (r ∷ right) s meets.at_left.1 meets.at_right meets.left_up.1
                  meets.right_up meets.digests.1 (omega (arith, meets.counts, ap length same))
                  (sym (ap (collected sample_of max_samples s.samples) same) ∙ meets.collects)))
      ]
      | inr above ↦ rw above (
          further (l ∷ left) right (pass_other o digest max_samples flag s) (omega arith) (
            pass_other-Meets r (l ∷ left) right s meets
              (present-above o l r left right above meets.left_up.0)))
    ]

    -- One round leaves a record of one side behind.
    pub meet_round-Further :
        (l r : Rec V) (left right : List (Rec V)) (s : Intersection V D)
        → Meets (l ∷ left) (r ∷ right) s
        → Ends flag
            (Further (length (l ∷ left) + length (r ∷ right)))
            (meet_round o digest max_samples flag l.0 r.0 s)
    unfolding meet_round
    meet_round-Further l r left right s meets =
        Ends-checked flag (Further (length (l ∷ left) + length (r ∷ right))) s.loads
          (meet_branch o digest max_samples flag l.0 r.0 (record s { loads = s.loads + 1 }))
          (meet_branch-Further l r left right (record s { loads = s.loads + 1 })
            (record {
              at_left = meets.at_left;
              at_right = meets.at_right;
              left_up = meets.left_up;
              right_up = meets.right_up;
              digests = meets.digests;
              counts = meets.counts;
              collects = meets.collects;
            }))
