-- ===== src/Join/Overlap.antt =====
-- The loops of `intersect` in distinct/run.rs find the values that both sides have.
use proofframe.Prelude.{
  ℕ, zero, suc, ◌+◌, ◌≤◌, ◌≡◌, refl, sym, subst, Bool, inl, inr, ◌⊎◌, List, [], ◌∷◌, none, some,
  arith, length,
}
use proofframe.Error.{Result, ok}
use proofframe.Sorting.{Order}
use proofframe.Distinct.{Rec}
use proofframe.Join.Side.{then_run}
use proofframe.Join.Intersect.{
  both, Intersection, pass_left, pass_other, meet_round, meet_loop, drain_left, drain_other,
}
use proofframe.Join.Absent.{present}
use proofframe.Join.Ends.{Ends, Ends-then_run, Ends-map}
use proofframe.Join.Meets.{Meets, Further, meet_round-Further, pass_left-Meets, pass_other-Meets}

module _ {V D : Type 0} (o : Order V) (digest : V → Result D) (max_samples : ℕ)
    (flag : ℕ → Bool) where
  meet_loop-none :
      (fuel : ℕ) (s : Intersection V D)
      → both s.left.value s.right.value ≡ none
      → meet_loop o digest max_samples flag fuel s ≡ some (ok s)
  unfolding meet_loop
  meet_loop-none zero s e = rw (e, meet_loop)
  meet_loop-none (suc fuel) s e = rw (e, meet_loop)

  meet_loop-both :
      (fuel : ℕ) (s : Intersection V D) (l r : Rec V)
      → both s.left.value s.right.value ≡ some (l, r)
      → meet_loop o digest max_samples flag (suc fuel) s
        ≡ then_run
            (meet_round o digest max_samples flag l.0 r.0 s)
            (λ s'. meet_loop o digest max_samples flag fuel s')
  unfolding meet_loop
  meet_loop-both fuel s l r e = rw (e, meet_loop)

  drain_left-none :
      (fuel : ℕ) (s : Intersection V D)
      → s.left.value ≡ none
      → drain_left o digest max_samples flag fuel s ≡ some (ok s)
  unfolding drain_left
  drain_left-none zero s e = rw e
  drain_left-none (suc fuel) s e = rw e

  drain_left-some :
      (fuel : ℕ) (s : Intersection V D) (l : Rec V)
      → s.left.value ≡ some l
      → drain_left o digest max_samples flag (suc fuel) s
        ≡ then_run
            (pass_left o digest max_samples flag s)
            (λ s'. drain_left o digest max_samples flag fuel s')
  unfolding drain_left
  drain_left-some fuel s l e = rw e

  drain_other-none :
      (fuel : ℕ) (s : Intersection V D)
      → s.right.value ≡ none
      → drain_other o digest max_samples flag fuel s ≡ some (ok s)
  unfolding drain_other
  drain_other-none zero s e = rw e
  drain_other-none (suc fuel) s e = rw e

  drain_other-some :
      (fuel : ℕ) (s : Intersection V D) (r : Rec V)
      → s.right.value ≡ some r
      → drain_other o digest max_samples flag (suc fuel) s
        ≡ then_run
            (pass_other o digest max_samples flag s)
            (λ s'. drain_other o digest max_samples flag fuel s')
  unfolding drain_other
  drain_other-some fuel s r e = rw e

  module _ (identity : V → D) (nl nr overlap : ℕ) (samples : List D) where
    abbrev At : List (Rec V) → List (Rec V) → Intersection V D → Type 0
    At = Meets o digest identity max_samples flag nl nr overlap samples

    -- one side is used up
    abbrev Over : ℕ → Intersection V D → Type 0
    Over bound s =
        ((right : List (Rec V)) × (At [] right s × (length right ≤ bound)))
        ⊎ ((left : List (Rec V)) × (At left [] s × (length left ≤ bound)))

    Over-weaken : (few most : ℕ) (s : Intersection V D) → few ≤ most → Over few s → Over most s
    Over-weaken few most s h (inl (right, (at, b))) = inl (right, (at, omega (arith, h, b)))
    Over-weaken few most s h (inr (left, (at, b))) = inr (left, (at, omega (arith, h, b)))

    meet_loop-Over :
        (fuel : ℕ) (left right : List (Rec V)) (s : Intersection V D)
        → At left right s
        → length left + length right ≤ fuel
        → Ends flag (Over (length left + length right)) (meet_loop o digest max_samples flag fuel s)
    meet_loop-Over fuel [] right s at enough =
        inl (s, (meet_loop-none fuel s (rw at.at_left.0), inl (right, (at, omega arith))))
    meet_loop-Over fuel (l ∷ left) [] s at enough = inl (
      s,
      (meet_loop-none fuel s (rw (at.at_left.0, at.at_right.0)), inr (l ∷ left, (at, omega arith))),
    )
    meet_loop-Over zero (l ∷ left) (r ∷ right) s at enough = absurd (omega arith)
    meet_loop-Over (suc fuel) (l ∷ left) (r ∷ right) s at enough =
        let ahead : ℕ = length (l ∷ left) + length (r ∷ right) in
        subst (Ends flag (Over ahead))
          (sym (meet_loop-both fuel s l r (rw (at.at_left.0, at.at_right.0))))
          (Ends-then_run flag
            (Further o digest identity max_samples flag nl nr overlap samples ahead) (Over ahead)
            (meet_round o digest max_samples flag l.0 r.0 s)
            (λ s'. meet_loop o digest max_samples flag fuel s')
            (meet_round-Further o digest identity max_samples flag nl nr overlap samples l r left
              right s at)
            (λ s' (left', (right', (at', fewer))).
              Ends-map flag (Over (length left' + length right')) (Over ahead)
                (meet_loop o digest max_samples flag fuel s')
                (λ s2. Over-weaken (length left' + length right') ahead s2 (omega (arith, fewer)))
                (meet_loop-Over fuel left' right' s' at' (omega (arith, enough, fewer)))))

    -- what is left of the left side, with the right one used up
    drain_left-At :
        (fuel : ℕ) (left : List (Rec V)) (s : Intersection V D)
        → At left [] s
        → length left ≤ fuel
        → Ends flag (At [] []) (drain_left o digest max_samples flag fuel s)
    drain_left-At fuel [] s at enough = inl (s, (drain_left-none fuel s at.at_left.0, at))
    drain_left-At zero (l ∷ left) s at enough = absurd (omega arith)
    drain_left-At (suc fuel) (l ∷ left) s at enough =
        let same : present o (l ∷ left) [] ≡ present o left [] = refl in
        subst (Ends flag (At [] [])) (sym (drain_left-some fuel s l at.at_left.0)) (
          Ends-then_run flag (At left []) (At [] []) (pass_left o digest max_samples flag s)
            (λ s'. drain_left o digest max_samples flag fuel s')
            (pass_left-Meets o digest identity max_samples flag nl nr overlap samples left [] s
              at.at_left.1 at.at_right at.left_up.1 at.right_up at.digests.1 at.counts at.collects)
            (λ s' at'. drain_left-At fuel left s' at' (omega (arith, enough))))

    drain_left-Over :
        (fuel bound : ℕ) (s : Intersection V D)
        → Over bound s
        → bound ≤ fuel
        → Ends flag
            (λ s'. (right : List (Rec V)) × (At [] right s' × (length right ≤ bound)))
            (drain_left o digest max_samples flag fuel s)
    drain_left-Over fuel bound s (inl (right, (at, few))) enough =
        inl (s, (drain_left-none fuel s at.at_left.0, (right, (at, few))))
    drain_left-Over fuel bound s (inr (left, (at, few))) enough =
        Ends-map flag (At [] [])
          (λ s'. (right : List (Rec V)) × (At [] right s' × (length right ≤ bound)))
          (drain_left o digest max_samples flag fuel s) (λ s' at'. ([], (at', omega arith)))
          (drain_left-At fuel left s at (omega (arith, few, enough)))

    drain_other-At :
        (fuel : ℕ) (right : List (Rec V)) (s : Intersection V D)
        → At [] right s
        → length right ≤ fuel
        → Ends flag (At [] []) (drain_other o digest max_samples flag fuel s)
    drain_other-At fuel [] s at enough = inl (s, (drain_other-none fuel s at.at_right.0, at))
    drain_other-At zero (r ∷ right) s at enough = absurd (omega arith)
    drain_other-At (suc fuel) (r ∷ right) s at enough =
        subst (Ends flag (At [] [])) (sym (drain_other-some fuel s r at.at_right.0)) (
          Ends-then_run flag (At [] right) (At [] []) (pass_other o digest max_samples flag s)
            (λ s'. drain_other o digest max_samples flag fuel s')
            (pass_other-Meets o digest identity max_samples flag nl nr overlap samples r [] right s
              at refl)
            (λ s' at'. drain_other-At fuel right s' at' (omega (arith, enough))))

    -- All three loops end.
    pub loops-At :
        (fuel : ℕ) (left right : List (Rec V)) (s : Intersection V D)
        → At left right s
        → length left + length right ≤ fuel
        → Ends flag (At [] []) (
            then_run (meet_loop o digest max_samples flag fuel s) (λ s3.
              then_run
                (drain_left o digest max_samples flag fuel s3)
                (λ s4. drain_other o digest max_samples flag fuel s4)))
    loops-At fuel left right s at enough =
        let bound : ℕ = length left + length right in
        Ends-then_run flag (Over bound) (At [] []) (meet_loop o digest max_samples flag fuel s) _
          (meet_loop-Over fuel left right s at enough)
          (λ s3 over.
            Ends-then_run flag
              (λ s'. (rest : List (Rec V)) × (At [] rest s' × (length rest ≤ bound))) (At [] [])
              (drain_left o digest max_samples flag fuel s3)
              (drain_other o digest max_samples flag fuel)
              (drain_left-Over fuel bound s3 over enough)
              (λ s4 (rest, (at', few)).
                drain_other-At fuel rest s4 at' (omega (arith, few, enough))))
