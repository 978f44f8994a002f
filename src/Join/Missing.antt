-- ===== src/Join/Missing.antt =====
-- The loops of `anti_join` in distinct/run.rs find the left values that the right side lacks.
use proofframe.Prelude.{
  ℕ, zero, suc, ◌+◌, ◌≤◌, ◌≡◌, refl, sym, subst, Bool, inl, List, [], ◌∷◌, none, some, arith,
  length,
}
use proofframe.Error.{ok}
use proofframe.Resource.{check}
use proofframe.Sorting.{Order}
use proofframe.Distinct.{Rec}
use proofframe.Distinct.Merge.{checked}
use proofframe.Join.Side.{advance, then_run}
use proofframe.Join.AntiJoin.{AntiJoin, pass_right, anti_round, anti_loop, drain_right}
use proofframe.Join.Rounds.{Joins, Later, anti_round-Later}
use proofframe.Join.Ends.{Ends, Ends-then_run, Ends-checked, Ends-map}
use proofframe.Join.Sides.{Stands, advance-Stands}

module _ {V : Type 0} (o : Order V) (max_samples : ℕ) (flag : ℕ → Bool) where
  anti_loop-none :
      (fuel : ℕ) (s : AntiJoin V)
      → s.left.value ≡ none
      → anti_loop o max_samples flag fuel s ≡ some (ok s)
  unfolding anti_loop
  anti_loop-none zero s e = rw e
  anti_loop-none (suc fuel) s e = rw e

  anti_loop-some :
      (fuel : ℕ) (s : AntiJoin V) (r : Rec V)
      → s.left.value ≡ some r
      → anti_loop o max_samples flag (suc fuel) s
        ≡ then_run (anti_round o max_samples flag r s) (λ s'. anti_loop o max_samples flag fuel s')
  unfolding anti_loop
  anti_loop-some fuel s r e = rw e

  drain_right-none :
      (fuel : ℕ) (s : AntiJoin V)
      → s.right.value ≡ none
      → drain_right o max_samples flag fuel s ≡ some (ok s)
  unfolding drain_right
  drain_right-none zero s e = rw e
  drain_right-none (suc fuel) s e = rw e

  drain_right-some :
      (fuel : ℕ) (s : AntiJoin V) (r : Rec V)
      → s.right.value ≡ some r
      → drain_right o max_samples flag (suc fuel) s
        ≡ then_run
            (checked (check (flag s.loads)) (pass_right o max_samples flag s))
            (λ s'. drain_right o max_samples flag fuel s')
  unfolding drain_right
  drain_right-some fuel s r e = rw e

  module _ (nl nr missing : ℕ) (samples : List ℕ) where
    abbrev Standing : List (Rec V) → List (Rec V) → AntiJoin V → Type 0
    Standing = Joins o max_samples flag nl nr missing samples

    -- The first loop ends with the left side used up.
    pub anti_loop-Joins :
        (fuel : ℕ) (left right : List (Rec V)) (s : AntiJoin V)
        → Standing left right s
        → length left + length right ≤ fuel
        → Ends flag
            (λ s'. (rest : List (Rec V)) × (Standing [] rest s' × (length rest ≤ length right)))
            (anti_loop o max_samples flag fuel s)
    anti_loop-Joins fuel [] right s joins enough =
        inl (s, (anti_loop-none fuel s joins.at_left.0, (right, (joins, omega arith))))
    anti_loop-Joins zero (l ∷ left) right s joins enough = absurd (omega arith)
    anti_loop-Joins (suc fuel) (l ∷ left) right s joins enough =
        let Done : ℕ → AntiJoin V → Type 0 =
          λ bound s'. (rest : List (Rec V)) × (Standing [] rest s' × (length rest ≤ bound)) in
        subst (Ends flag (Done (length right))) (sym (anti_loop-some fuel s l joins.at_left.0)) (
          Ends-then_run flag
            (Later o max_samples flag nl nr missing samples (length (l ∷ left) + length right)
              (length right))
            (Done (length right)) (anti_round o max_samples flag l s)
            (λ s'. anti_loop o max_samples flag fuel s')
            (anti_round-Later o max_samples flag nl nr missing samples l left right s joins)
            (λ s' (left', (right', (joins', (fewer, few)))).
              Ends-map flag (Done (length right')) (Done (length right))
                (anti_loop o max_samples flag fuel s')
                (λ s2 (rest, (done, short)). (rest, (done, omega (arith, short, few))))
                (anti_loop-Joins fuel left' right' s' joins' (omega (arith, enough, fewer)))))

    -- One more right value, with the left side used up.
    pass_right-drained :
        (r : Rec V) (right : List (Rec V)) (s : AntiJoin V)
        → Standing [] (r ∷ right) s
        → Ends flag (Standing [] right) (pass_right o max_samples flag s)
    unfolding pass_right
    pass_right-drained r right s joins =
        Ends-then_run flag (Stands o nr right) (Standing [] right)
          (advance o (flag (s.loads + 1)) s.right)
          (λ next. some (ok (record s { right = next; loads = s.loads + 2 })))
          (advance-Stands o flag (s.loads + 1) nr right s.right joins.at_right.1)
          (λ next stands. inl (
            _,
            (
              refl,
              record {
                at_left = joins.at_left;
                at_right = stands;
                left_up = tt;
                right_up = joins.right_up.1;
                counts = joins.counts;
                collects = joins.collects;
              },
            ),
          ))

    -- The second loop ends, and only counts the right side to its end.
    pub drain_right-Joins :
        (fuel : ℕ) (right : List (Rec V)) (s : AntiJoin V)
        → Standing [] right s
        → length right ≤ fuel
        → Ends flag (Standing [] []) (drain_right o max_samples flag fuel s)
    drain_right-Joins fuel [] s joins enough =
        inl (s, (drain_right-none fuel s joins.at_right.0, joins))
    drain_right-Joins zero (r ∷ right) s joins enough = absurd (omega arith)
    drain_right-Joins (suc fuel) (r ∷ right) s joins enough =
        subst (Ends flag (Standing [] [])) (sym (drain_right-some fuel s r joins.at_right.0)) (
          Ends-then_run flag (Standing [] right) (Standing [] [])
            (checked (check (flag s.loads)) (pass_right o max_samples flag s))
            (λ s'. drain_right o max_samples flag fuel s')
            (Ends-checked flag (Standing [] right) s.loads (pass_right o max_samples flag s)
              (pass_right-drained r right s joins))
            (λ s' joins'. drain_right-Joins fuel right s' joins' (omega (arith, enough))))
