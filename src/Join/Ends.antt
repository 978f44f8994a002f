-- ===== src/Join/Ends.antt =====
-- How the loops of a join end: with a result, or cancelled by a load of the flag. They have fuel enough.
use proofframe.Prelude.{ℕ, ◌≡◌, refl, true, Bool, Bool-cases, Option, some, inl, inr, ◌⊎◌}
use proofframe.Error.{Result, ok, err, cancelled}
use proofframe.Resource.{check}
use proofframe.Distinct.Merge.{checked}
use proofframe.Join.Side.{then_run}

abbrev pub Cancelled : {A : Type 0} → (ℕ → Bool) → Option (Result A) → Type 0
Cancelled flag m = (m ≡ some (err cancelled)) × ((j : ℕ) × (flag j ≡ true))

abbrev pub Ends : {A : Type 0} → (ℕ → Bool) → (A → Type 0) → Option (Result A) → Type 0
Ends {A = A} flag P m = ((a : A) × ((m ≡ some (ok a)) × P a)) ⊎ Cancelled flag m

module _ (flag : ℕ → Bool) {A : Type 0} where
  pub Ends-then_run :
      {B : Type 0} (P : A → Type 0) (Q : B → Type 0) (m : Option (Result A))
      (rest : A → Option (Result B))
      → Ends flag P m
      → ((a : A) → P a → Ends flag Q (rest a))
      → Ends flag Q (then_run m rest)
  unfolding then_run
  Ends-then_run P Q m rest (inl (a, (e, p))) later = rw e (later a p)
  Ends-then_run P Q m rest (inr (e, seen)) later = rw e (inr (refl, seen))

  pub Ends-checked :
      (P : A → Type 0) (j : ℕ) (m : Option (Result A))
      → Ends flag P m
      → Ends flag P (checked (check (flag j)) m)
  Ends-checked P j m ends = elim (Bool-cases (flag j)) [
    | inl stop ↦ rw stop (inr (refl, (j, stop)))
    | inr go ↦ rw go ends
  ]

  pub Ends-map :
      (P Q : A → Type 0) (m : Option (Result A))
      → ((a : A) → P a → Q a)
      → Ends flag P m
      → Ends flag Q m
  Ends-map P Q m f (inl (a, (e, p))) = inl (a, (e, f a p))
  Ends-map P Q m f (inr cut) = inr cut
