-- ===== src/Join/Absent.antt =====
-- Which records of one list have a value that another list lacks, and how two ascending lists tell.
use proofframe.Prelude.{
  ℕ, zero, suc, ◌-◌, ◌≡◌, refl, sym, ap, ◌∙◌, true, false, Bool-cases, inl, inr, List, [], ◌∷◌,
  ◌++◌, arith, length, take, ltb, ltb→lt, length-append, append_assoc, append-nil, map,
  if◌then◌else◌,
}
use proofframe.Sorting.{Order}
use proofframe.Distinct.{Rec}
use proofframe.Distinct.Exact.{occurs}
use proofframe.Join.AntiJoin.{add_sample}
use proofframe.Join.Lowest.{Greater}

module _ {V : Type 0} (o : Order V) where
  -- the records of the left list whose value no record of the right one has
  abbrev pub absent : List (Rec V) → List (Rec V) → List (Rec V)
  absent [] right = []
  absent (r ∷ rs) right = if occurs o r.0 right then absent rs right else r ∷ absent rs right

  pub absent-nil : (left : List (Rec V)) → absent left [] ≡ left
  absent-nil [] = refl
  absent-nil (r ∷ rs) = ap (λ l. r ∷ l) (absent-nil rs)

  pub absent_cong :
      (left right right' : List (Rec V))
      → ((v : V) → occurs o v right ≡ occurs o v right')
      → absent left right ≡ absent left right'
  absent_cong [] right right' same_values = refl
  absent_cong (r ∷ rs) right right' same_values =
      rw (same_values r.0, absent_cong rs right right' same_values)

  -- A value below all others is none of them.
  occurs-Greater : (v : V) (rs : List (Rec V)) → Greater o v rs → occurs o v rs ≡ false
  occurs-Greater v [] greater = refl
  occurs-Greater v (r ∷ rs) greater = ground (arith, greater.0.1, occurs-Greater v rs greater.1)

  Greater-below :
      (v w : V) (rs : List (Rec V))
      → o.leq v w ≡ true
      → o.leq w v ≡ false
      → Greater o w rs
      → Greater o v rs
  Greater-below v w [] h k greater = tt
  Greater-below v w (r ∷ rs) h k greater = (
    (o.trans v w r.0 h greater.0.0, ground (arith, o.trans w r.0 v greater.0.0, k)),
    Greater-below v w rs h k greater.1,
  )

  occurs-below :
      (l r : Rec V) (right : List (Rec V))
      → o.leq l.0 r.0 ≡ true
      → o.leq r.0 l.0 ≡ false
      → Greater o r.0 right
      → occurs o l.0 (r ∷ right) ≡ false
  occurs-below l r right h k greater =
      occurs-Greater l.0 (r ∷ right) ((h, k), Greater-below l.0 r.0 right h k greater)

  Greater-above :
      (l r : Rec V) (left : List (Rec V))
      → o.leq l.0 r.0 ≡ false
      → Greater o l.0 left
      → Greater o r.0 (l ∷ left)
  Greater-above l r left h greater =
      let below : o.leq r.0 l.0 ≡ true = elim (o.total l.0 r.0) [ inl le ↦ cc | inr le ↦ le ] in
      ((below, h), Greater-below r.0 l.0 left below h greater)

  -- A right value that is below all of the left matches none of them.
  absent-Greater :
      (r : Rec V) (left right : List (Rec V))
      → Greater o r.0 left
      → absent left (r ∷ right) ≡ absent left right
  absent-Greater r [] right greater = refl
  absent-Greater r (l ∷ left) right greater =
      ground (arith, greater.0.1, absent-Greater r left right greater.1)

  -- the left value is below the next right one
  pub absent-below :
      (l r : Rec V) (left right : List (Rec V))
      → o.leq l.0 r.0 ≡ true
      → o.leq r.0 l.0 ≡ false
      → Greater o r.0 right
      → absent (l ∷ left) (r ∷ right) ≡ l ∷ absent left (r ∷ right)
  absent-below l r left right h k greater = rw (occurs-below l r right h k greater)

  pub absent-above :
      (l r : Rec V) (left right : List (Rec V))
      → o.leq l.0 r.0 ≡ false
      → Greater o l.0 left
      → absent (l ∷ left) (r ∷ right) ≡ absent (l ∷ left) right
  absent-above l r left right h greater =
      absent-Greater r (l ∷ left) right (Greater-above l r left h greater)

  pub absent-equal :
      (l r : Rec V) (left right : List (Rec V))
      → o.leq l.0 r.0 ≡ true
      → o.leq r.0 l.0 ≡ true
      → Greater o l.0 left
      → absent (l ∷ left) (r ∷ right) ≡ absent left right
  absent-equal l r left right h k greater =
      let one : l.0 ≡ r.0 = o.antisym l.0 r.0 h k in
      rw (h, k) (absent-Greater r left right (rw (sym one) greater))

module _ {V : Type 0} (o : Order V) where
  -- the records of the left list whose value some record of the right one has
  abbrev pub present : List (Rec V) → List (Rec V) → List (Rec V)
  present [] right = []
  present (r ∷ rs) right = if occurs o r.0 right then r ∷ present rs right else present rs right

  pub present-nil : (left : List (Rec V)) → present left [] ≡ []
  present-nil [] = refl
  present-nil (r ∷ rs) = present-nil rs

  pub present_cong :
      (left right right' : List (Rec V))
      → ((v : V) → occurs o v right ≡ occurs o v right')
      → present left right ≡ present left right'
  present_cong [] right right' same_values = refl
  present_cong (r ∷ rs) right right' same_values =
      rw (same_values r.0, present_cong rs right right' same_values)

  pub present-Greater :
      (r : Rec V) (left right : List (Rec V))
      → Greater o r.0 left
      → present left (r ∷ right) ≡ present left right
  present-Greater r [] right greater = refl
  present-Greater r (l ∷ left) right greater =
      ground (arith, greater.0.1, present-Greater r left right greater.1)

  pub present-below :
      (l r : Rec V) (left right : List (Rec V))
      → o.leq l.0 r.0 ≡ true
      → o.leq r.0 l.0 ≡ false
      → Greater o r.0 right
      → present (l ∷ left) (r ∷ right) ≡ present left (r ∷ right)
  present-below l r left right h k greater = rw (occurs-below o l r right h k greater)

  pub present-above :
      (l r : Rec V) (left right : List (Rec V))
      → o.leq l.0 r.0 ≡ false
      → Greater o l.0 left
      → present (l ∷ left) (r ∷ right) ≡ present (l ∷ left) right
  present-above l r left right h greater =
      present-Greater r (l ∷ left) right (Greater-above o l r left h greater)

  pub present-equal :
      (l r : Rec V) (left right : List (Rec V))
      → o.leq l.0 r.0 ≡ true
      → o.leq r.0 l.0 ≡ true
      → Greater o l.0 left
      → present (l ∷ left) (r ∷ right) ≡ l ∷ present left right
  present-equal l r left right h k greater =
      let one : l.0 ≡ r.0 = o.antisym l.0 r.0 h k in
      rw (h, k) (ap (λ p. l ∷ p) (present-Greater r left right (rw (sym one) greater)))

-- the samples that a loop collects from these records, after those that it has
abbrev pub collected {ℓ} :
    {V : Type 0} {A : Type ℓ} → (Rec V → A) → ℕ → List A → List (Rec V) → List A
collected f max_samples samples [] = samples
collected f max_samples samples (r ∷ rs) =
    collected f max_samples (add_sample max_samples samples (f r)) rs

abbrev pub row_of : {V : Type 0} → Rec V → ℕ
row_of r = r.1

abbrev pub rows : {V : Type 0} → List (Rec V) → List ℕ
rows rs = map row_of rs

module _ {ℓ} {V : Type 0} {A : Type ℓ} (f : Rec V → A) (max_samples : ℕ) where
  take-nil : (n : ℕ) → take {A = A} n [] ≡ []
  take-nil zero = refl
  take-nil (suc n) = refl

  -- The first ones that fit are kept.
  collected-take :
      (samples : List A) (rs : List (Rec V))
      → collected f max_samples samples rs
        ≡ samples ++ take (max_samples - length samples) (map f rs)
  collected-take samples [] =
      rw (take-nil (max_samples - length samples)) (sym (append-nil samples))
  collected-take samples (r ∷ rs) = elim (Bool-cases (ltb (length samples) max_samples)) [
    | inl fits ↦
        let more : List A = samples ++ f r ∷ [] in
        let room : max_samples - length samples ≡ suc (max_samples - length more) =
          omega (arith, ltb→lt _ _ fits, length-append samples (f r ∷ [])) in
        rw (fits, room)
          (collected-take more rs
            ∙ append_assoc samples (f r ∷ []) (take (max_samples - length more) (map f rs)))
    | inr full ↦
        let none_left : max_samples - length samples ≡ 0 = ground arith in
        let same : collected f max_samples samples rs ≡ samples ++ take 0 (map f rs) =
          rw none_left at (collected-take samples rs) in
        rw (full, none_left) same
  ]

  pub collected_fresh :
      (rs : List (Rec V)) → collected f max_samples [] rs ≡ take max_samples (map f rs)
  collected_fresh rs =
      let room : max_samples - 0 ≡ max_samples = omega arith in
      collected-take [] rs ∙ ap (λ n. take n (map f rs)) room
