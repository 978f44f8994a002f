-- ===== src/Sorting/Laws.antt =====
-- Sorting does not depend on the order of its input.
use proofframe.Prelude.{
  ◌≡◌, refl, sym, ap, ◌∙◌, true, false, List, [], ◌∷◌, ◌++◌, arith, inl, inr, Bool-cases, suc,
  length, append-nil,
}
use proofframe.Sorting.{Order, insert, sort, Below, IsSorted}

module _ {ℓ} {A : Type ℓ} (o : Order A) where
  pub leq_refl : (a : A) → o.leq a a ≡ true
  leq_refl a = elim (o.total a a) [ inl h ↦ h | inr h ↦ h ]

  insert-le : (a b : A) (l : List A) → o.leq a b ≡ true → insert o a (b ∷ l) ≡ a ∷ b ∷ l
  unfolding insert
  insert-le a b l h = rw h

  insert-gt : (a b : A) (l : List A) → o.leq a b ≡ false → insert o a (b ∷ l) ≡ b ∷ insert o a l
  unfolding insert
  insert-gt a b l h = rw h

  flip_leq : (a b : A) → o.leq a b ≡ false → o.leq b a ≡ true
  flip_leq a b h = elim (o.total a b) [ inl g ↦ cc | inr g ↦ g ]

  pub insert_comm : (a b : A) (l : List A) → insert o a (insert o b l) ≡ insert o b (insert o a l)
  unfolding insert
  insert_comm a b [] = ground (arith, o.total a b, o.antisym a b)
  insert_comm a b (c ∷ l) = ground (
    arith,
    o.total a b,
    o.antisym a b,
    o.total a c,
    o.total b c,
    o.trans a b c,
    o.trans b a c,
    o.trans a c b,
    o.trans b c a,
    insert_comm a b l,
  )

  pub sort-middle :
      (xs : List A) (a : A) (ys : List A) → sort o (xs ++ a ∷ ys) ≡ insert o a (sort o (xs ++ ys))
  unfolding sort
  sort-middle [] a ys = refl
  sort-middle (x ∷ xs) a ys = rw (sort-middle xs a ys) (insert_comm x a (sort o (xs ++ ys)))

  Below-insert : (a b : A) (l : List A) → o.leq a b ≡ true → Below o a l → Below o a (insert o b l)
  unfolding insert
  Below-insert a b [] h below = (h, tt)
  Below-insert a b (c ∷ l) h below = elim (Bool-cases (o.leq b c)) [
    | inl le ↦ rw le (h, below)
    | inr gt ↦ rw gt (below.0, Below-insert a b l h below.1)
  ]

  pub Below-sort : (a : A) (l : List A) → Below o a l → Below o a (sort o l)
  unfolding sort
  Below-sort a [] below = tt
  Below-sort a (b ∷ l) below = Below-insert a b (sort o l) below.0 (Below-sort a l below.1)

  insert-Below : (a : A) (l : List A) → Below o a l → insert o a l ≡ a ∷ l
  unfolding insert
  insert-Below a [] below = refl
  insert-Below a (b ∷ l) below = rw below.0

  -- A lower bound comes first.
  pub sort-Below : (a : A) (l : List A) → Below o a l → sort o (a ∷ l) ≡ a ∷ sort o l
  unfolding sort
  sort-Below a l below = insert-Below a (sort o l) (Below-sort a l below)

  pub sort-IsSorted_eq : (l : List A) → IsSorted o l → sort o l ≡ l
  sort-IsSorted_eq [] s = unfold sort in refl
  sort-IsSorted_eq (a ∷ l) s = sort-Below a l s.0 ∙ ap (λ r. a ∷ r) (sort-IsSorted_eq l s.1)

  pub Below-trans : (a b : A) (l : List A) → o.leq a b ≡ true → Below o b l → Below o a l
  Below-trans a b [] h below = tt
  Below-trans a b (c ∷ l) h below = (o.trans a b c h below.0, Below-trans a b l h below.1)

  insert-IsSorted : (a : A) (l : List A) → IsSorted o l → IsSorted o (insert o a l)
  unfolding insert
  insert-IsSorted a [] s = (tt, tt)
  insert-IsSorted a (b ∷ l) s = elim (Bool-cases (o.leq a b)) [
    | inl le ↦ rw le ((le, Below-trans a b l le s.0), s)
    | inr gt ↦ rw gt (Below-insert b a l (flip_leq a b gt) s.0, insert-IsSorted a l s.1)
  ]

  pub sort-IsSorted : (l : List A) → IsSorted o (sort o l)
  unfolding sort
  sort-IsSorted [] = tt
  sort-IsSorted (a ∷ l) = insert-IsSorted a (sort o l) (sort-IsSorted l)

  pub Below-append : (a : A) (xs ys : List A) → Below o a xs → Below o a ys → Below o a (xs ++ ys)
  Below-append a [] ys bx by = by
  Below-append a (x ∷ xs) ys bx by = (bx.0, Below-append a xs ys bx.1 by)

  -- Sorting one part first changes nothing.
  pub sort-append-sort : (xs ys : List A) → sort o (xs ++ sort o ys) ≡ sort o (xs ++ ys)
  unfolding sort
  sort-append-sort [] ys = sort-IsSorted_eq (sort o ys) (sort-IsSorted ys)
  sort-append-sort (x ∷ xs) ys = rw (sort-append-sort xs ys)

  pub sort-append_comm : (xs ys : List A) → sort o (xs ++ ys) ≡ sort o (ys ++ xs)
  unfolding sort
  sort-append_comm [] ys = ap (sort o) (sym (append-nil ys))
  sort-append_comm (x ∷ xs) ys = rw (sort-append_comm xs ys) (sym (sort-middle ys x xs))

  pub sort-append_cong :
      (xs : List A) (ys zs : List A) → sort o ys ≡ sort o zs → sort o (xs ++ ys) ≡ sort o (xs ++ zs)
  unfolding sort
  sort-append_cong [] ys zs h = h
  sort-append_cong (x ∷ xs) ys zs h = ap (insert o x) (sort-append_cong xs ys zs h)

  pub sort-swap : (xs ys zs : List A) → sort o (xs ++ (ys ++ zs)) ≡ sort o (ys ++ (xs ++ zs))
  unfolding sort
  sort-swap [] ys zs = refl
  sort-swap (x ∷ xs) ys zs =
      ap (insert o x) (sort-swap xs ys zs) ∙ sym (sort-middle ys x (xs ++ zs))

  length-insert : (a : A) (l : List A) → length (insert o a l) ≡ suc (length l)
  unfolding insert
  length-insert a [] = refl
  length-insert a (b ∷ l) = ground (arith, length-insert a l)

  pub length-sort : (l : List A) → length (sort o l) ≡ length l
  unfolding sort
  length-sort [] = refl
  length-sort (a ∷ l) = length-insert a (sort o l) ∙ ap suc (length-sort l)
