-- ===== src/Join/Lowest.antt =====
-- The values of sorted records once each, with their lowest rows, as `next_unique_with_row` of
-- distinct/run.rs is to give them.
use proofframe.Prelude.{
  ℕ, suc, ◌≤◌, ◌≡◌, refl, ap, ◌∙◌, true, false, Bool-cases, inl, inr, List, [], ◌∷◌, arith, length,
  if◌then◌else◌, All,
}
use proofframe.Sorting.{Order, sort, Below, IsSorted}
use proofframe.Sorting.Laws.{sort-IsSorted}
use proofframe.Distinct.{Rec, rec_order, same}
use proofframe.Distinct.Exact.{
  occurs, distinct_values, same-eq, same_comm, occurs-next, distinct_values-sort,
}

module _ {V : Type 0} (o : Order V) where
  -- the first record of each value behind a record of that value
  unfoldable pub lowest_after : V → List (Rec V) → List (Rec V)
  lowest_after v [] = []
  lowest_after v (r ∷ rs) = if same o r.0 v then lowest_after v rs else r ∷ lowest_after r.0 rs

  unfoldable pub lowest : List (Rec V) → List (Rec V)
  unfolding lowest_after
  lowest [] = []
  lowest (r ∷ rs) = r ∷ lowest_after r.0 rs

  pub lowest_cons : (r : Rec V) (rs : List (Rec V)) → lowest (r ∷ rs) ≡ r ∷ lowest_after r.0 rs
  unfolding lowest
  lowest_cons r rs = refl

  pub lowest_after-again :
      (v : V) (r : Rec V) (rs : List (Rec V))
      → same o r.0 v ≡ true
      → lowest_after v (r ∷ rs) ≡ lowest_after v rs
  unfolding lowest_after
  lowest_after-again v r rs again = rw again

  pub lowest_after-new :
      (v : V) (r : Rec V) (rs : List (Rec V))
      → same o r.0 v ≡ false
      → lowest_after v (r ∷ rs) ≡ r ∷ lowest_after r.0 rs
  unfolding lowest_after
  lowest_after-new v r rs new = rw new

  abbrev pub Greater : V → List (Rec V) → Type 0
  Greater v rs = All (λ r. (o.leq v r.0 ≡ true) × (o.leq r.0 v ≡ false)) rs

  abbrev pub Ascending : List (Rec V) → Type 0
  Ascending [] = Unit
  Ascending (r ∷ rs) = Greater r.0 rs × Ascending rs

  -- a bound on the values of records
  abbrev Least : V → List (Rec V) → Type 0
  Least v rs = All (λ r. o.leq v r.0 ≡ true) rs

  Least-trans : (v w : V) (rs : List (Rec V)) → o.leq v w ≡ true → Least w rs → Least v rs
  Least-trans v w [] h least = tt
  Least-trans v w (r ∷ rs) h least = (o.trans v w r.0 h least.0, Least-trans v w rs h least.1)

  Below-Least : (r : Rec V) (rs : List (Rec V)) → Below (rec_order o) r rs → Least r.0 rs
  Below-Least r [] below = tt
  Below-Least (v, m) ((w, n) ∷ rs) below = (ground (arith, below.0), Below-Least (v, m) rs below.1)

  Greater-trans :
      (v w : V) (rs : List (Rec V))
      → o.leq v w ≡ true
      → o.leq w v ≡ false
      → Least w rs
      → Greater v rs
  Greater-trans v w [] h k least = tt
  Greater-trans v w (r ∷ rs) h k least = (
    (o.trans v w r.0 h least.0, ground (arith, o.trans w r.0 v least.0, k)),
    Greater-trans v w rs h k least.1,
  )

  Least-lowest_after : (v w : V) (rs : List (Rec V)) → Least v rs → Least v (lowest_after w rs)
  unfolding lowest_after
  Least-lowest_after v w [] least = tt
  Least-lowest_after v w (r ∷ rs) least = elim (Bool-cases (same o r.0 w)) [
    | inl again ↦ rw again (Least-lowest_after v w rs least.1)
    | inr new ↦ rw new (least.0, Least-lowest_after v r.0 rs least.1)
  ]

  -- Sorted records behind one of value v leave only greater values, in ascending order.
  lowest_after-Ascending :
      (v : V) (rs : List (Rec V))
      → IsSorted (rec_order o) rs
      → Least v rs
      → Greater v (lowest_after v rs) × Ascending (lowest_after v rs)
  unfolding lowest_after
  lowest_after-Ascending v [] sorted least = (tt, tt)
  lowest_after-Ascending v (r ∷ rs) sorted least = elim (Bool-cases (same o r.0 v)) [
    | inl again ↦ rw again (lowest_after-Ascending v rs sorted.1 least.1)
    | inr new ↦
        let after : Least r.0 rs = Below-Least r rs sorted.0 in
        let (greater, ascending) = lowest_after-Ascending r.0 rs sorted.1 after in
        let above : o.leq r.0 v ≡ false = ground (arith, least.0, new) in
        rw new (
          (
            (least.0, above),
            Greater-trans v r.0 (lowest_after r.0 rs) least.0 above
                (Least-lowest_after r.0 r.0 rs after),
          ),
          (greater, ascending),
        )
  ]

  pub lowest-Ascending : (rs : List (Rec V)) → IsSorted (rec_order o) rs → Ascending (lowest rs)
  unfolding lowest
  lowest-Ascending [] sorted = tt
  lowest-Ascending (r ∷ rs) sorted =
      lowest_after-Ascending r.0 rs sorted.1 (Below-Least r rs sorted.0)

  occurs-lowest_after :
      (v w : V) (rs : List (Rec V))
      → (if same o v w then true else occurs o v (lowest_after w rs))
        ≡ (if same o v w then true else occurs o v rs)
  unfolding lowest_after
  occurs-lowest_after v w [] = refl
  occurs-lowest_after v w (r ∷ rs) = elim (Bool-cases (same o r.0 w)) [
    | inl again ↦
        let one : r.0 ≡ w = same-eq o r.0 w again in
        rw again (rw (ap (λ x. same o v x) one) (ground (arith, occurs-lowest_after v w rs)))
    | inr new ↦ rw new (ground (arith, occurs-lowest_after v r.0 rs))
  ]

  pub occurs-lowest : (v : V) (rs : List (Rec V)) → occurs o v (lowest rs) ≡ occurs o v rs
  unfolding lowest
  occurs-lowest v [] = refl
  occurs-lowest v (r ∷ rs) = occurs-lowest_after v r.0 rs

  length-lowest_after :
      (v : V) (k : ℕ) (rs : List (Rec V))
      → IsSorted (rec_order o) ((v, k) ∷ rs)
      → suc (length (lowest_after v rs)) ≡ distinct_values o ((v, k) ∷ rs)
  unfolding lowest_after
  length-lowest_after v k [] sorted = refl
  length-lowest_after v k ((w, n) ∷ rs) sorted = elim (Bool-cases (same o v w)) [
    | inl again ↦
        let ih = length-lowest_after v k rs (sorted.0.1, sorted.1.1) in
        let one : occurs o v rs ≡ occurs o w rs = ap (λ x. occurs o x rs) (same-eq o v w again) in
        rw (same_comm o w v, again) (ground (arith, ih, one))
    | inr new ↦
        let next : occurs o v ((w, n) ∷ rs) ≡ false = occurs-next o (v, k) (w, n) rs sorted ∙ new in
        let absent : occurs o v rs ≡ false = rw new at next in
        rw (same_comm o w v, new, absent) (omega (arith, length-lowest_after w n rs sorted.1))
  ]

  lowest_after_fewer : (v : V) (rs : List (Rec V)) → length (lowest_after v rs) ≤ length rs
  unfolding lowest_after
  lowest_after_fewer v [] = omega arith
  lowest_after_fewer v (r ∷ rs) = ground (arith, lowest_after_fewer v rs, lowest_after_fewer r.0 rs)

  pub lowest_fewer : (rs : List (Rec V)) → length (lowest rs) ≤ length rs
  unfolding lowest
  lowest_fewer [] = omega arith
  lowest_fewer (r ∷ rs) = omega (arith, lowest_after_fewer r.0 rs)

  -- As many values come as there are different ones among the records.
  pub length-lowest :
      (rs : List (Rec V)) → length (lowest (sort (rec_order o) rs)) ≡ distinct_values o rs
  unfolding lowest
  length-lowest rs =
      by_sorted (sort (rec_order o) rs) (sort-IsSorted (rec_order o) rs) ∙ distinct_values-sort o rs
    where
      by_sorted :
          (l : List (Rec V)) → IsSorted (rec_order o) l → length (lowest l) ≡ distinct_values o l
      by_sorted [] sorted = refl
      by_sorted ((v, k) ∷ l) sorted = length-lowest_after v k l sorted
