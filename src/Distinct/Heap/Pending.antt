-- ===== src/Distinct/Heap/Pending.antt =====
-- Popping the merge heap of distinct/run.rs takes the least of all records that are pending.
use proofframe.Prelude.{
  ℕ, suc, ◌≡◌, refl, sym, ap, ◌∙◌, true, false, Bool-cases, inl, inr, List, [], ◌∷◌, ◌++◌,
  append_assoc, length,
}
use proofframe.Sorting.{Order, sort, Below, IsSorted}
use proofframe.Sorting.Laws.{
  sort-Below, Below-append, Below-trans, sort-append_cong, sort-swap, length-sort,
}
use proofframe.Distinct.Scan.{Rec, rec_order}
use proofframe.Distinct.Heap.{Entry, entry_order, push, refill, open_heap, pending, Before, IsHeap}

module _ {V : Type 0} (o : Order V) where
  -- An entry before another carries a record that is not after the other's.
  key_rec : (k l : Rec V × ℕ) → (entry_order o).leq k l ≡ true → (rec_order o).leq k.0 l.0 ≡ true
  key_rec k l h = elim (Bool-cases ((rec_order o).leq k.0 l.0)) [
    | inl le ↦ le
    | inr gt ↦ (let clash : false ≡ true = (rw gt at h) in cc)
  ]

  Below-pending :
      (k : Rec V × ℕ) (es : List (Entry V))
      → Before o k es
      → IsHeap o es
      → Below (rec_order o) k.0 (pending es)
  Below-pending k [] b h = tt
  Below-pending k (e ∷ es) b h =
      let le = key_rec k e.key b.0 in
      (
        le,
        Below-append (rec_order o) k.0 e.rest (pending es)
            (Below-trans (rec_order o) k.0 e.key.0 e.rest le h.0.0) (Below-pending k es b.1 h.2),
      )

  -- The popped record comes first in sorted order.
  pub sort-pop :
      (e : Entry V) (es : List (Entry V))
      → IsHeap o (e ∷ es)
      → sort (rec_order o) (pending (e ∷ es)) ≡ e.key.0 ∷ sort (rec_order o) (e.rest ++ pending es)
  sort-pop e es h = sort-Below (rec_order o) e.key.0 (e.rest ++ pending es) (
      Below-append (rec_order o) e.key.0 e.rest (pending es) h.0.0 (Below-pending e.key es h.1 h.2))

  -- A pushed entry joins the pending records.
  sort-push :
      (e : Entry V) (es : List (Entry V))
      → sort (rec_order o) (pending (push o e es)) ≡ sort (rec_order o) (pending (e ∷ es))
  unfolding push
  sort-push e [] = refl
  sort-push e (f ∷ fs) = elim (Bool-cases ((entry_order o).leq e.key f.key)) [
    | inl le ↦ rw le
    | inr gt ↦ rw gt (
        sort-append_cong (rec_order o) (f.key.0 ∷ f.rest) (pending (push o e fs)) (pending (e ∷ fs))
          (sort-push e fs)
        ∙ sort-swap (rec_order o) (f.key.0 ∷ f.rest) (e.key.0 ∷ e.rest) (pending fs))
  ]

  -- A refilled cursor keeps its records pending.
  pub sort-refill :
      (run : ℕ) (rs : List (Rec V)) (es : List (Entry V))
      → sort (rec_order o) (pending (refill o run rs es)) ≡ sort (rec_order o) (rs ++ pending es)
  unfolding refill
  sort-refill run [] es = refl
  sort-refill run (r ∷ rs) es = sort-push (record { key = (r, run); rest = rs }) es

  Before-push :
      (k : Rec V × ℕ) (e : Entry V) (es : List (Entry V))
      → (entry_order o).leq k e.key ≡ true
      → Before o k es
      → Before o k (push o e es)
  unfolding push
  Before-push k e [] h b = (h, tt)
  Before-push k e (f ∷ fs) h b = elim (Bool-cases ((entry_order o).leq e.key f.key)) [
    | inl le ↦ rw le (h, b)
    | inr gt ↦ rw gt (b.0, Before-push k e fs h b.1)
  ]

  Before-trans :
      (k l : Rec V × ℕ) (es : List (Entry V))
      → (entry_order o).leq k l ≡ true
      → Before o l es
      → Before o k es
  Before-trans k l [] h b = tt
  Before-trans k l (e ∷ es) h b = ((entry_order o).trans k l e.key h b.0, Before-trans k l es h b.1)

  flip_key : (k l : Rec V × ℕ) → (entry_order o).leq k l ≡ false → (entry_order o).leq l k ≡ true
  flip_key k l h = elim ((entry_order o).total k l) [ inl g ↦ cc | inr g ↦ g ]

  IsHeap-push :
      (e : Entry V) (es : List (Entry V))
      → IsSorted (rec_order o) (e.key.0 ∷ e.rest)
      → IsHeap o es
      → IsHeap o (push o e es)
  unfolding push
  IsHeap-push e [] s h = (s, tt, tt)
  IsHeap-push e (f ∷ fs) s h = elim (Bool-cases ((entry_order o).leq e.key f.key)) [
    | inl le ↦ rw le (s, (le, Before-trans e.key f.key fs le h.1), h)
    | inr gt ↦
        rw gt (h.0, Before-push f.key e fs (flip_key e.key f.key gt) h.1, IsHeap-push e fs s h.2)
  ]

  pub IsHeap-refill :
      (run : ℕ) (rs : List (Rec V)) (es : List (Entry V))
      → IsSorted (rec_order o) rs
      → IsHeap o es
      → IsHeap o (refill o run rs es)
  unfolding refill
  IsHeap-refill run [] es s h = h
  IsHeap-refill run (r ∷ rs) es s h = IsHeap-push (record { key = (r, run); rest = rs }) es s h

  abbrev pub concat : List (List (Rec V)) → List (Rec V)
  concat [] = []
  concat (rs ∷ runs) = rs ++ concat runs

  abbrev pub AllSorted : List (List (Rec V)) → Type 0
  AllSorted [] = Unit
  AllSorted (rs ∷ runs) = IsSorted (rec_order o) rs × AllSorted runs

  pub IsHeap-open_heap :
      (run : ℕ) (runs : List (List (Rec V))) (es : List (Entry V))
      → AllSorted runs
      → IsHeap o es
      → IsHeap o (open_heap o run runs es)
  unfolding open_heap
  IsHeap-open_heap run [] es s h = h
  IsHeap-open_heap run (rs ∷ runs) es s h =
      IsHeap-open_heap (suc run) runs (refill o run rs es) s.1 (IsHeap-refill run rs es s.0 h)

  -- Opening the cursors of some runs makes all their records pending.
  pub sort-open_heap :
      (run : ℕ) (runs : List (List (Rec V))) (es : List (Entry V))
      → sort (rec_order o) (pending (open_heap o run runs es))
        ≡ sort (rec_order o) (concat runs ++ pending es)
  unfolding open_heap
  sort-open_heap run [] es = refl
  sort-open_heap run (rs ∷ runs) es =
      sort-open_heap (suc run) runs (refill o run rs es)
      ∙ sort-append_cong (rec_order o) (concat runs) (pending (refill o run rs es))
          (rs ++ pending es) (sort-refill run rs es)
      ∙ sort-swap (rec_order o) (concat runs) rs (pending es)
      ∙ ap (sort (rec_order o)) (sym (append_assoc rs (concat runs) (pending es)))

  -- as many records stay pending after a pop as the sorted list has behind its first
  pub length-refill :
      (run : ℕ) (rs : List (Rec V)) (es : List (Entry V))
      → length (pending (refill o run rs es)) ≡ length (rs ++ pending es)
  length-refill run rs es =
      sym (length-sort (rec_order o) (pending (refill o run rs es)))
      ∙ ap length (sort-refill run rs es)
      ∙ length-sort (rec_order o) (rs ++ pending es)
