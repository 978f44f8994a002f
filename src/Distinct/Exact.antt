-- ===== src/Distinct/Exact.antt =====
-- The counts of a scan of distinct/mod.rs are those of the records, whatever their order.
use proofframe.Prelude.{
  ℕ, ◌+◌, min, ◌≡◌, refl, sym, ap, ◌∙◌, Bool, true, false, List, [], ◌∷◌, Option, none, some, arith,
  length, length-append, if◌then◌else◌, Bool-cases, inl, inr,
}
use proofframe.Error.{bind-ok, Result, ok, err, ◌>>◌}
use proofframe.Sorting.{Order, sort, insert, Below, IsSorted}
use proofframe.Sorting.Laws.{sort-IsSorted, length-sort}
use proofframe.Distinct.Scan.{
  Rec, rec_order, same, Tally, fresh_tally, first_seen, seen_again, visit_after, visit, check_at,
  scan, ExactSummary, summary_of, in_memory_metrics, finish_fixed_in_memory,
}
use proofframe.Resource.{ResourceAccount, Heap}

module _ {V : Type 0} (o : Order V) where
  pub same-eq : (a b : V) → same o a b ≡ true → a ≡ b
  same-eq a b h = ground (arith, o.antisym a b)

  pub same_comm : (a b : V) → same o a b ≡ same o b a
  same_comm a b = ground arith

  -- whether a value stands in some record
  abbrev pub occurs : V → List (Rec V) → Bool
  occurs v [] = false
  occurs v (r ∷ rs) = if same o v r.0 then true else occurs v rs

  -- The number of different values: each is counted at its last record.
  abbrev pub distinct_values : List (Rec V) → ℕ
  distinct_values [] = 0
  distinct_values (r ∷ rs) = (if occurs r.0 rs then 0 else 1) + distinct_values rs

  occurs-insert :
      (v : V) (r : Rec V) (l : List (Rec V))
      → occurs v (insert (rec_order o) r l) ≡ (if same o v r.0 then true else occurs v l)
  unfolding insert
  occurs-insert v r [] = refl
  occurs-insert v r (s ∷ l) = ground (arith, occurs-insert v r l)

  distinct_values-insert :
      (r : Rec V) (l : List (Rec V))
      → distinct_values (insert (rec_order o) r l) ≡ distinct_values (r ∷ l)
  unfolding insert
  distinct_values-insert r [] = refl
  distinct_values-insert r (s ∷ l) =
      ground (
        arith,
        distinct_values-insert r l,
        occurs-insert s.0 r l,
        same-eq r.0 s.0,
        same_comm r.0 s.0,
      )

  pub occurs-sort : (v : V) (l : List (Rec V)) → occurs v (sort (rec_order o) l) ≡ occurs v l
  unfolding sort
  occurs-sort v [] = refl
  occurs-sort v (r ∷ l) = occurs-insert v r (sort (rec_order o) l) ∙ rw (occurs-sort v l)

  pub distinct_values-sort :
      (l : List (Rec V)) → distinct_values (sort (rec_order o) l) ≡ distinct_values l
  unfolding sort
  distinct_values-sort [] = refl
  distinct_values-sort (r ∷ l) =
      distinct_values-insert r (sort (rec_order o) l) ∙ rw (occurs-sort, distinct_values-sort l)

  -- In a sorted list a value that stands again stands next.
  pub occurs-next :
      (r s : Rec V) (l : List (Rec V))
      → IsSorted (rec_order o) (r ∷ s ∷ l)
      → occurs r.0 (s ∷ l) ≡ same o r.0 s.0
  occurs-next r s l sorted = elim (Bool-cases (same o r.0 s.0)) [
    | inl again ↦ rw again
    | inr new ↦ rw new (absent r s l new sorted.0 sorted.1.0)
  ]
    where
      absent :
          (r s : Rec V) (l : List (Rec V))
          → same o r.0 s.0 ≡ false
          → Below (rec_order o) r (s ∷ l)
          → Below (rec_order o) s l
          → occurs r.0 l ≡ false
      absent r s [] new below_r below_s = refl
      absent (a, m) (b, n) ((c, k) ∷ l) new below_r below_s =
          ground (
            arith,
            absent (a, m) (b, n) l,
            o.total a b,
            o.trans a b c,
            o.trans b c a,
            o.antisym a c,
          )

module _ {V : Type 0} (o : Order V) (max_samples : ℕ) where
  -- the rounds of a scan, without the checks
  unfoldable pub visits : Tally V → List (Rec V) → Tally V
  visits t [] = t
  visits t (r ∷ rs) = visits (visit o max_samples t r) rs

  pub scan-ok :
      (flag : ℕ → Bool) (i : ℕ) (rs : List (Rec V)) (t t' : Tally V)
      → scan o max_samples flag i rs t ≡ ok t'
      → t' ≡ visits t rs
  unfolding scan visits
  scan-ok flag i [] t t' e = cc
  scan-ok flag i (r ∷ rs) t t' e =
      scan-ok flag (i + 1) rs (visit o max_samples t r) t' (after_check (check_at flag i) e)
    where
      after_check :
          (c : Result (Unit {0}))
          → (c >> scan o max_samples flag (i + 1) rs (visit o max_samples t r)) ≡ ok t'
          → scan o max_samples flag (i + 1) rs (visit o max_samples t r) ≡ ok t'
      after_check (ok _) h = h
      after_check (err x) h = cc

  pub scan-running :
      (flag : ℕ → Bool) (i : ℕ) (rs : List (Rec V)) (t : Tally V)
      → ((j : ℕ) → flag j ≡ false)
      → scan o max_samples flag i rs t ≡ ok (visits t rs)
  unfolding scan visits
  scan-running flag i [] t running = refl
  scan-running flag i (r ∷ rs) t running =
      after_check (running i) (scan-running flag (i + 1) rs (visit o max_samples t r) running)
    where
      after_check : {x y : Result (Tally V)} → flag i ≡ false → x ≡ y → (check_at flag i >> x) ≡ y
      after_check quiet h = ground arith

  visit-again :
      (t : Tally V) (a v : V) (first r : ℕ)
      → t.previous ≡ some (a, first)
      → same o a v ≡ true
      → visit o max_samples t (v, r) ≡ seen_again o max_samples t first r
  unfolding visit
  visit-again t a v first r e again = rw (e, again)

  visit-new :
      (t : Tally V) (a v : V) (first r : ℕ)
      → t.previous ≡ some (a, first)
      → same o a v ≡ false
      → visit o max_samples t (v, r) ≡ first_seen o max_samples t (v, r)
  unfolding visit
  visit-new t a v first r e new = rw (e, new)

  visits-nil : (t : Tally V) → visits t [] ≡ t
  unfolding visits
  visits-nil t = refl

  visits-cons :
      (t : Tally V) (r : Rec V) (l : List (Rec V))
      → visits t (r ∷ l) ≡ visits (visit o max_samples t r) l
  unfolding visits
  visits-cons t r l = refl

  visits-distinct :
      (l : List (Rec V)) (t : Tally V) (a : V) (first k : ℕ)
      → t.previous ≡ some (a, first)
      → IsSorted (rec_order o) ((a, k) ∷ l)
      → (visits t l).distinct_count + 1 ≡ t.distinct_count + distinct_values o ((a, k) ∷ l)
  unfolding first_seen seen_again
  visits-distinct [] t a first k e s = rw (visits-nil t) (omega arith)
  visits-distinct ((v, r) ∷ l) t a first k e s = elim (Bool-cases (same o a v)) [
    | inl again ↦
        let t' : Tally V = seen_again o max_samples t first r in
        let ih =
          visits-distinct l t' v first r (e ∙ ap (λ x. some (x, first)) (same-eq o a v again))
            s.1 in
        rw
          (
            visits-cons t (v, r) l,
            visit-again t a v first r e again,
            occurs-next o (a, k) (v, r) l s,
            again,
          )
          (omega (arith, ih))
    | inr new ↦
        let ih = visits-distinct l (first_seen o max_samples t (v, r)) v r r refl s.1 in
        rw
          (
            visits-cons t (v, r) l,
            visit-new t a v first r e new,
            occurs-next o (a, k) (v, r) l s,
            new,
          )
          (omega (arith, ih))
  ]

  -- Every record is counted once, and the samples are as many as fit.
  visits-total :
      (l : List (Rec V)) (t : Tally V)
      → (visits t l).distinct_count + (visits t l).duplicate_count
        ≡ t.distinct_count + t.duplicate_count + length l
  unfolding visits visit visit_after first_seen seen_again
  visits-total [] t = omega arith
  visits-total (r ∷ l) t =
      omega (arith, visits-total l (visit o max_samples t r), visit-total t.previous t r)
    where
      visit-total :
          (p : Option (Rec V)) (t : Tally V) (r : Rec V)
          → (visit_after o max_samples p t r).distinct_count
              + (visit_after o max_samples p t r).duplicate_count
            ≡ t.distinct_count + t.duplicate_count + 1
      visit-total none t r = omega arith
      visit-total (some (a, f)) t (v, k) = ground arith

  visits-samples :
      (l : List (Rec V)) (t : Tally V)
      → length t.duplicate_samples ≡ min max_samples t.duplicate_count
      → length (visits t l).duplicate_samples ≡ min max_samples (visits t l).duplicate_count
  unfolding visits visit visit_after first_seen seen_again
  visits-samples [] t e = e
  visits-samples (r ∷ l) t e =
      visits-samples l (visit o max_samples t r) (visit-samples t.previous t r e)
    where
      visit-samples :
          (p : Option (Rec V)) (t : Tally V) (r : Rec V)
          → length t.duplicate_samples ≡ min max_samples t.duplicate_count
          → length (visit_after o max_samples p t r).duplicate_samples
            ≡ min max_samples (visit_after o max_samples p t r).duplicate_count
      visit-samples none t r e = e
      visit-samples (some (a, f)) t (v, k) e =
          ground (arith, length-append t.duplicate_samples ((f, k) ∷ []))

  visits-fresh :
      (l : List (Rec V))
      → IsSorted (rec_order o) l
      → (visits (fresh_tally V) l).distinct_count ≡ distinct_values o l
  unfolding visits visit visit_after first_seen
  visits-fresh [] s = refl
  visits-fresh ((v, r) ∷ l) s =
      omega
        (arith, visits-distinct l (first_seen o max_samples (fresh_tally V) (v, r)) v r r refl s)

  pub visits-exact :
      (rs : List (Rec V))
      → ((visits (fresh_tally V) (sort (rec_order o) rs)).distinct_count ≡ distinct_values o rs)
        × ((visits (fresh_tally V) (sort (rec_order o) rs)).distinct_count
              + (visits (fresh_tally V) (sort (rec_order o) rs)).duplicate_count
            ≡ length rs)
        × (length (visits (fresh_tally V) (sort (rec_order o) rs)).duplicate_samples
            ≡ min max_samples (visits (fresh_tally V) (sort (rec_order o) rs)).duplicate_count)
  visits-exact rs =
      let sorted : List (Rec V) = sort (rec_order o) rs in
      (
        visits-fresh sorted (sort-IsSorted (rec_order o) rs) ∙ distinct_values-sort o rs,
        omega (arith, visits-total sorted (fresh_tally V), length-sort (rec_order o) rs),
        visits-samples sorted (fresh_tally V) (omega arith),
      )

  pub scan-exact :
      (flag : ℕ → Bool) (rs : List (Rec V)) (t : Tally V)
      → scan o max_samples flag 0 (sort (rec_order o) rs) (fresh_tally V) ≡ ok t
      → (t.distinct_count ≡ distinct_values o rs)
        × (t.distinct_count + t.duplicate_count ≡ length rs)
        × (length t.duplicate_samples ≡ min max_samples t.duplicate_count)
  scan-exact flag rs t e =
      rw (scan-ok flag 0 (sort (rec_order o) rs) (fresh_tally V) t e) (visits-exact rs)

  -- the records of a segment, where there is one
  abbrev pub records_of : Option (List (Rec V)) → List (Rec V)
  records_of none = []
  records_of (some rs) = rs

  -- A summary that the state finishes with is exact: the distinct count is the number of different
  -- values among the records, in whatever order they were inserted, the duplicate count is the rest of
  -- the records, and as many samples are kept as there are duplicates, up to the maximum.
  pub finish_fixed_in_memory-exact :
      (flag : ℕ → Bool) (account : ResourceAccount) (h : Heap) (segment : Option (List (Rec V)))
      (s : ExactSummary)
      → finish_fixed_in_memory o max_samples flag account h segment ≡ ok s
      → (s.distinct_count ≡ distinct_values o (records_of segment))
        × (s.distinct_count + s.duplicate_count ≡ length (records_of segment))
        × (length s.duplicate_samples ≡ min max_samples s.duplicate_count)
  unfolding finish_fixed_in_memory summary_of
  finish_fixed_in_memory-exact flag account h none s e =
      let same : summary_of (fresh_tally V) (in_memory_metrics account h) ≡ s = cc in
      rw (sym same) (omega arith, omega arith, omega arith)
  finish_fixed_in_memory-exact flag account h (some rs) s e =
      let (t, scanned, is) =
        bind-ok (scan o max_samples flag 0 (sort (rec_order o) rs) (fresh_tally V)) _ s e in
      let same : summary_of t (in_memory_metrics account h) ≡ s = cc in
      rw (sym same) (scan-exact flag rs t scanned)
