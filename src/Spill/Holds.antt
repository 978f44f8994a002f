-- ===== src/Spill/Holds.antt =====
-- What a state of distinct/mod.rs holds: the records of its runs and of its segment.
use proofframe.Prelude.{
  ℕ, ◌≡◌, refl, sym, ap, ◌∙◌, true, false, List, [], ◌∷◌, ◌++◌, append_assoc, Bool, if◌then◌else◌,
}
use proofframe.Error.{Result, ok, err}
use proofframe.Resource.{Heap}
use proofframe.Sorting.{Order, sort}
use proofframe.Distinct.{Rec, rec_order}
use proofframe.Distinct.Heap.Pending.{concat, AllSorted}
use proofframe.Spill.State.{Run, ExactState, Step, records_of, proceed, guarded}
use proofframe.Spill.Ops.{segment_records}

pub records_of-append :
    {V : Type 0} (xs ys : List (Run V)) → records_of (xs ++ ys) ≡ records_of xs ++ records_of ys
records_of-append [] ys = refl
records_of-append (x ∷ xs) ys = ap (λ r. x.records ∷ r) (records_of-append xs ys)

module _ {V : Type 0} (o : Order V) where
  abbrev pub content : ExactState V → List (Rec V)
  content s = concat o (records_of s.runs) ++ segment_records s.segment

  -- The state holds these records, in any order, its runs are sorted, and it keeps m samples at most.
  pub record Holds (m : ℕ) (rs : List (Rec V)) (s : ExactState V) : Type 0 where
    pub sorted : AllSorted o (records_of s.runs)
    pub limit : s.account.limits.max_samples ≡ m
    pub same : sort (rec_order o) (content s) ≡ sort (rec_order o) rs

  pub concat-append :
      (xs ys : List (List (Rec V))) → concat o (xs ++ ys) ≡ concat o xs ++ concat o ys
  concat-append [] ys = refl
  concat-append (x ∷ xs) ys =
      ap (λ r. x ++ r) (concat-append xs ys) ∙ sym (append_assoc x (concat o xs) (concat o ys))

  pub AllSorted-append :
      (xs ys : List (List (Rec V))) → AllSorted o xs → AllSorted o ys → AllSorted o (xs ++ ys)
  AllSorted-append [] ys hx hy = hy
  AllSorted-append (x ∷ xs) ys hx hy = (hx.0, AllSorted-append xs ys hx.1 hy)

  pub AllSorted-split :
      (xs ys : List (List (Rec V))) → AllSorted o (xs ++ ys) → AllSorted o xs × AllSorted o ys
  AllSorted-split [] ys h = (tt, h)
  AllSorted-split (x ∷ xs) ys h = let (hx, hy) = AllSorted-split xs ys h.1 in ((h.0, hx), hy)

pub if-both :
    {A : Type 0} (P : A → Type 0) (b : Bool) {x y : A} → P x → P y → P (if b then x else y)
if-both P true px py = px
if-both P false px py = py

pub if-cases :
    {A : Type 0} (P : A → Type 0) (b : Bool) {x y : A}
    → (b ≡ true → P x)
    → (b ≡ false → P y)
    → P (if b then x else y)
if-cases P true px py = px refl
if-cases P false px py = py refl

-- The rest of a sequence starts from what the first step brings about.
pub proceed-to :
    {V A : Type 0} (P Q : ExactState V → Type 0) (m : Step V (Unit {0}))
    (rest : Unit {0} → ExactState V → Heap → Step V A) {a : A}
    → ((m.0 ≡ ok tt) → P m.1)
    → ((s : ExactState V) (h : Heap) → P s → (rest tt s h).0 ≡ ok a → Q (rest tt s h).1)
    → (proceed m rest).0 ≡ ok a
    → Q (proceed m rest).1
unfolding proceed
proceed-to P Q (ok tt, s, h) rest first later e = later s h (first refl) e
proceed-to P Q (err x, s, h) rest first later e = cc

-- A property that the first step brings about and the rest keeps holds after both.
pub proceed-keeps :
    {V A : Type 0} (P : ExactState V → Type 0) (m : Step V (Unit {0}))
    (rest : Unit {0} → ExactState V → Heap → Step V A) (a : A)
    → ((m.0 ≡ ok tt) → P m.1)
    → ((s : ExactState V) (h : Heap) → P s → (rest tt s h).0 ≡ ok a → P (rest tt s h).1)
    → (proceed m rest).0 ≡ ok a
    → P (proceed m rest).1
proceed-keeps P m rest a first later e = proceed-to P P m rest first later e

pub guarded-keeps :
    {V A : Type 0} (P : ExactState V → Type 0) (c : Result (Unit {0})) (s : ExactState V) (h : Heap)
    (rest : Step V A) (a : A)
    → (rest.0 ≡ ok a → P rest.1)
    → (guarded c s h rest).0 ≡ ok a
    → P (guarded c s h rest).1
unfolding guarded
guarded-keeps P (ok _) s h rest a keeps e = keeps e
guarded-keeps P (err x) s h rest a keeps e = cc
