-- ===== src/Distinct/Heap.antt =====
-- The merge heap of distinct/run.rs. Each run has one entry in it at most, so an entry carries the
-- records that its run's cursor has left (the code finds them by `entry.run`).
pub mod Pending
use proofframe.Prelude.{ℕ, ◌+◌, suc, List, [], ◌∷◌, ◌++◌, if◌then◌else◌, ◌≡◌, true, length}
use proofframe.Sorting.{Order, Below, IsSorted}
use proofframe.Sorting.Pairs.{nat_order, then_order}
use proofframe.Distinct.Scan.{Rec, rec_order}

-- `MergeEntry`: record and run, with the rest of the run
pub record Entry (V : Type 0) : Type 0 where
  pub key : Rec V × ℕ
  pub rest : List (Rec V)

-- all that the heap and its cursors still hold
abbrev pub pending : {V : Type 0} → List (Entry V) → List (Rec V)
pending [] = []
pending (e ∷ es) = e.key.0 ∷ e.rest ++ pending es

module _ {V : Type 0} (o : Order V) where
  -- `Ord for MergeEntry`: value, then row, then run
  abbrev pub entry_order : Order (Rec V × ℕ)
  entry_order = then_order (rec_order o) nat_order

  -- `BinaryHeap<Reverse<_>>` pops its least entry; here the entries stand in that order.
  unfoldable pub push : Entry V → List (Entry V) → List (Entry V)
  push e [] = e ∷ []
  push e (f ∷ fs) = if (entry_order.leq e.key f.key) then e ∷ f ∷ fs else f ∷ push e fs

  -- `cursors[run].next()`, pushed if there is one
  unfoldable pub refill : ℕ → List (Rec V) → List (Entry V) → List (Entry V)
  unfolding push
  refill run [] heap = heap
  refill run (r ∷ rs) heap = push (record { key = (r, run); rest = rs }) heap

  unfoldable pub open_heap : ℕ → List (List (Rec V)) → List (Entry V) → List (Entry V)
  unfolding refill
  open_heap run [] heap = heap
  open_heap run (rs ∷ runs) heap = open_heap (suc run) runs (refill run rs heap)

  abbrev pub Before : Rec V × ℕ → List (Entry V) → Type 0
  Before k [] = Unit
  Before k (f ∷ fs) = (entry_order.leq k f.key ≡ true) × Before k fs

  -- every run sorted, and the entries in heap order
  abbrev pub IsHeap : List (Entry V) → Type 0
  IsHeap [] = Unit
  IsHeap (e ∷ es) = IsSorted (rec_order o) (e.key.0 ∷ e.rest) × Before e.key es × IsHeap es
