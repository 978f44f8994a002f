-- ===== src/Resource/Sharing.antt =====
-- Threads that share the counters of execution/resource.rs, one atomic operation at a time. A
-- reservation holds the lock of the root node; a drop takes none, so its subtractions fall anywhere
-- between the loads, exchanges, rollbacks and peaks of a reservation. A node that a thread creates
-- later stands in the heap from the start, with no usage.
pub mod Balance
pub mod Limits
use proofframe.Prelude.{
  ℕ, ◌+◌, ◌≤◌, ◌<◌, max, ◌≡◌, ◌⊎◌, Bool, true, false, List, [], ◌∷◌, ◌++◌, Option, none, some,
}
use proofframe.Resource.{
  u64_mod, sub_u64, ResourceKind, Heap, used, cap, peak, set_used, set_peak, update,
}

-- Where a thread stands in `try_new` or in `Drop`.
pub data Task : Type 0 where
  -- kind, bytes, nodes charged, nodes to charge, usages committed, the value last loaded
  charging : ResourceKind → ℕ → List ℕ → List ℕ → List ℕ → Option ℕ → Task
  -- kind, bytes, nodes to give back after a refusal
  rolling_back : ResourceKind → ℕ → List ℕ → Task
  -- kind, bytes, the path, nodes and usages whose peaks are to be raised
  raising : ResourceKind → ℕ → List ℕ → List ℕ → List ℕ → Task
  -- a live reservation: kind, bytes, the path
  holding : ResourceKind → ℕ → List ℕ → Task
  -- kind, bytes, nodes to give back
  dropping : ResourceKind → ℕ → List ℕ → Task

-- One atomic operation of one thread: heap, lock and task before, and after it (`none`: it ended).
pub data Move : Heap → Bool → Task → Heap → Bool → Option Task → Type 0 where
  -- `used.load`
  load :
      (h : Heap) (l : Bool) (k : ResourceKind) (b : ℕ) (done : List ℕ) (n : ℕ) (todo us : List ℕ)
      → Move h l
          (charging k b done (n ∷ todo) us none)
          h
          l
          (some (charging k b done (n ∷ todo) us (some (used k (h.at n)))))
  -- `compare_exchange_weak` succeeds, at a value that it checked
  exchange :
      (h : Heap) (l : Bool) (k : ResourceKind) (b : ℕ) (done : List ℕ) (n : ℕ) (todo us : List ℕ)
      (v : ℕ)
      → v ≡ used k (h.at n)
      → v + b < u64_mod
      → v + b ≤ cap k (h.at n)
      → Move h l
          (charging k b done (n ∷ todo) us (some v))
          (update n (set_used k (v + b) (h.at n)) h)
          l
          (some (charging k b (done ++ n ∷ []) todo (us ++ (v + b) ∷ []) none))
  -- it fails, spuriously or since another thread was first, and reports what it observed
  retry :
      (h : Heap) (l : Bool) (k : ResourceKind) (b : ℕ) (done : List ℕ) (n : ℕ) (todo us : List ℕ)
      (v : ℕ)
      → v + b < u64_mod
      → v + b ≤ cap k (h.at n)
      → Move h l
          (charging k b done (n ∷ todo) us (some v))
          h
          l
          (some (charging k b done (n ∷ todo) us (some (used k (h.at n)))))
  -- the observed value leaves no room
  refuse :
      (h : Heap) (l : Bool) (k : ResourceKind) (b : ℕ) (done : List ℕ) (n : ℕ) (todo us : List ℕ)
      (v : ℕ)
      → (u64_mod ≤ v + b) ⊎ (cap k (h.at n) < v + b)
      → Move h l (charging k b done (n ∷ todo) us (some v)) h l (some (rolling_back k b done))
  roll_back :
      (h : Heap) (l : Bool) (k : ResourceKind) (b n : ℕ) (ns : List ℕ)
      → Move h l
          (rolling_back k b (n ∷ ns))
          (update n (set_used k (sub_u64 (used k (h.at n)) b) (h.at n)) h)
          l
          (some (rolling_back k b ns))
  -- the error is returned, and the lock with it
  give_up : (h : Heap) (k : ResourceKind) (b : ℕ) → Move h true (rolling_back k b []) h false none
  all_charged :
      (h : Heap) (l : Bool) (k : ResourceKind) (b : ℕ) (done us : List ℕ) (seen : Option ℕ)
      → Move h l (charging k b done [] us seen) h l (some (raising k b done done us))
  raise :
      (h : Heap) (l : Bool) (k : ResourceKind) (b : ℕ) (path : List ℕ) (n : ℕ) (ns : List ℕ) (u : ℕ)
      (us : List ℕ)
      → Move h l
          (raising k b path (n ∷ ns) (u ∷ us))
          (update n (set_peak k (max (peak k (h.at n)) u) (h.at n)) h)
          l
          (some (raising k b path ns us))
  -- the reservation is returned, and the lock given back
  granted :
      (h : Heap) (k : ResourceKind) (b : ℕ) (path us : List ℕ)
      → Move h true (raising k b path [] us) h false (some (holding k b path))
  start_drop :
      (h : Heap) (l : Bool) (k : ResourceKind) (b : ℕ) (path : List ℕ)
      → Move h l (holding k b path) h l (some (dropping k b path))
  drop_node :
      (h : Heap) (l : Bool) (k : ResourceKind) (b n : ℕ) (ns : List ℕ)
      → Move h l
          (dropping k b (n ∷ ns))
          (update n (set_used k (sub_u64 (used k (h.at n)) b) (h.at n)) h)
          l
          (some (dropping k b ns))
  dropped : (h : Heap) (l : Bool) (k : ResourceKind) (b : ℕ) → Move h l (dropping k b []) h l none

pub record System : Type 0 where
  pub heap : Heap
  pub locked : Bool
  pub tasks : List Task

abbrev pub opt_task : Option Task → List Task
opt_task none = []
opt_task (some t) = t ∷ []

pub data Step : System → System → Type 0 where
  -- A thread takes the lock, to reserve bytes along a path.
  begin :
      (h : Heap) (ts : List Task) (k : ResourceKind) (b : ℕ) (path : List ℕ)
      → b < u64_mod
      → Step
          (record { heap = h; locked = false; tasks = ts })
          (record { heap = h; locked = true; tasks = charging k b [] path [] none ∷ ts })
  -- Some thread makes its next move.
  move :
      (pre post : List Task) {h h' : Heap} {l l' : Bool} {t : Task} {o : Option Task}
      → Move h l t h' l' o
      → Step
          (record { heap = h; locked = l; tasks = pre ++ t ∷ post })
          (record { heap = h'; locked = l'; tasks = pre ++ (opt_task o ++ post) })

pub data Reach (s : System) : System → Type 0 where
  here : Reach s s
  next : {t u : System} → Reach s t → Step t u → Reach s u
