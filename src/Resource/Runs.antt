-- ===== src/Resource/Runs.antt =====
-- Runs of the resource accounts on a root of 100 bytes with a child of 40, and what the theorems say there.
use proofframe.Prelude.{
  ℕ, ◌+◌, max, ◌≡◌, ◌↔◌, refl, true, false, List, [], ◌∷◌, some, arith, ◌==◌, if◌then◌else◌,
}
use proofframe.Error.{ok, err, resource_limit}
use proofframe.Resource.{
  memory, new_counters, Heap, used, peak, set_peak, Reservation, try_charge, charge, release,
  raise_peaks, commit, try_new, drop_reservation, default_limits, new_root, child, memory_used,
  current, last_or, nodes,
}
use proofframe.Resource.Atomic.{Distinct, FitsU64, blocked}
use proofframe.Resource.Reserve.{mem, outcome, node_after, try_new-atomic}
use proofframe.Resource.Release.{Room, try_new-granted_iff, drop-try_new}
use proofframe.Resource.Sharing.{System, charging, load, begin, move, Reach, here, next}
use proofframe.Resource.Sharing.Limits.{IsBalanced, Reach-IsBalanced}

abbrev heap : Heap
heap = record { next = 2; at = λ m. if m == 0 then new_counters 100 100 else new_counters 40 40 }

abbrev path : List ℕ
path = 0 ∷ 1 ∷ []

path-Distinct : Distinct path
path-Distinct = ((ground arith, tt), (tt, tt))

heap-FitsU64 : FitsU64 memory heap
heap-FitsU64 = record { used_fits = λ m. ground arith; cap_fits = λ m. ground arith }

-- 50 bytes: the root has room, the child has none.
too_much : (try_new memory 50 path heap).0 ≡ err (resource_limit "memory" 50 0 40)
unfolding try_new charge try_charge release commit raise_peaks
too_much = refl

abbrev thirty : Reservation
thirty = record { held = path; bytes = 30; kind = memory }

fits : (try_new memory 30 path heap).0 ≡ ok thirty
unfolding try_new charge try_charge release commit raise_peaks
fits = refl

-- accounts: a root, its child, and their usage
accounts :
    let (root, h) = new_root default_limits (record { next = 0; at = λ m. new_counters 0 0 }) in
    let (inner, h') = child root 40 40 h in (nodes inner ≡ path) × (memory_used inner h' ≡ 0)
unfolding new_root child memory_used current last_or
accounts = (refl, refl)

try_new-atomic_example :
    ((try_new memory 50 path heap).0 ≡ outcome memory 50 path heap (blocked memory 50 path heap))
    × ((m : ℕ)
        → (try_new memory 50 path heap).1.at m
          ≡ node_after memory 50 path heap (blocked memory 50 path heap) m)
try_new-atomic_example = try_new-atomic memory 50 path heap path-Distinct heap-FitsU64

try_new-granted_iff_example :
    ((r : Reservation) × ((try_new memory 30 path heap).0 ≡ ok r)) ↔ Room memory 30 heap path
try_new-granted_iff_example = try_new-granted_iff memory 30 path heap path-Distinct heap-FitsU64

drop-try_new_example : (drop_reservation thirty (try_new memory 30 path heap).1).at 1 ≡ (
    if mem 1 path
    then set_peak memory (max (peak memory (heap.at 1)) (used memory (heap.at 1) + 30)) (heap.at 1)
    else heap.at 1)
drop-try_new_example = drop-try_new memory 30 path heap thirty path-Distinct heap-FitsU64 fits 1

-- A thread takes the lock and loads the root's counter.
abbrev idle : System
idle = record { heap = heap; locked = false; tasks = [] }

abbrev loaded : System
loaded = record { heap = heap; locked = true; tasks = charging memory 30 [] path [] (some 0) ∷ [] }

idle-IsBalanced : IsBalanced idle
idle-IsBalanced = record {
  counted = λ k m. ground arith;
  within = λ k m. ground arith;
  caps_fit = λ k m. ground arith;
  alone = refl;
}

idle-loaded : Reach idle loaded
idle-loaded =
    next (next here (begin heap [] memory 30 path (omega arith)))
      (move [] [] (load heap true memory 30 [] 0 (1 ∷ []) []))

Reach-IsBalanced_example : IsBalanced loaded
Reach-IsBalanced_example = Reach-IsBalanced idle-IsBalanced idle-loaded
