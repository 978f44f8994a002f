-- ===== src/Validation/Runs.antt =====
-- A run of two violations, of which one finding may be kept, and what the theorems say there.
use proofframe.Prelude.{ℕ, ◌≡◌, refl, List, [], ◌∷◌, some, String, arith, All}
use proofframe.Error.{ok}
use proofframe.Resource.{
  Heap, ResourceAccount, default_limits, new_counters, try_reserve_memory, try_new, charge,
  try_charge, release, commit, raise_peaks,
}
use proofframe.Validation.{
  Finding, new, new_accounted, prepare_evaluated, record_all, check_resources, finish,
}
use proofframe.Validation.Findings.{start, summary, finish-record_all}
use proofframe.Validation.Memory.{IsCharged, IsSmall, start-IsCharged, record_all-IsCharged}

abbrev capacity : String → ℕ
capacity s = 8

abbrev account : ResourceAccount
account = record { root = 0; below = []; limits = default_limits }

abbrev heap : Heap
heap = record { next = 1; at = λ m. new_counters 1000 1000 }

abbrev missing : Finding
missing = record { rule = "not_null"; column = "id"; row = some 3; message = "Null value detected" }

abbrev low : Finding
low = record { rule = "min"; column = "age"; row = some 5; message = "Value below minimum" }

abbrev found : List Finding
found = missing ∷ low ∷ []

quiet : (check_resources (record_all capacity found (start 1 2 account) heap).0).0 ≡ ok tt
unfolding check_resources record_all prepare_evaluated new_accounted new try_reserve_memory try_new
    charge try_charge release commit raise_peaks
quiet = refl

finish-record_all_example :
    finish (record_all capacity found (start 1 2 account) heap).0 ≡ summary 1 2 found
finish-record_all_example = finish-record_all capacity 1 2 account found heap (omega arith) quiet

found-IsSmall : All (IsSmall capacity 1) found
found-IsSmall = (omega arith, (omega arith, tt))

record_all-IsCharged_example :
    IsCharged capacity 1 (record_all capacity found (start 1 2 account) heap).0
record_all-IsCharged_example =
    record_all-IsCharged capacity 1 found (start 1 2 account) heap
      (start-IsCharged capacity 1 2 account) found-IsSmall
