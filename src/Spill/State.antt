-- ===== src/Spill/State.antt =====
-- The state of distinct/mod.rs, generic in the value `T` of `FixedStore<T>`. A run stands for its file,
-- as the list of the records in it, which RunFile reads back.
use proofframe.Prelude.{ℕ, ◌*◌, Bool, List, [], ◌∷◌, Option, length}
use proofframe.Error.{Result, ok, err}
use proofframe.Resource.{ResourceAccount, Reservation, Heap, drop_reservation}
use proofframe.Distinct.{Rec}

-- `size_of::<FixedRecord<T>>()` and `size_of::<DuplicateSample>()`
abbrev pub record_size : ℕ
record_size = 16

abbrev pub max_merge_fan_in : ℕ
max_merge_fan_in = 32

pub record FixedSegment (V : Type 0) : Type 0 where
  pub records : List (Rec V)
  pub capacity : ℕ
  pub memory : List Reservation

-- `RunMeta`, with the records that the file holds
pub record Run (V : Type 0) : Type 0 where
  pub records : List (Rec V)
  pub payload_bytes : ℕ
  pub max_record_bytes : ℕ
  pub temp : Reservation

-- `directory` says whether there is one to spill into.
pub record ExactState (V : Type 0) : Type 0 where
  pub segment : Option (FixedSegment V)
  pub desired_capacity : ℕ
  pub runs : List (Run V)
  pub account : ResourceAccount
  pub directory : Bool
  pub compactions : ℕ
  pub max_fan_in : ℕ
  pub sample_memory : Reservation

abbrev pub run_records : {V : Type 0} → Run V → List (Rec V)
run_records r = r.records

abbrev pub records_of : {V : Type 0} → List (Run V) → List (List (Rec V))
records_of [] = []
records_of (r ∷ rs) = r.records ∷ records_of rs

-- The sizes that the runs of one kind of values have: of a cursor with its buffer and its entry of the heap,
-- and of the payload of some records.
pub record Layout (V : Type 0) : Type 0 where
  pub cursor_bytes : ℕ
  pub payload : List (Rec V) → ℕ

-- runs of records with a fixed width
abbrev pub fixed_layout : {V : Type 0} → ℕ → Layout V
fixed_layout cursor_bytes = record {
  cursor_bytes = cursor_bytes;
  payload = λ records. length records * record_size;
}

-- what an operation answers: its result, the state that it leaves, and the accounts
abbrev pub Step : Type 0 → Type 0 → Type 0
Step V A = Result A × ExactState V × Heap

-- `?` after a call that changes the state
unfoldable pub proceed :
    {V A B : Type 0} → Step V A → (A → ExactState V → Heap → Step V B) → Step V B
proceed (ok a, s, h) rest = rest a s h
proceed (err e, s, h) rest = (err e, s, h)

-- `?` on a check in front of the rest
unfoldable pub guarded :
    {V A : Type 0} → Result (Unit {0}) → ExactState V → Heap → Step V A → Step V A
guarded (ok _) s h rest = rest
guarded (err e) s h rest = (err e, s, h)

-- the drops of several reservations, one after the other
unfoldable pub drop_all : List Reservation → Heap → Heap
unfolding drop_reservation
drop_all [] h = h
drop_all (r ∷ rs) h = drop_all rs (drop_reservation r h)

abbrev pub temps : {V : Type 0} → List (Run V) → List Reservation
temps [] = []
temps (r ∷ rs) = r.temp ∷ temps rs

-- What the loads of the cancellation flag see during one `compact_runs_if_needed`: in each round the
-- check of the loop, any check while its runs are verified, and the checks of the merge.
pub record Pass : Type 0 where
  pub at_round : ℕ → Bool
  pub at_verify : ℕ → Bool
  pub at_merge : ℕ → ℕ → Bool
