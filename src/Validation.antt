-- ===== src/Validation.antt =====
-- The findings of a validation: `Finding` and `ValidationState` of lib.rs, and `record_lazy` of
-- execution/mod.rs. Each finding that is kept is charged to the memory account first.
pub mod Findings
pub mod Memory
pub mod Events
mod Runs
use proofframe.Prelude.{
  ℕ, zero, suc, ◌+◌, ◌-◌, ◌*◌, ◌%◌, max, min, List, [], ◌∷◌, ◌++◌, Bool, true, false, Option, none,
  some, String, ltb, ◌==◌, if◌then◌else◌, length, get_elem?, set,
}
use proofframe.Error.{ProofFrameError, Result, ok, err}
use proofframe.Resource.{u64_mod, Heap, ResourceAccount, Reservation, try_reserve_memory}

abbrev pub saturating_add : ℕ → ℕ → ℕ
saturating_add a b = min (a + b) (u64_mod - 1)

abbrev pub saturating_mul : ℕ → ℕ → ℕ
saturating_mul a b = min (a * b) (u64_mod - 1)

pub record Finding : Type 0 where
  pub rule : String
  pub column : String
  pub row : Option ℕ
  pub message : String

-- `size_of::<Finding>()` on a 64-bit target
abbrev pub finding_size : ℕ
finding_size = 80

-- `capacity` is that of the vector of the findings.
pub record ValidationState : Type 0 where
  pub findings : List Finding
  pub capacity : ℕ
  pub violation_count : ℕ
  pub evaluated : List ℕ
  pub max_findings : ℕ
  pub finding_memory : Option ResourceAccount
  pub finding_reservations : List Reservation
  pub resource_error : Option ProofFrameError

unfoldable pub new : ℕ → ValidationState
new max_findings = record {
  findings = [];
  capacity = 0;
  violation_count = 0;
  evaluated = [];
  max_findings = max_findings;
  finding_memory = none;
  finding_reservations = [];
  resource_error = none;
}

unfoldable pub new_accounted : ℕ → ResourceAccount → ValidationState
unfolding new
new_accounted max_findings account = record (new max_findings) { finding_memory = some account }

-- `Vec::push`, which doubles a full vector, to four places at least
unfoldable pub push : Finding → ValidationState → ValidationState
push f v = record v {
  findings = v.findings ++ f ∷ [];
  capacity = if length v.findings == v.capacity then max 4 (v.capacity * 2) else v.capacity;
}

-- `self.violation_count += 1`
unfoldable pub count_violations : ℕ → ValidationState → ValidationState
count_violations n v = record v { violation_count = (v.violation_count + n) % u64_mod }

unfoldable pub vector_growth : ValidationState → ℕ
vector_growth v =
    if length v.findings == v.capacity
    then saturating_mul ((if v.capacity == 0 then 4 else saturating_mul v.capacity 2) - v.capacity)
        finding_size
    else 0

-- the end of `reserve_finding`: what the account answered
unfoldable pub keep_reservation :
    Result Reservation × Heap → ValidationState → Bool × ValidationState × Heap
keep_reservation (ok r, h) v =
    (true, record v { finding_reservations = v.finding_reservations ++ r ∷ [] }, h)
keep_reservation (err e, h) v = (false, record v { resource_error = some e }, h)

unfoldable pub push_if : Finding → Bool × ValidationState × Heap → ValidationState × Heap
unfolding push
push_if f (true, v, h) = (push f v, h)
push_if f (false, v, h) = (v, h)

-- `String::capacity` of a string as the code built it
module _ (string_capacity : String → ℕ) where
  unfoldable pub finding_bytes : Finding → ValidationState → ℕ
  unfolding vector_growth
  finding_bytes f v =
      saturating_add (saturating_add (vector_growth v) (string_capacity f.column))
        (string_capacity f.message)

  unfoldable pub reserve_with :
      Option ResourceAccount
      → Option ProofFrameError
      → Finding
      → ValidationState
      → Heap
      → Bool × ValidationState × Heap
  unfolding finding_bytes keep_reservation
  reserve_with none _ f v h = (true, v, h)
  reserve_with (some account) (some _) f v h = (false, v, h)
  reserve_with (some account) none f v h =
      keep_reservation (try_reserve_memory account (finding_bytes f v) h) v

  unfoldable pub reserve_finding : Finding → ValidationState → Heap → Bool × ValidationState × Heap
  unfolding reserve_with
  reserve_finding f v = reserve_with v.finding_memory v.resource_error f v

  -- `record`, a keyword here
  unfoldable pub record_finding : Finding → ValidationState → Heap → ValidationState × Heap
  unfolding count_violations reserve_finding push_if
  record_finding f v h =
      if ltb (length v.findings) v.max_findings
      then push_if f (reserve_finding f (count_violations 1 v) h)
      else (count_violations 1 v, h)

  -- `message` is built only where the finding is kept.
  unfoldable pub record_lazy : Finding → ValidationState → Heap → ValidationState × Heap
  unfolding record_finding count_violations
  record_lazy f v h =
      if ltb (length v.findings) v.max_findings
      then record_finding f v h
      else (count_violations 1 v, h)

  -- the calls of a run, one after another
  unfoldable pub record_all : List Finding → ValidationState → Heap → ValidationState × Heap
  unfolding record_lazy
  record_all [] v h = (v, h)
  record_all (f ∷ fs) v h = let (v', h') = record_lazy f v h in record_all fs v' h'

unfoldable pub replicate_zero : ℕ → List ℕ
replicate_zero zero = []
replicate_zero (suc n) = 0 ∷ replicate_zero n

unfoldable pub prepare_evaluated : ℕ → ValidationState → ValidationState
unfolding replicate_zero
prepare_evaluated plans v = record v { evaluated = replicate_zero plans }

unfoldable pub record_evaluated : ℕ → ℕ → ValidationState → ValidationState
record_evaluated plan_index values v = elim (get_elem? v.evaluated plan_index) [
  | none ↦ v
  | some total ↦ record v { evaluated = set v.evaluated plan_index (saturating_add total values) }
]

-- `take` leaves no error behind
unfoldable pub check_resources : ValidationState → Result (Unit {0}) × ValidationState
check_resources v = elim v.resource_error [
  | some e ↦ (err e, record v { resource_error = none })
  | none ↦ (ok tt, v)
]

pub record ValidationOutcome : Type 0 where
  pub findings : List Finding
  pub violation_count : ℕ
  pub truncated : Bool
  pub evaluated : List ℕ

unfoldable pub finish : ValidationState → ValidationOutcome
finish v = record {
  findings = v.findings;
  violation_count = v.violation_count;
  truncated = ltb (length v.findings) v.violation_count;
  evaluated = v.evaluated;
}
