-- ===== src/Spill/Grant.antt =====
-- The loop of `allocate_fixed_segment` in distinct/mod.rs ends with a segment where one record fits.
use proofframe.Prelude.{
  ℕ, zero, suc, ◌+◌, ◌*◌, ◌/◌, ◌≤◌, ◌<◌, ◌≡◌, refl, max, arith, ltb, Option, none, some, Bool-cases,
  inl, inr, List, [], ◌∷◌, ltb→lt, lt→ltb,
}
use proofframe.Error.{Result, ok, err, resource_limit, error_code}
use proofframe.Resource.{
  u64_mod, ResourceAccount, Reservation, Heap, memory, name, used, cap, nodes, try_reserve_memory,
}
use proofframe.Resource.Atomic.{Distinct, FitsU64, blocked}
use proofframe.Resource.Reserve.{outcome, node_after, try_new-atomic}
use proofframe.Resource.Release.{Room, blocked-none}
use proofframe.Spill.State.{FixedSegment, record_size}
use proofframe.Spill.Segment.{
  size_overflowed, new_segment, reserve_records, or_halve, allocate, allocate_fixed_segment,
}

-- a segment of some capacity up to that
abbrev pub Granted : {V : Type 0} → ℕ → Result (FixedSegment V) × Heap → Type 0
Granted {V = V} most m =
    (segment : FixedSegment V) × ((m.0 ≡ ok segment)
      × ((0 < segment.capacity) × (segment.capacity ≤ most)))

-- Two heaps with the same counters, and what may be asked of either.
abbrev Same : Heap → Heap → Type 0
Same h h' = (m : ℕ) → h'.at m ≡ h.at m

FitsU64-Same : (h h' : Heap) → Same h h' → FitsU64 memory h → FitsU64 memory h'
FitsU64-Same h h' same fits = record {
  used_fits = λ m. rw (same m) (fits.used_fits m);
  cap_fits = λ m. rw (same m) (fits.cap_fits m);
}

Room-Same :
    (bytes : ℕ) (h h' : Heap) (ns : List ℕ)
    → Same h h'
    → Room memory bytes h ns
    → Room memory bytes h' ns
Room-Same bytes h h' [] same room = tt
Room-Same bytes h h' (n ∷ ns) same room = (rw (same n) room.0, Room-Same bytes h h' ns same room.1)

-- A reservation of records is granted, or refused by the budget with every counter as it was.
reserve_records-atomic :
    (capacity : ℕ) (account : ResourceAccount) (h : Heap)
    → Distinct (nodes account)
    → FitsU64 memory h
    → capacity * record_size < u64_mod
    → let bytes = capacity * record_size in
      let full = blocked memory bytes (nodes account) h in
      ((reserve_records capacity account h).0 ≡ outcome memory bytes (nodes account) h full)
      × ((m : ℕ)
          → (reserve_records capacity account h).1.at m
            ≡ node_after memory bytes (nodes account) h full m)
unfolding reserve_records try_reserve_memory
reserve_records-atomic capacity account h apart fits small =
    rw (lt→ltb (capacity * record_size) u64_mod small)
      (try_new-atomic memory (capacity * record_size) (nodes account) h apart fits)

blocked_one :
    (capacity : ℕ) (account : ResourceAccount) (h : Heap)
    → Room memory record_size h (nodes account)
    → capacity ≡ 1
    → blocked memory (capacity * record_size) (nodes account) h ≡ none
blocked_one capacity account h room one =
    rw one (blocked-none memory record_size h (nodes account) room)

module _ {V : Type 0} where
  Granted-weaken :
      (few most : ℕ) (m : Result (FixedSegment V) × Heap)
      → few ≤ most
      → Granted few m
      → Granted most m
  Granted-weaken few most m h (segment, (e, (positive, bounded))) =
      (segment, (e, (positive, omega (arith, h, bounded))))

  -- One round: the segment, or another round on the same counters where the capacity is above one.
  or_halve-Granted :
      (capacity most bytes : ℕ) (ns : List ℕ) (h : Heap) (full : Option ℕ)
      (m : Result Reservation × Heap) (retry : Heap → Result (FixedSegment V) × Heap)
      → 0 < capacity
      → capacity ≤ most
      → (m.0 ≡ outcome memory bytes ns h full)
      → ((i : ℕ) → m.1.at i ≡ node_after memory bytes ns h full i)
      → ((capacity ≡ 1) → full ≡ none)
      → ((h' : Heap) → 1 < capacity → Same h h' → Granted most (retry h'))
      → Granted most (or_halve capacity m retry)
  unfolding or_halve error_code
  or_halve-Granted capacity most bytes ns h none (ok r, h') retry positive few e after one again =
      (new_segment capacity r, (refl, (positive, few)))
  or_halve-Granted capacity most bytes ns h none (err x, h') retry positive few e after one again =
      cc
  or_halve-Granted capacity most bytes ns h (some n) (ok r, h') retry positive few e after one
        again =
      cc
  or_halve-Granted capacity most bytes ns h (some n) (err x, h') retry positive few e after one
        again =
      elim (Bool-cases (ltb 1 capacity)) [
        | inl many ↦
            let refused : x
                ≡ resource_limit (name memory) bytes (used memory (h.at n)) (cap memory (h.at n)) =
              cc in
            rw (many, refused) (again h' (ltb→lt 1 capacity many) after)
        | inr single ↦ let clash : some n ≡ none = one (ground arith) in cc
      ]

  allocate-Granted :
      (fuel capacity : ℕ) (account : ResourceAccount) (h : Heap)
      → Distinct (nodes account)
      → FitsU64 memory h
      → Room memory record_size h (nodes account)
      → 0 < capacity
      → capacity ≤ fuel + 1
      → capacity * record_size < u64_mod
      → Granted {V = V} capacity (allocate fuel capacity account h)
  unfolding allocate
  allocate-Granted zero capacity account h apart fits room positive enough small =
      let (e, after) = reserve_records-atomic capacity account h apart fits small in
      or_halve-Granted capacity capacity (capacity * record_size) (nodes account) h _
        (reserve_records capacity account h) (λ h'. (err size_overflowed, h')) positive
        (omega arith) e after (λ one. blocked_one capacity account h room one)
        (λ h' many same. let clash : suc capacity ≡ zero = omega (arith, enough, many) in cc)
  allocate-Granted (suc fuel) capacity account h apart fits room positive enough small =
      let (e, after) = reserve_records-atomic capacity account h apart fits small in
      let half : ℕ = max (capacity / 2) 1 in
      or_halve-Granted capacity capacity (capacity * record_size) (nodes account) h _
        (reserve_records capacity account h) (λ h'. allocate fuel half account h') positive
        (omega arith) e after (λ one. blocked_one capacity account h room one)
        (λ h' many same.
          Granted-weaken half capacity (allocate fuel half account h') (omega (arith, positive)) (
            allocate-Granted fuel half account h' apart (FitsU64-Same h h' same fits)
              (Room-Same record_size h h' (nodes account) same room) (omega arith)
              (omega (arith, enough, many)) (omega (arith, small, many))))

  -- The loop ends with a segment wherever the path of the account, of distinct nodes with counters and
  -- limits in u64, has room for one record: its capacity is not zero and at most what was asked for.
  pub allocate_fixed_segment-Granted :
      (capacity : ℕ) (account : ResourceAccount) (h : Heap)
      → Distinct (nodes account)
      → FitsU64 memory h
      → Room memory record_size h (nodes account)
      → 0 < capacity
      → capacity * record_size < u64_mod
      → Granted {V = V} capacity (allocate_fixed_segment capacity account h)
  unfolding allocate_fixed_segment
  allocate_fixed_segment-Granted capacity account h apart fits room positive =
      allocate-Granted capacity capacity account h apart fits room positive (omega arith)
