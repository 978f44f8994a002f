-- ===== src/Validation/Memory.antt =====
-- What the memory account is charged for findings: `reserve_finding` and `record` of lib.rs.
use proofframe.Prelude.{
  ℕ, ◌+◌, ◌*◌, ◌≤◌, ◌<◌, ◌≡◌, refl, List, [], ◌∷◌, ◌++◌, Option, none, some, arith, length,
  length-append, ltb, ltb→lt, Bool-cases, inl, inr, String, ◌⊎◌, All, max,
}
use proofframe.Error.{Result, ok, err, ProofFrameError}
use proofframe.Resource.{u64_mod, Heap, ResourceAccount, Reservation, try_reserve_memory}
use proofframe.Resource.Reserve.{try_reserve_memory-bytes}
use proofframe.Validation.Findings.{start}
use proofframe.Validation.{
  Finding, ValidationState, prepare_evaluated, new, new_accounted, push, count_violations,
  keep_reservation, reserve_with, reserve_finding, push_if, record_finding, record_lazy, record_all,
  finding_bytes, finding_size, vector_growth,
}

pub bytes_held : List Reservation → ℕ
bytes_held [] = 0
bytes_held (r ∷ rs) = r.bytes + bytes_held rs

bytes_held-append :
    (rs : List Reservation) (r : Reservation) → bytes_held (rs ++ r ∷ []) ≡ bytes_held rs + r.bytes
unfolding bytes_held
bytes_held-append [] r = omega arith
bytes_held-append (q ∷ rs) r = omega (arith, bytes_held-append rs r)

module _ (string_capacity : String → ℕ) where
  -- the memory of the strings of some findings
  unfoldable pub string_bytes : List Finding → ℕ
  string_bytes [] = 0
  string_bytes (f ∷ fs) = string_capacity f.column + string_capacity f.message + string_bytes fs

  string_bytes-append :
      (fs : List Finding) (f : Finding)
      → string_bytes (fs ++ f ∷ [])
        ≡ string_bytes fs + (string_capacity f.column + string_capacity f.message)
  unfolding string_bytes
  string_bytes-append [] f = omega arith
  string_bytes-append (g ∷ fs) f = omega (arith, string_bytes-append fs f)

  -- The reservations hold the places of the vector, the unused ones too, and the strings.
  pub record IsCharged (m : ℕ) (v : ValidationState) : Type 0 where
    pub charged :
        bytes_held v.finding_reservations ≡ v.capacity * finding_size + string_bytes v.findings
    pub fits : length v.findings ≤ v.capacity
    pub places : (v.capacity ≡ 0) ⊎ (4 ≤ v.capacity)
    pub bounded : v.capacity ≤ max 4 (2 * m)
    pub limit : v.max_findings ≡ m
    pub accounted : (account : ResourceAccount) × (v.finding_memory ≡ some account)

  -- a finding whose memory is countable in 64 bits, whatever the vector grows by
  abbrev pub IsSmall : ℕ → Finding → Type 0
  IsSmall m f =
      max 4 (2 * m) * finding_size + string_capacity f.column + string_capacity f.message < u64_mod

  finding_bytes_lem :
      (m : ℕ) (f : Finding) (v : ValidationState)
      → IsCharged m v
      → IsSmall m f
      → length v.findings < m
      → finding_bytes string_capacity f v + v.capacity * finding_size
        ≡ (push f v).capacity * finding_size + string_capacity f.column + string_capacity f.message
  unfolding finding_bytes vector_growth push
  finding_bytes_lem m f v c small room = ground (arith, c.fits, c.places, c.bounded)

  -- the state after `push_if`, by the answer of the reservation
  push_if-IsCharged :
      (m : ℕ) (f : Finding) (v : ValidationState) (r : Result Reservation × Heap) (h : Heap)
      → IsCharged m v
      → IsSmall m f
      → length v.findings < m
      → ((q : Reservation) → r.0 ≡ ok q → q.bytes ≡ finding_bytes string_capacity f v)
      → IsCharged m (push_if f (keep_reservation r v)).0
  unfolding keep_reservation push_if
  push_if-IsCharged m f v (ok q, h') h c small room bytes = record {
    charged = omega (
      arith,
      bytes q refl,
      finding_bytes_lem m f v c small room,
      c.charged,
      bytes_held-append v.finding_reservations q,
      string_bytes-append v.findings f,
    );
    fits = ground (arith, c.fits, length-append v.findings (f ∷ []));
    places = ground (arith, c.places);
    bounded = ground (arith, c.fits, c.bounded, room);
    limit = c.limit;
    accounted = c.accounted;
  }
  push_if-IsCharged m f v (err e, h') h c small room bytes = record {
    charged = c.charged;
    fits = c.fits;
    places = c.places;
    bounded = c.bounded;
    limit = c.limit;
    accounted = c.accounted;
  }

  reserve_with-IsCharged :
      (m : ℕ) (f : Finding) (memory : Option ResourceAccount) (error : Option ProofFrameError)
      (v : ValidationState) (h : Heap)
      → IsCharged m v
      → IsSmall m f
      → length v.findings < m
      → v.finding_memory ≡ memory
      → IsCharged m (push_if f (reserve_with string_capacity memory error f v h)).0
  unfolding reserve_with push_if
  reserve_with-IsCharged m f none error v h c small room e = let (account, is) = c.accounted in cc
  reserve_with-IsCharged m f (some a) (some x) v h c small room e = c
  reserve_with-IsCharged m f (some a) none v h c small room e =
      push_if-IsCharged m f v (try_reserve_memory a (finding_bytes string_capacity f v) h) h c small
        room
        (λ q granted. try_reserve_memory-bytes a (finding_bytes string_capacity f v) h q granted)

  count-IsCharged :
      (m : ℕ) (v : ValidationState) → IsCharged m v → IsCharged m (count_violations 1 v)
  unfolding count_violations
  count-IsCharged m v c = record {
    charged = c.charged;
    fits = c.fits;
    places = c.places;
    bounded = c.bounded;
    limit = c.limit;
    accounted = c.accounted;
  }

  -- A violation, kept, dropped or refused memory, leaves the reservations holding exactly the memory of
  -- the findings: the places of their vector and their strings.
  pub record_lazy-IsCharged :
      (m : ℕ) (f : Finding) (v : ValidationState) (h : Heap)
      → IsCharged m v
      → IsSmall m f
      → IsCharged m (record_lazy string_capacity f v h).0
  unfolding record_lazy record_finding reserve_finding count_violations
  record_lazy-IsCharged m f v h c small =
      elim (Bool-cases (ltb (length v.findings) v.max_findings)) [
        | inl room ↦ rw room (
            reserve_with-IsCharged m f v.finding_memory v.resource_error (count_violations 1 v) h
              (count-IsCharged m v c) small
              (ground (arith, c.limit, ltb→lt (length v.findings) v.max_findings)) refl)
        | inr full ↦ rw full (count-IsCharged m v c)
      ]

  pub start-IsCharged :
      (m plans : ℕ) (account : ResourceAccount) → IsCharged m (start m plans account)
  unfolding prepare_evaluated new_accounted new bytes_held string_bytes
  start-IsCharged m plans account = record {
    charged = omega arith;
    fits = omega arith;
    places = inl refl;
    bounded = omega arith;
    limit = refl;
    accounted = (account, refl);
  }

  -- Any run of violations, also where the account refuses some of their memory, keeps the memory of a
  -- state charged: the bytes of its reservations are those of the places of its vector and of the
  -- strings of the findings that it keeps. Each finding of the run is small enough for the sizes to be
  -- computed in u64.
  pub record_all-IsCharged :
      (m : ℕ) (fs : List Finding) (v : ValidationState) (h : Heap)
      → IsCharged m v
      → All (IsSmall m) fs
      → IsCharged m (record_all string_capacity fs v h).0
  unfolding record_all
  record_all-IsCharged m [] v h c small = c
  record_all-IsCharged m (f ∷ fs) v h c small =
      let (v', h') = record_lazy string_capacity f v h in
      record_all-IsCharged m fs v' h' (record_lazy-IsCharged m f v h c small.0) small.1
