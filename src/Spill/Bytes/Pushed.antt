-- ===== src/Spill/Bytes/Pushed.antt =====
-- `insert_bytes` and `grow_bytes` of distinct/mod.rs keep the values of the arena.
use proofframe.Prelude.{
  ℕ, zero, suc, ◌+◌, ◌/◌, max, ◌≡◌, refl, sym, ap, ◌∙◌, subst, List, [], ◌∷◌, ◌++◌, Option, none,
  some, length, append_assoc, ltb, ◌&&◌, ◌||◌,
}
use proofframe.Error.{Result, ok, err, bind-ok, ok-eq, error_code}
use proofframe.Resource.{ResourceAccount, Reservation, Heap}
use proofframe.Distinct.{Rec}
use proofframe.Spill.Segment.{is_limit}
use proofframe.Spill.Holds.{if-both}
use proofframe.Spill.ByteSegment.{
  ByteSegment, values, push_value, reserve_bytes, or_halve_bytes, allocate_bytes,
  allocate_byte_segment, first_bytes, store_bytes, insert_bytes, grow_bytes, extra_records,
  extra_bytes, enlarged, u32_max,
}
use proofframe.Spill.Bytes.{ByteState, keep_grown, keep_inserted}
use proofframe.Spill.Bytes.Arena.{IsReadable, values-push_value, push_value-IsReadable}
use proofframe.Spill.Bytes.Spilled.{IsStored, sorted, sorted-append}

pub grow_bytes-ok :
    (segment : Option ByteSegment) (size : ℕ) (account : ResourceAccount) (h : Heap)
    (grown : Option ByteSegment)
    → IsReadable segment
    → (grow_bytes segment size account h).0 ≡ ok grown
    → IsReadable grown × (values grown ≡ values segment)
unfolding grow_bytes
grow_bytes-ok none size account h grown reads e =
    subst (λ g. IsReadable g × (values g ≡ [])) (ok-eq _ _ e) (tt, refl)
grow_bytes-ok (some segment) size account h grown reads e =
    let records = extra_records segment in
    let bytes = extra_bytes segment size in
    let Good : Result (Option ByteSegment) × Heap → Type 0 =
      λ m. m.0 ≡ ok grown → IsReadable grown × (values grown ≡ values (some segment)) in
    if-both Good (ltb u32_max (segment.byte_capacity + bytes)) (λ clash. cc)
      (λ e.
        let (memory, granted, built) =
          bind-ok (reserve_bytes records bytes account h).0
            (λ memory. ok (some (enlarged segment records bytes memory))) grown e in
        subst (λ g. IsReadable g × (values g ≡ values (some segment))) (ok-eq _ _ built)
          (reads, refl))
      e

pub keep_grown-IsStored :
    (m : ℕ) (rs : List (Rec (List ℕ))) (s : ByteState) (grown : Result (Option ByteSegment) × Heap)
    → IsStored m rs s
    → ((segment : Option ByteSegment)
        → grown.0 ≡ ok segment
        → IsReadable segment × (values segment ≡ values s.segment))
    → (keep_grown s grown).0 ≡ ok tt
    → IsStored m rs (keep_grown s grown).1
unfolding keep_grown
keep_grown-IsStored m rs s (err x, h) stored sound e = cc
keep_grown-IsStored m rs s (ok segment, h) stored sound e =
    let (reads, are) = sound segment refl in
    record {
      spilled = stored.spilled;
      runs = stored.runs;
      bare = stored.bare;
      reads = reads;
      same = ap (λ v. sorted (stored.spilled ++ v)) are ∙ stored.same;
    }

pub keep_inserted-IsStored :
    (m : ℕ) (rs : List (Rec (List ℕ))) (r : Rec (List ℕ)) (s : ByteState)
    (inserted : Result ByteSegment × Heap)
    → IsStored m rs s
    → ((segment : ByteSegment)
        → inserted.0 ≡ ok segment
        → IsReadable (some segment) × (values (some segment) ≡ values s.segment ++ r ∷ []))
    → (keep_inserted s inserted).0 ≡ ok tt
    → IsStored m (rs ++ r ∷ []) (keep_inserted s inserted).1
unfolding keep_inserted
keep_inserted-IsStored m rs r s (err x, h) stored sound e = cc
keep_inserted-IsStored m rs r s (ok segment, h) stored sound e =
    let (reads, are) = sound segment refl in
    record {
      spilled = stored.spilled;
      runs = stored.runs;
      bare = stored.bare;
      reads = reads;
      same =
          ap (λ v. sorted (stored.spilled ++ v)) are
          ∙ ap sorted (sym (append_assoc stored.spilled (values s.segment) (r ∷ [])))
          ∙ sorted-append (stored.spilled ++ values s.segment) rs (r ∷ []) stored.same;
    }

-- a segment that was just allocated
abbrev IsFresh : ByteSegment → Type 0
IsFresh segment = IsReadable (some segment) × (values (some segment) ≡ [])

or_halve_bytes-IsFresh :
    (minimum records bytes : ℕ) (m : Result Reservation × Heap)
    (retry : Heap → Result ByteSegment × Heap) (segment : ByteSegment)
    → ((h : Heap) → (retry h).0 ≡ ok segment → IsFresh segment)
    → (or_halve_bytes minimum records bytes m retry).0 ≡ ok segment
    → IsFresh segment
unfolding or_halve_bytes
or_halve_bytes-IsFresh minimum records bytes (ok memory, h) retry segment later e =
    subst IsFresh (ok-eq _ _ e) (tt, refl)
or_halve_bytes-IsFresh minimum records bytes (err x, h) retry segment later e =
    if-both (λ (m : Result ByteSegment × Heap). m.0 ≡ ok segment → IsFresh segment)
      (is_limit (error_code x) && (ltb 1 records || ltb minimum bytes)) (later h) (λ clash. cc) e

allocate_bytes-IsFresh :
    (fuel minimum records bytes : ℕ) (account : ResourceAccount) (h : Heap) (segment : ByteSegment)
    → (allocate_bytes fuel minimum records bytes account h).0 ≡ ok segment
    → IsFresh segment
unfolding allocate_bytes
allocate_bytes-IsFresh zero minimum records bytes account h segment e =
    or_halve_bytes-IsFresh minimum records bytes (reserve_bytes records bytes account h) _ segment
      (λ h' clash. cc) e
allocate_bytes-IsFresh (suc fuel) minimum records bytes account h segment e =
    or_halve_bytes-IsFresh minimum records bytes (reserve_bytes records bytes account h) _ segment
      (λ h'.
        allocate_bytes-IsFresh fuel minimum (max (records / 2) 1) (max (bytes / 2) minimum) account
          h' segment)
      e

-- a value that is stored stands behind the others
abbrev pub Pushed : Option ByteSegment → Rec (List ℕ) → ByteSegment → Type 0
Pushed stored r segment =
    IsReadable (some segment) × (values (some segment) ≡ values stored ++ r ∷ [])

push_value-Pushed :
    (value : List ℕ) (row : ℕ) (old segment : ByteSegment)
    → IsReadable (some old)
    → ok (push_value value row old) ≡ Result.ok segment
    → Pushed (some old) (value, row) segment
push_value-Pushed value row old segment reads e =
    subst (Pushed (some old) (value, row)) (ok-eq _ _ e)
      (push_value-IsReadable value row old reads, values-push_value value row old reads)

store_bytes-Pushed :
    (stored : Option ByteSegment) (desired : ℕ) (value : List ℕ) (row : ℕ)
    (account : ResourceAccount) (h : Heap) (segment : ByteSegment)
    → IsReadable stored
    → (store_bytes stored desired value row account h).0 ≡ ok segment
    → Pushed stored (value, row) segment
unfolding store_bytes allocate_byte_segment
store_bytes-Pushed (some old) desired value row account h segment reads e =
    push_value-Pushed value row old segment reads e
store_bytes-Pushed none desired value row account h segment reads e =
    let bytes = first_bytes desired (length value) in
    let (fresh, allocated, built) =
      bind-ok (allocate_bytes (desired + bytes) (length value) desired bytes account h).0
        (λ segment. ok (push_value value row segment)) segment e in
    let (reads, empty) =
      allocate_bytes-IsFresh (desired + bytes) (length value) desired bytes account h fresh
        allocated in
    let (reads', are) = push_value-Pushed value row fresh segment reads built in
    (reads', are ∙ ap (λ v. v ++ (value, row) ∷ []) empty)

pub insert_bytes-Pushed :
    (stored : Option ByteSegment) (desired : ℕ) (value : List ℕ) (row : ℕ)
    (account : ResourceAccount) (h : Heap) (segment : ByteSegment)
    → IsReadable stored
    → (insert_bytes stored desired value row account h).0 ≡ ok segment
    → Pushed stored (value, row) segment
unfolding insert_bytes
insert_bytes-Pushed stored desired value row account h segment reads e =
    if-both
      (λ (m : Result ByteSegment × Heap). m.0 ≡ ok segment → Pushed stored (value, row) segment)
      (ltb u32_max (length value)) (λ clash. cc)
      (store_bytes-Pushed stored desired value row account h segment reads) e
