-- ===== src/Spill/Bytes/Spilled.antt =====
-- What a state of byte strings in distinct/mod.rs holds, and that `spill_bytes` loses nothing of it.
use proofframe.Prelude.{
  ℕ, ◌+◌, ◌≡◌, refl, sym, ap, ◌∙◌, List, [], ◌∷◌, ◌++◌, Option, none, some, append-nil, ltb,
}
use proofframe.Error.{Result, ok, err, bind-ok, ok-eq}
use proofframe.Resource.{ResourceAccount, Reservation, Heap, u64_mod, try_reserve_temp}
use proofframe.Sorting.{sort}
use proofframe.Sorting.Laws.{sort-append_comm, sort-append_cong}
use proofframe.Sorting.Bytes.{bytes_order}
use proofframe.Distinct.{Rec, rec_order}
use proofframe.Distinct.Heap.Pending.{concat}
use proofframe.RunFile.{header_bytes, byte_total}
use proofframe.Spill.State.{Run, ExactState, FixedSegment, records_of}
use proofframe.Spill.Compact.{spill_target}
use proofframe.Spill.Ops.{segment_records, keep_run}
use proofframe.Spill.Holds.{Holds, if-both}
use proofframe.Spill.Keeps.{keep_run-Holds}
use proofframe.Spill.ByteSegment.{ByteSegment, values}
use proofframe.Spill.Bytes.{
  ByteState, ByteStep, write_sized_run, write_byte_run, then_bytes, within, spill_values,
  spill_bytes, spill_current_bytes, held_bytes,
}
use proofframe.Spill.Bytes.Arena.{IsReadable}

abbrev pub sorted : List (Rec (List ℕ)) → List (Rec (List ℕ))
sorted = sort (rec_order bytes_order)

-- The state holds these records, in any order: its runs hold those that were spilled, and its arena the rest.
pub record IsStored (m : ℕ) (rs : List (Rec (List ℕ))) (s : ByteState) : Type 0 where
  pub spilled : List (Rec (List ℕ))
  pub runs : Holds bytes_order m spilled s.rest
  pub bare : s.rest.segment ≡ none
  pub reads : IsReadable s.segment
  pub same : sorted (spilled ++ values s.segment) ≡ sorted rs

pub sorted-append :
    (xs ys zs : List (Rec (List ℕ))) → sorted xs ≡ sorted ys → sorted (xs ++ zs) ≡ sorted (ys ++ zs)
sorted-append xs ys zs same =
    sort-append_comm (rec_order bytes_order) xs zs
    ∙ sort-append_cong (rec_order bytes_order) zs xs ys same
    ∙ sort-append_comm (rec_order bytes_order) zs ys

-- The rest of a sequence starts from what the first step brings about.
pub then_bytes-to :
    (P Q : ByteState → Type 0) (m : ByteStep) (rest : ByteState → Heap → ByteStep)
    → (m.0 ≡ ok tt → P m.1)
    → ((s : ByteState) (h : Heap) → P s → (rest s h).0 ≡ ok tt → Q (rest s h).1)
    → (then_bytes m rest).0 ≡ ok tt
    → Q (then_bytes m rest).1
unfolding then_bytes
then_bytes-to P Q (ok tt, s, h) rest first later e = later s h (first refl) e
then_bytes-to P Q (err x, s, h) rest first later e = cc

-- the records of the runs of a state without a segment
bare_records :
    (m : ℕ) (spilled : List (Rec (List ℕ))) (s : ExactState (List ℕ))
    → Holds bytes_order m spilled s
    → s.segment ≡ none
    → sorted (concat bytes_order (records_of s.runs)) ≡ sorted spilled
bare_records m spilled s holds bare =
    ap sorted (sym (append-nil (concat bytes_order (records_of s.runs))))
    ∙ ap (λ g. sorted (concat bytes_order (records_of s.runs) ++ segment_records g)) (sym bare)
    ∙ holds.same

write_sized_run-ok :
    (records : List (Rec (List ℕ))) (total : Result ℕ) (account : ResourceAccount) (h : Heap)
    (run : Run (List ℕ))
    → (write_sized_run records total account h).0 ≡ ok run
    → run.records ≡ records
unfolding write_sized_run
write_sized_run-ok records (err x) account h run e = cc
write_sized_run-ok records (ok total) account h run e =
    if-both (λ (m : Result (Run (List ℕ)) × Heap). m.0 ≡ ok run → run.records ≡ records)
      (ltb (header_bytes + total) u64_mod)
      (λ e.
        let (temp, granted, built) =
          bind-ok (try_reserve_temp account (header_bytes + total) h).0 _ run e in
        ap (λ (r : Run (List ℕ)). r.records) (sym (ok-eq _ _ built)))
      (λ clash. cc) e

-- a segment whose records these are, for the lemmas on segments of any kind
abbrev shown : List (Rec (List ℕ)) → FixedSegment (List ℕ)
shown rs = record { records = rs; capacity = 0; memory = [] }

keep_run-IsStored :
    (m : ℕ) (rs vs : List (Rec (List ℕ))) (s : ByteState) (memory : List Reservation)
    (written : Result (Run (List ℕ)) × Heap)
    → (stored : IsStored m rs s) → values s.segment ≡ vs
    → ((run : Run (List ℕ)) → written.0 ≡ ok run → run.records ≡ sorted vs)
    → (within (record s { segment = none }) (keep_run s.rest memory written)).0 ≡ ok tt
    → IsStored m rs (within (record s { segment = none }) (keep_run s.rest memory written)).1
unfolding within keep_run
keep_run-IsStored m rs vs s memory (err x, h) stored are sound e = cc
keep_run-IsStored m rs vs s memory (ok run, h) stored are sound e = record {
  spilled = stored.spilled ++ vs;
  runs =
      keep_run-Holds bytes_order m (stored.spilled ++ vs)
        (record (s.rest) { segment = some (shown vs) }) memory (ok run, h)
        (record {
          sorted = stored.runs.sorted;
          limit = stored.runs.limit;
          same =
              sorted-append (concat bytes_order (records_of s.rest.runs)) stored.spilled vs
                (bare_records m stored.spilled s.rest stored.runs stored.bare);
        })
        sound refl;
  bare = refl;
  reads = tt;
  same =
      ap sorted (append-nil (stored.spilled ++ vs))
      ∙ ap (λ v. sorted (stored.spilled ++ v)) (sym are)
      ∙ stored.same;
}

spill_values-IsStored :
    (m : ℕ) (rs vs : List (Rec (List ℕ))) (s : ByteState) (memory : List Reservation) (h : Heap)
    → IsStored m rs s
    → values s.segment ≡ vs
    → (spill_values s vs memory h).0 ≡ ok tt
    → IsStored m rs (spill_values s vs memory h).1
unfolding spill_values write_byte_run
spill_values-IsStored m rs [] s memory h stored are e = record {
  spilled = stored.spilled;
  runs = stored.runs;
  bare = stored.bare;
  reads = tt;
  same = ap (λ v. sorted (stored.spilled ++ v)) (sym are) ∙ stored.same;
}
spill_values-IsStored m rs (v ∷ vs) s memory h stored are e =
    let records = sorted (v ∷ vs) in
    keep_run-IsStored m rs (v ∷ vs) s memory (write_byte_run records s.rest.account h) stored are
      (λ run written.
        write_sized_run-ok records (byte_total 0 records) s.rest.account h run written)
      e

spill_values-none :
    (s : ByteState) (vs : List (Rec (List ℕ))) (memory : List Reservation) (h : Heap)
    → (spill_values s vs memory h).1.segment ≡ none
unfolding spill_values
spill_values-none s [] memory h = refl
spill_values-none s (v ∷ vs) memory h = refl

-- A spill leaves no segment.
abbrev pub IsSpilled : ℕ → List (Rec (List ℕ)) → ByteState → Type 0
IsSpilled m rs s = IsStored m rs s × (s.segment ≡ none)

spill_bytes-IsSpilled :
    (m : ℕ) (rs : List (Rec (List ℕ))) (s : ByteState) (segment : Option ByteSegment) (h : Heap)
    → IsStored m rs s
    → s.segment ≡ segment
    → (spill_bytes s segment h).0 ≡ ok tt
    → IsSpilled m rs (spill_bytes s segment h).1
unfolding spill_bytes
spill_bytes-IsSpilled m rs s none h stored same e = (stored, same)
spill_bytes-IsSpilled m rs s (some segment) h stored same e = (
  spill_values-IsStored m rs (values (some segment)) s segment.memory h stored (ap values same) e,
  spill_values-none s (values (some segment)) segment.memory h,
)

pub spill_current_bytes-IsSpilled :
    (m : ℕ) (rs : List (Rec (List ℕ))) (s : ByteState) (h : Heap)
    → IsStored m rs s
    → (spill_current_bytes s h).0 ≡ ok tt
    → IsSpilled m rs (spill_current_bytes s h).1
unfolding spill_current_bytes
spill_current_bytes-IsSpilled m rs s h stored =
    elim (spill_target s.rest.directory s.rest.account (held_bytes s.segment))
      as (λ t. (spilled_by t).0 ≡ ok tt → IsSpilled m rs (spilled_by t).1) [
        | ok _ ↦ λ e. spill_bytes-IsSpilled m rs s s.segment h stored refl e
        | err x ↦ λ clash. cc
      ]
  where
    spilled_by : Result (Unit {0}) → ByteStep
    spilled_by t = elim t [ ok _ ↦ spill_bytes s s.segment h | err e ↦ (err e, s, h) ]
