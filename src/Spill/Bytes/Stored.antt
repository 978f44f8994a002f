-- ===== src/Spill/Bytes/Stored.antt =====
-- Creation, insertion and `seal` of a state of byte strings in distinct/mod.rs: what it holds after them.
use proofframe.Prelude.{
  ℕ, ◌*◌, ◌≡◌, refl, sym, ap, ◌∙◌, subst, Bool, true, false, List, [], ◌∷◌, ◌++◌, Option, none,
  length, append_assoc, append-nil, ltb,
}
use proofframe.Error.{Result, ok, err, bind-ok, ok-eq}
use proofframe.Resource.{ResourceAccount, Heap, u64_mod}
use proofframe.Sorting.Bytes.{bytes_order}
use proofframe.Distinct.{Rec}
use proofframe.Spill.State.{ExactState, Pass}
use proofframe.Spill.Ops.{compact_runs_if_needed}
use proofframe.Spill.Holds.{Holds, if-both}
use proofframe.Spill.Inserts.{compact_runs_if_needed-Holds}
use proofframe.Spill.Sealed.{compact_rounds-frame}
use proofframe.Spill.ByteSegment.{values, insert_bytes, grow_bytes, byte_store_is_full}
use proofframe.Spill.Bytes.{
  ByteState, ByteStep, bytes_layout, then_bytes, within, spill_current_bytes, keep_inserted,
  compact_bytes, make_room_bytes, insert_value, seal_bytes,
}
use proofframe.Spill.State.{record_size}
use proofframe.Resource.{try_reserve_memory}
use proofframe.Spill.Ops.{new_with_cancellation, is_missing}
use proofframe.Spill.Sealed.{IsSealed}
use proofframe.Spill.Refine.{Insertion, inserted, new-Holds}
use proofframe.Spill.Bytes.{new_bytes, sealed_step}
use proofframe.Spill.Bytes.Spilled.{
  IsStored, IsSpilled, sorted, then_bytes-to, spill_current_bytes-IsSpilled,
}
use proofframe.Spill.Bytes.Pushed.{
  grow_bytes-ok, keep_grown-IsStored, keep_inserted-IsStored, insert_bytes-Pushed,
}

new_with_cancellation_bare :
    (account : ResourceAccount) (directory : Option Bool) (hint : Option ℕ) (h : Heap)
    (s : ExactState (List ℕ))
    → (new_with_cancellation account directory hint h).0 ≡ ok s
    → s.segment ≡ none
unfolding new_with_cancellation
new_with_cancellation_bare account directory hint h s =
    let bytes = account.limits.max_samples * record_size in
    let Bare : Result (ExactState (List ℕ)) × Heap → Type 0 = λ m. m.0 ≡ ok s → s.segment ≡ none in
    if-both Bare (is_missing directory) (λ clash. cc)
      (if-both Bare (ltb bytes u64_mod)
        (λ e.
          let (reserved, granted, built) = bind-ok (try_reserve_memory account bytes h).0 _ s e in
          ap (λ (t : ExactState (List ℕ)). t.segment) (sym (ok-eq _ _ built)))
        (λ clash. cc))

pub new_bytes-IsStored :
    (account : ResourceAccount) (directory : Option Bool) (hint : Option ℕ) (h : Heap)
    (s : ByteState)
    → (new_bytes account directory hint h).0 ≡ ok s
    → IsStored account.limits.max_samples [] s
unfolding new_bytes
new_bytes-IsStored account directory hint h s e =
    let (rest, created, built) = bind-ok (new_with_cancellation account directory hint h).0 _ s e in
    subst (IsStored account.limits.max_samples []) (ok-eq _ _ built) (record {
      spilled = [];
      runs = new-Holds bytes_order (bytes_layout 0) account directory hint h rest created;
      bare = new_with_cancellation_bare account directory hint h rest created;
      reads = tt;
      same = refl;
    })

module _ (cursor_bytes : ℕ) where
  compact_bytes-IsStored :
      (m : ℕ) (rs : List (Rec (List ℕ))) (pass : Pass) (s : ByteState) (h : Heap)
      → IsStored m rs s
      → (compact_bytes cursor_bytes pass s h).0 ≡ ok tt
      → IsStored m rs (compact_bytes cursor_bytes pass s h).1
  unfolding compact_bytes within compact_runs_if_needed
  compact_bytes-IsStored m rs pass s h stored e =
      let frames =
        compact_rounds-frame bytes_order (bytes_layout cursor_bytes) (length s.rest.runs) pass 0
          s.rest h in
      record {
        spilled = stored.spilled;
        runs =
            compact_runs_if_needed-Holds bytes_order (bytes_layout cursor_bytes) m stored.spilled
              pass s.rest h stored.runs e;
        bare = ap (λ f. f.0) frames ∙ stored.bare;
        reads = stored.reads;
        same = stored.same;
      }

  compact_bytes_segment :
      (pass : Pass) (s : ByteState) (h : Heap)
      → (compact_bytes cursor_bytes pass s h).1.segment ≡ s.segment
  unfolding compact_bytes within
  compact_bytes_segment pass s h = refl

  make_room_bytes-IsStored :
      (m : ℕ) (rs : List (Rec (List ℕ))) (pass : Pass) (value : List ℕ) (s : ByteState) (h : Heap)
      → IsStored m rs s
      → (make_room_bytes cursor_bytes pass value s h).0 ≡ ok tt
      → IsStored m rs (make_room_bytes cursor_bytes pass value s h).1
  unfolding make_room_bytes
  make_room_bytes-IsStored m rs pass value s h stored =
      let Kept : ByteStep → Type 0 = λ step. step.0 ≡ ok tt → IsStored m rs step.1 in
      if-both Kept (byte_store_is_full s.segment value)
        (if-both Kept s.rest.directory
          (then_bytes-to (IsStored m rs) (IsStored m rs) (spill_current_bytes s h)
            (λ s' h'. compact_bytes cursor_bytes pass s' h')
            (λ e. (spill_current_bytes-IsSpilled m rs s h stored e).0)
            (λ s' h' stored'. compact_bytes-IsStored m rs pass s' h' stored'))
          (keep_grown-IsStored m rs s (grow_bytes s.segment (length value) s.rest.account h) stored
            (λ segment.
              grow_bytes-ok s.segment (length value) s.rest.account h segment stored.reads)))
        (λ _. stored)

  -- An insertion that ends without an error adds its record to what the state holds.
  pub insert_value-IsStored :
      (m : ℕ) (rs : List (Rec (List ℕ))) (first last : Pass) (value : List ℕ) (row : ℕ)
      (s : ByteState) (h : Heap)
      → IsStored m rs s
      → (insert_value cursor_bytes first last value row s h).0 ≡ ok tt
      → IsStored m (rs ++ (value, row) ∷ []) (insert_value cursor_bytes first last value row s h).1
  unfolding insert_value
  insert_value-IsStored m rs first last value row s h stored =
      let After : ByteState → Type 0 = IsStored m (rs ++ (value, row) ∷ []) in
      then_bytes-to (IsStored m rs) After (make_room_bytes cursor_bytes first value s h) _
        (make_room_bytes-IsStored m rs first value s h stored)
        (λ s1 h1 stored1.
          then_bytes-to After After
            (keep_inserted s1
              (insert_bytes s1.segment s1.desired_records value row s1.rest.account h1))
            (λ s2 h2. compact_bytes cursor_bytes last s2 h2)
            (keep_inserted-IsStored m rs (value, row) s1 _ stored1
              (λ segment.
                insert_bytes-Pushed s1.segment s1.desired_records value row s1.rest.account h1
                  segment stored1.reads))
            (λ s2 h2 stored2.
              compact_bytes-IsStored m (rs ++ (value, row) ∷ []) last s2 h2 stored2))

  -- A `seal` that ends without an error leaves every record in the runs.
  pub seal_bytes-IsSpilled :
      (m : ℕ) (rs : List (Rec (List ℕ))) (cancelled : Bool) (pass : Pass) (s : ByteState) (h : Heap)
      → IsStored m rs s
      → (seal_bytes cursor_bytes cancelled pass s h).0 ≡ ok tt
      → IsSpilled m rs (seal_bytes cursor_bytes cancelled pass s h).1
  unfolding seal_bytes
  seal_bytes-IsSpilled m rs true pass s h stored e = cc
  seal_bytes-IsSpilled m rs false pass s h stored e =
      then_bytes-to (IsSpilled m rs) (IsSpilled m rs) (spill_current_bytes s h)
        (λ s' h'. compact_bytes cursor_bytes pass s' h')
        (spill_current_bytes-IsSpilled m rs s h stored)
        (λ s' h' spilled e. (
          compact_bytes-IsStored m rs pass s' h' spilled.0 e,
          compact_bytes_segment pass s' h' ∙ spilled.1,
        ))
        e

  -- the calls of a scan, with `?` after each
  unfoldable pub insert_values : List (Insertion (List ℕ)) → ByteState → Heap → ByteStep
  unfolding insert_value then_bytes
  insert_values [] s h = (ok tt, s, h)
  insert_values (i ∷ is) s h =
      then_bytes (insert_value cursor_bytes i.first i.last i.value i.row s h)
        (λ s' h'. insert_values is s' h')

  pub insert_values-IsStored :
      (is : List (Insertion (List ℕ))) (m : ℕ) (rs : List (Rec (List ℕ))) (s : ByteState) (h : Heap)
      → IsStored m rs s
      → (insert_values is s h).0 ≡ ok tt
      → IsStored m (rs ++ inserted is) (insert_values is s h).1
  unfolding insert_values
  insert_values-IsStored [] m rs s h stored e = rw (append-nil rs) stored
  insert_values-IsStored (i ∷ is) m rs s h stored e =
      rw (← append_assoc rs ((i.value, i.row) ∷ []) (inserted is)) (
        then_bytes-to (IsStored m (rs ++ (i.value, i.row) ∷ []))
          (IsStored m ((rs ++ (i.value, i.row) ∷ []) ++ inserted is))
          (insert_value cursor_bytes i.first i.last i.value i.row s h)
          (λ s' h'. insert_values is s' h')
          (insert_value-IsStored m rs i.first i.last i.value i.row s h stored)
          (λ s' h' stored'. insert_values-IsStored is m (rs ++ (i.value, i.row) ∷ []) s' h' stored')
          e)

-- The runs of a state that was sealed hold all its records.
IsSealed-rest :
    (m : ℕ) (rs : List (Rec (List ℕ))) (s : ByteState)
    → IsSpilled m rs s
    → Holds bytes_order m rs s.rest × IsSealed s.rest.desired_capacity s.rest
IsSealed-rest m rs s (stored, none_left) = (
  record {
    sorted = stored.runs.sorted;
    limit = stored.runs.limit;
    same =
        stored.runs.same
        ∙ ap sorted (sym (append-nil stored.spilled))
        ∙ ap (λ g. sorted (stored.spilled ++ values g)) (sym none_left)
        ∙ stored.same;
  },
  ap (λ g. (g, s.rest.desired_capacity)) stored.bare,
)

pub sealed_step-Holds :
    (m : ℕ) (rs : List (Rec (List ℕ))) (step : ByteStep)
    → (step.0 ≡ ok tt → IsSpilled m rs step.1)
    → (sealed_step step).0 ≡ ok tt
    → Holds bytes_order m rs (sealed_step step).1
      × IsSealed (sealed_step step).1.desired_capacity (sealed_step step).1
unfolding sealed_step
sealed_step-Holds m rs (ok tt, s, h) spilled e = IsSealed-rest m rs s (spilled refl)
sealed_step-Holds m rs (err x, s, h) spilled e = cc
