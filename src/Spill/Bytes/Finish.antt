-- ===== src/Spill/Bytes/Finish.antt =====
-- `finish` of a state of byte strings in distinct/mod.rs, against the records that were inserted.
use proofframe.Prelude.{ℕ, ◌≡◌, refl, sym, ap, ◌∙◌, Bool, List, [], ◌∷◌, ◌++◌, Option, none, some}
use proofframe.Error.{Result, ok}
use proofframe.Resource.{ResourceAccount, Heap}
use proofframe.Sorting.Bytes.{bytes_order}
use proofframe.Distinct.{Rec, ExactSummary, finish_fixed_in_memory}
use proofframe.Distinct.Heap.Pending.{concat}
use proofframe.Spill.State.{Run, records_of}
use proofframe.Spill.Finish.{Loads, finish_sealed}
use proofframe.Spill.Ops.{segment_records}
use proofframe.Spill.Holds.{content}
use proofframe.Spill.Refine.{
  Insertion, inserted, figures, figures_of, figures_of-sort, finish_none-figures,
  finish_some-figures, finish_sealed-figures,
}
use proofframe.Spill.ByteSegment.{ByteSegment, values}
use proofframe.Spill.Bytes.{ByteState, bytes_layout, seal_bytes, sealed_step, drop_bytes, new_bytes}
use proofframe.Spill.Bytes.Spilled.{IsStored, sorted, sorted-append}
use proofframe.Spill.Bytes.Stored.{
  new_bytes-IsStored, insert_values, insert_values-IsStored, seal_bytes-IsSpilled,
  sealed_step-Holds,
}

-- The function has the body of `finish_fixed_in_memory`, over the bytes that each index names.
unfoldable pub finish_bytes_in_memory :
    ℕ → (ℕ → Bool) → ResourceAccount → Heap → Option ByteSegment → Result ExactSummary
unfolding finish_fixed_in_memory
finish_bytes_in_memory max_samples flag account h none =
    finish_fixed_in_memory bytes_order max_samples flag account h none
finish_bytes_in_memory max_samples flag account h (some segment) =
    finish_fixed_in_memory bytes_order max_samples flag account h (some (values (some segment)))

finish_bytes_in_memory-figures :
    (max_samples : ℕ) (flag : ℕ → Bool) (account : ResourceAccount) (h : Heap)
    (segment : Option ByteSegment) (summary : ExactSummary)
    → finish_bytes_in_memory max_samples flag account h segment ≡ ok summary
    → figures summary ≡ figures_of bytes_order max_samples (values segment)
unfolding finish_bytes_in_memory
finish_bytes_in_memory-figures max_samples flag account h none =
    finish_none-figures bytes_order max_samples flag account h
finish_bytes_in_memory-figures max_samples flag account h (some segment) =
    finish_some-figures bytes_order max_samples flag account h (values (some segment))

module _ (cursor_bytes : ℕ) where
  unfoldable pub finish_bytes_by :
      List (Run (List ℕ)) → Loads → ByteState → Heap → Result ExactSummary × Heap
  unfolding finish_bytes_in_memory drop_bytes finish_sealed seal_bytes sealed_step
  finish_bytes_by [] loads s h = (
    finish_bytes_in_memory s.rest.account.limits.max_samples loads.at_merge s.rest.account h
        s.segment,
    drop_bytes s h,
  )
  finish_bytes_by (r ∷ rs) loads s h =
      finish_sealed bytes_order (bytes_layout cursor_bytes) loads
        (sealed_step (seal_bytes cursor_bytes loads.at_seal loads.pass s h))

  -- `finish`, which consumes the state
  unfoldable pub finish_bytes : Loads → ByteState → Heap → Result ExactSummary × Heap
  unfolding finish_bytes_by
  finish_bytes loads s h = finish_bytes_by s.rest.runs loads s h

  finish_bytes_by-figures :
      (runs : List (Run (List ℕ))) (loads : Loads) (s : ByteState) (h : Heap) (m : ℕ)
      (rs : List (Rec (List ℕ))) (summary : ExactSummary)
      → IsStored m rs s
      → s.rest.runs ≡ runs
      → (finish_bytes_by runs loads s h).0 ≡ ok summary
      → figures summary ≡ figures_of bytes_order m rs
  unfolding finish_bytes_by
  finish_bytes_by-figures [] loads s h m rs summary stored none_left e =
      let limit = s.rest.account.limits.max_samples in
      let nothing : content bytes_order s.rest ≡ [] =
        ap (λ r. concat bytes_order (records_of r) ++ segment_records s.rest.segment) none_left
        ∙ ap segment_records stored.bare in
      finish_bytes_in_memory-figures limit loads.at_merge s.rest.account h s.segment summary e
      ∙ figures_of-sort bytes_order limit (values s.segment) rs (
          sorted-append [] stored.spilled (values s.segment)
            (ap sorted (sym nothing) ∙ stored.runs.same)
          ∙ stored.same)
      ∙ ap (λ m. figures_of bytes_order m rs) stored.runs.limit
  finish_bytes_by-figures (r ∷ runs) loads s h m rs summary stored some_left e =
      let step = seal_bytes cursor_bytes loads.at_seal loads.pass s h in
      finish_sealed-figures bytes_order (bytes_layout cursor_bytes) loads (sealed_step step) m
        (sealed_step step).1.desired_capacity rs summary
        (sealed_step-Holds m rs step
          (seal_bytes-IsSpilled cursor_bytes m rs loads.at_seal loads.pass s h stored))
        e

  -- the counts and the samples of a state that was created, filled and finished
  pub finish_bytes-figures :
      (account : ResourceAccount) (directory : Option Bool) (hint : Option ℕ) (h : Heap)
      (s : ByteState) (is : List (Insertion (List ℕ))) (loads : Loads) (h1 h2 : Heap)
      (summary : ExactSummary)
      → (new_bytes account directory hint h).0 ≡ ok s
      → (insert_values cursor_bytes is s h1).0 ≡ ok tt
      → (finish_bytes loads (insert_values cursor_bytes is s h1).1 h2).0 ≡ ok summary
      → figures summary ≡ figures_of bytes_order account.limits.max_samples (inserted is)
  unfolding finish_bytes
  finish_bytes-figures account directory hint h s is loads h1 h2 summary created filled finished =
      let s' : ByteState = (insert_values cursor_bytes is s h1).1 in
      finish_bytes_by-figures s'.rest.runs loads s' h2 account.limits.max_samples (inserted is)
        summary
        (insert_values-IsStored cursor_bytes is account.limits.max_samples [] s h1
          (new_bytes-IsStored account directory hint h s created) filled)
        refl finished
