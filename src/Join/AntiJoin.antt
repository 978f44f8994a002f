-- ===== src/Join/AntiJoin.antt =====
-- `anti_join` of distinct/run.rs, and `anti_join_exact_states` of distinct/mod.rs.
use proofframe.Prelude.{
  ℕ, zero, suc, ◌+◌, ◌-◌, ◌*◌, min, ◌^◌, Bool, List, [], ◌∷◌, ◌++◌, Option, none, some, length, ltb,
  String, if◌then◌else◌,
}
use proofframe.Error.{Result, ok, err, ◌>>=◌, corrupt_data}
use proofframe.Resource.{
  u64_mod, ResourceAccount, Reservation, Heap, try_reserve_memory, drop_reservation, check,
}
use proofframe.Sorting.{Order}
use proofframe.Distinct.{Rec}
use proofframe.Distinct.Heap.{pending}
use proofframe.Distinct.Merge.{checked}
use proofframe.RunFile.{header_bytes}
use proofframe.Sorting.Bytes.{bytes_order}
use proofframe.Spill.Bytes.{ByteState, bytes_layout, seal_bytes, sealed_step}
use proofframe.Spill.State.{Layout, Run, ExactState, Pass, Step}
use proofframe.Spill.Compact.{reserve_merge, ended}
use proofframe.Spill.Finish.{drop_state}
use proofframe.Join.Side.{Side, advance, open_side, then_run}

-- The locals of the function; `loads` counts the loads of the cancellation flag.
pub record AntiJoin (V : Type 0) : Type 0 where
  pub left : Side V
  pub right : Side V
  pub missing : ℕ
  pub samples : List ℕ
  pub loads : ℕ

pub record AntiJoinSummary : Type 0 where
  pub left_distinct : ℕ
  pub right_distinct : ℕ
  pub missing : ℕ
  pub samples : List ℕ
  pub spill_bytes : ℕ
  pub runs : ℕ

-- what the loads of the flag see: in the two `verify_payload`, then one after the other
pub record JoinLoads : Type 0 where
  pub at_left : Bool
  pub at_right : Bool
  pub at : ℕ → Bool

abbrev pub add_sample {ℓ} : {A : Type ℓ} → ℕ → List A → A → List A
add_sample max_samples samples a =
    if ltb (length samples) max_samples then samples ++ a ∷ [] else samples

module _ {V : Type 0} (o : Order V) (max_samples : ℕ) (flag : ℕ → Bool) where
  -- the three branches of the loop
  unfoldable pub count_missing : Rec V → AntiJoin V → Option (Result (AntiJoin V))
  unfolding advance then_run
  count_missing r s = then_run (advance o (flag (s.loads + 1)) s.left) (λ left. some (
      ok (record {
        left = left;
        right = s.right;
        missing = s.missing + 1;
        samples = add_sample max_samples s.samples r.1;
        loads = s.loads + 2;
      })))

  unfoldable pub pass_right : AntiJoin V → Option (Result (AntiJoin V))
  unfolding advance then_run
  pass_right s =
      then_run (advance o (flag (s.loads + 1)) s.right)
        (λ right. some (ok (record s { right = right; loads = s.loads + 2 })))

  unfoldable pub match_both : AntiJoin V → Option (Result (AntiJoin V))
  unfolding advance then_run
  match_both s = then_run (advance o (flag (s.loads + 1)) s.left) (λ left.
      then_run (advance o (flag (s.loads + 2)) s.right)
        (λ right. some (ok (record s { left = left; right = right; loads = s.loads + 3 }))))

  -- the comparison of the left value with the right one, if there is one
  unfoldable pub anti_branch : Option (Rec V) → Rec V → AntiJoin V → Option (Result (AntiJoin V))
  unfolding count_missing pass_right match_both
  anti_branch none r s = count_missing r s
  anti_branch (some (right, _)) (value, row) s =
      if o.leq value right
      then (if o.leq right value then match_both s else count_missing (value, row) s)
      else pass_right s

  unfoldable pub anti_round : Rec V → AntiJoin V → Option (Result (AntiJoin V))
  unfolding anti_branch
  anti_round r s = checked (check (flag s.loads)) (anti_branch s.right.value r s)

  -- Each round leaves a value of one side behind.
  unfoldable pub anti_loop : ℕ → AntiJoin V → Option (Result (AntiJoin V))
  unfolding anti_round then_run
  anti_loop zero s = elim s.left.value [ none ↦ some (ok s) | some r ↦ none ]
  anti_loop (suc fuel) s = elim s.left.value [
    | none ↦ some (ok s)
    | some r ↦ then_run (anti_round r s) (λ s'. anti_loop fuel s')
  ]

  -- `while right_value.is_some()`
  unfoldable pub drain_right : ℕ → AntiJoin V → Option (Result (AntiJoin V))
  unfolding pass_right then_run
  drain_right zero s = elim s.right.value [ none ↦ some (ok s) | some r ↦ none ]
  drain_right (suc fuel) s = elim s.right.value [
    | none ↦ some (ok s)
    | some r ↦ then_run (checked (check (flag s.loads)) (pass_right s)) (λ s'. drain_right fuel s')
  ]

  -- both sides opened, to the end of the second loop
  unfoldable pub anti_run : List (Run V) → List (Run V) → Option (Result (AntiJoin V))
  unfolding open_side anti_loop drain_right
  anti_run left right =
      let l = open_side o left in
      let r = open_side o right in
      let fuel = length (pending l.heap) + length (pending r.heap) in
      then_run (advance o (flag 0) l) (λ l'. then_run (advance o (flag 1) r) (λ r'.
        then_run
          (anti_loop fuel (record { left = l'; right = r'; missing = 0; samples = []; loads = 2 }))
          (λ s. drain_right fuel s)))

abbrev pub summary_of_join : {V : Type 0} → AntiJoin V → AntiJoinSummary
summary_of_join s = record {
  left_distinct = s.left.distinct;
  right_distinct = s.right.distinct;
  missing = s.missing;
  samples = s.samples;
  spill_bytes = 0;
  runs = 0;
}

-- a scope that holds a reservation and drops it at its end
unfoldable pub holding :
    {A : Type 0} → Result Reservation × Heap → (Heap → Result A × Heap) → Result A × Heap
unfolding drop_reservation
holding (ok r, h) body = let (result, h') = body h in (result, drop_reservation r h')
holding (err e, h) body = (err e, h)

-- the reservation for samples of a size
unfoldable pub reserve_samples : String → ℕ → ℕ → ResourceAccount → Heap → Result Reservation × Heap
unfolding try_reserve_memory
reserve_samples overflow size max_samples account h =
    if ltb (max_samples * size) u64_mod
    then try_reserve_memory account (max_samples * size) h
    else (err (corrupt_data overflow), h)

module _ {V : Type 0} (o : Order V) (layout : Layout V) where
  -- the checks and the reservation of `UniqueMerge::new`
  unfoldable pub open_merge :
      Bool → ResourceAccount → List (Run V) → Heap → Result Reservation × Heap
  unfolding reserve_merge
  open_merge verified account runs h = elim (check verified) [
    | ok _ ↦ reserve_merge o layout account runs h
    | err e ↦ (err e, h)
  ]

  unfoldable pub anti_join :
      JoinLoads
      → ℕ
      → List (Run V)
      → List (Run V)
      → ResourceAccount
      → ResourceAccount
      → Heap
      → Result AntiJoinSummary × Heap
  unfolding open_merge holding reserve_samples anti_run
  anti_join loads max_samples left right left_account right_account h =
      holding (open_merge loads.at_left left_account left h) (λ h1.
        holding (open_merge loads.at_right right_account right h1) (λ h2.
          holding (reserve_samples "Reference sample size overflowed" 8 max_samples left_account h2)
            (λ h3. (
              ended (anti_run o max_samples loads.at left right) >>= (λ s. ok (summary_of_join s)),
              h3,
            ))))

  -- `saturating_add` over the runs
  abbrev pub saturating_bytes : ℕ → List (Run V) → ℕ
  saturating_bytes total [] = total
  saturating_bytes total (r ∷ rs) =
      saturating_bytes (min (total + (header_bytes + r.payload_bytes)) (2 ^ 64 - 1)) rs

  abbrev pub spill_shape : ExactState V → AntiJoinSummary → AntiJoinSummary
  spill_shape s summary = record summary {
    spill_bytes = saturating_bytes 0 s.runs;
    runs = length s.runs;
  }

  unfoldable pub anti_join_sealed :
      JoinLoads
      → ℕ
      → List (Run V)
      → ResourceAccount
      → Step V (Unit {0})
      → Result AntiJoinSummary × Heap
  unfolding anti_join drop_state
  anti_join_sealed loads max_samples right right_account (ok _, s, h) =
      let (joined, h') = anti_join loads max_samples s.runs right s.account right_account h in
      (joined >>= (λ summary. ok (spill_shape s summary)), drop_state s h')
  anti_join_sealed loads max_samples right right_account (err e, s, h) = (err e, drop_state s h)

module _ (cursor_bytes : ℕ) where
  -- The states of reference checks hold byte strings. Of a `SealedState` there are its runs and its account,
  -- which stay for other joins.
  unfoldable pub anti_join_exact_states :
      Bool
      → Pass
      → JoinLoads
      → ℕ
      → ByteState
      → List (Run (List ℕ))
      → ResourceAccount
      → Heap
      → Result AntiJoinSummary × Heap
  unfolding anti_join_sealed seal_bytes sealed_step
  anti_join_exact_states cancelled pass loads max_samples left right right_account h =
      anti_join_sealed bytes_order (bytes_layout cursor_bytes) loads max_samples right right_account
        (sealed_step (seal_bytes cursor_bytes cancelled pass left h))
