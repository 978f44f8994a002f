-- ===== src/Distinct/Scan.antt =====
-- The scan of sorted records: `finish_fixed_in_memory` of distinct/mod.rs, and the body that it shares
-- with the loop of `merge` in distinct/run.rs.
use proofframe.Prelude.{
  ℕ, ◌+◌, ◌%◌, Bool, false, List, [], ◌∷◌, ◌++◌, Option, none, some, ltb, ◌==◌, if◌then◌else◌,
  length,
}
use proofframe.Error.{Result, ok, ◌>>=◌, ◌>>◌}
use proofframe.Resource.{check, ResourceAccount, Heap, peak_memory_used, peak_temp_used}
use proofframe.Sorting.{Order, sort}
use proofframe.Sorting.Pairs.{nat_order, then_order}

-- `FixedRecord`: a value and its row
abbrev pub Rec : Type 0 → Type 0
Rec V = V × ℕ

module _ {V : Type 0} (o : Order V) where
  abbrev pub rec_order : Order (Rec V)
  rec_order = then_order o nat_order

  -- the derived `==`, which agrees with `cmp`
  abbrev pub same : V → V → Bool
  same a b = if o.leq a b then o.leq b a else false

-- The counts of a scan so far; a sample is (first_row, duplicate_row).
pub record Tally (V : Type 0) : Type 0 where
  pub distinct_count : ℕ
  pub duplicate_count : ℕ
  pub duplicate_samples : List (ℕ × ℕ)
  pub previous : Option (Rec V)

abbrev pub fresh_tally : (V : Type 0) → Tally V
fresh_tally V = record {
  distinct_count = 0;
  duplicate_count = 0;
  duplicate_samples = [];
  previous = none;
}

-- `index & 0x0fff == 0`, then `cancellation.check()?`; `flag i` is what that load sees.
abbrev pub check_at : (ℕ → Bool) → ℕ → Result (Unit {0})
check_at flag i = if i % 4096 == 0 then check (flag i) else ok tt

module _ {V : Type 0} (o : Order V) (max_samples : ℕ) where
  unfoldable pub first_seen : Tally V → Rec V → Tally V
  first_seen t r = record t { distinct_count = t.distinct_count + 1; previous = some r }

  unfoldable pub seen_again : Tally V → ℕ → ℕ → Tally V
  seen_again t first_row row = record t {
    duplicate_count = t.duplicate_count + 1;
    duplicate_samples =
        if ltb (length t.duplicate_samples) max_samples
        then t.duplicate_samples ++ (first_row, row) ∷ []
        else t.duplicate_samples;
  }

  unfoldable pub visit_after : Option (Rec V) → Tally V → Rec V → Tally V
  unfolding first_seen seen_again
  visit_after none t r = first_seen t r
  visit_after (some (value, first_row)) t (v, row) =
      if same o value v then seen_again t first_row row else first_seen t (v, row)

  unfoldable pub visit : Tally V → Rec V → Tally V
  unfolding visit_after
  visit t r = visit_after t.previous t r

  unfoldable pub scan : (ℕ → Bool) → ℕ → List (Rec V) → Tally V → Result (Tally V)
  unfolding visit
  scan flag i [] t = ok t
  scan flag i (r ∷ rs) t = check_at flag i >> scan flag (i + 1) rs (visit t r)

pub record ExactMetrics : Type 0 where
  pub runs : ℕ
  pub spill_bytes : ℕ
  pub compactions : ℕ
  pub max_merge_fan_in : ℕ
  pub peak_memory_bytes : ℕ
  pub peak_temp_bytes : ℕ

pub record ExactSummary : Type 0 where
  pub distinct_count : ℕ
  pub duplicate_count : ℕ
  pub duplicate_samples : List (ℕ × ℕ)
  pub metrics : ExactMetrics

-- the metrics of a state that never spilled
unfoldable pub in_memory_metrics : ResourceAccount → Heap → ExactMetrics
unfolding peak_memory_used peak_temp_used
in_memory_metrics account h = record {
  runs = 0;
  spill_bytes = 0;
  compactions = 0;
  max_merge_fan_in = 0;
  peak_memory_bytes = peak_memory_used account h;
  peak_temp_bytes = peak_temp_used account h;
}

unfoldable pub summary_of : {V : Type 0} → Tally V → ExactMetrics → ExactSummary
summary_of t metrics = record {
  distinct_count = t.distinct_count;
  duplicate_count = t.duplicate_count;
  duplicate_samples = t.duplicate_samples;
  metrics = metrics;
}

-- `finish_fixed_in_memory`; without a segment, `empty_summary`.
unfoldable pub finish_fixed_in_memory :
    {V : Type 0}
    → Order V
    → ℕ
    → (ℕ → Bool)
    → ResourceAccount
    → Heap
    → Option (List (Rec V))
    → Result ExactSummary
unfolding scan summary_of in_memory_metrics
finish_fixed_in_memory {V} o max_samples flag account h none =
    ok (summary_of (fresh_tally V) (in_memory_metrics account h))
finish_fixed_in_memory {V} o max_samples flag account h (some records) =
    scan o max_samples flag 0 (sort (rec_order o) records) (fresh_tally V) >>= λ t.
    ok (summary_of t (in_memory_metrics account h))
