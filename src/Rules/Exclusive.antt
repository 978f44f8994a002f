-- ===== src/Rules/Exclusive.antt =====
-- The rule `mutually_exclusive`, in execution/exclusive.rs: presence as bitmap algebra.
pub mod Counts
use proofframe.Prelude.{
  ℕ, Option-cases, inl, inr, zero, suc, ◌+◌, ◌≤◌, ◌<◌, min, ◌≡◌, refl, sym, ap, ◌∙◌, Bool, true,
  false, not, ◌&&◌, ◌||◌, List, [], ◌∷◌, Option, none, some, String, arith, length, ltb, leb, ◌==◌,
  if◌then◌else◌, All, map,
}

-- A bitmap as its bits; beyond the end there is none.
abbrev pub bit : List Bool → ℕ → Bool
bit [] i = false
bit (b ∷ bs) zero = b
bit (b ∷ bs) (suc i) = bit bs i

abbrev pub zip_bits : (Bool → Bool → Bool) → List Bool → List Bool → List Bool
zip_bits f (a ∷ xs) (b ∷ bs) = f a b ∷ zip_bits f xs bs
zip_bits f _ _ = []

-- `BooleanBuffer::new_set` and `new_unset`
abbrev pub filled_with : Bool → ℕ → List Bool
filled_with b zero = []
filled_with b (suc n) = b ∷ filled_with b n

-- A column has no bitmap where it has no nulls.
pub record RecordBatch : Type 0 where
  pub num_rows : ℕ
  pub nulls : ℕ → Option (List Bool)

pub data ExclusiveMode : Type 0 where
  at_most_one exactly_one : ExclusiveMode

pub record MutuallyExclusivePlan : Type 0 where
  pub columns : List ℕ
  pub names : List String
  pub mode : ExclusiveMode

abbrev pub present_bits : Option (List Bool) → ℕ → List Bool
present_bits none rows = filled_with true rows
present_bits (some bits) rows = bits

-- the loop over the columns, from `once` and `twice`
unfoldable pub count_columns : RecordBatch → List ℕ → List Bool × List Bool → List Bool × List Bool
count_columns batch [] (once, twice) = (once, twice)
count_columns batch (c ∷ cs) (once, twice) =
    let present : List Bool = present_bits (batch.nulls c) batch.num_rows in
    count_columns batch cs (
      zip_bits (λ a b. a || b) once present,
      zip_bits (λ a b. a || b) twice (zip_bits (λ a b. a && b) once present),
    )

unfoldable pub by_mode : ExclusiveMode → List Bool × List Bool → List Bool
by_mode at_most_one (once, twice) = twice
by_mode exactly_one (once, twice) = zip_bits (λ a b. a || b) twice (map not once)

unfoldable pub violations : MutuallyExclusivePlan → RecordBatch → List Bool
unfolding count_columns by_mode
violations plan batch = by_mode plan.mode (
    count_columns batch plan.columns
      (filled_with false batch.num_rows, filled_with false batch.num_rows))

-- `is_null`
abbrev pub is_null : RecordBatch → ℕ → ℕ → Bool
is_null batch column row = elim (batch.nulls column) [
  | none ↦ false
  | some bits ↦ not (bit bits row)
]

-- the columns zipped with their names, those that are not null in the row
unfoldable pub filled_names : RecordBatch → ℕ → List ℕ → List String → List String
filled_names batch row (c ∷ cs) (n ∷ ns) =
    let rest : List String = filled_names batch row cs ns in
    if is_null batch c row then rest else n ∷ rest
filled_names batch row _ _ = []

unfoldable pub filled_columns : MutuallyExclusivePlan → RecordBatch → ℕ → List String
unfolding filled_names
filled_columns plan batch row = filled_names batch row plan.columns plan.names

-- the rows a bitmap marks, `set_indices`
unfoldable pub set_indices : ℕ → List Bool → List ℕ
set_indices i [] = []
set_indices i (b ∷ bs) = if b then i ∷ set_indices (i + 1) bs else set_indices (i + 1) bs

-- whether a number of filled columns breaks the rule
abbrev pub breaks : ExclusiveMode → ℕ → Bool
breaks at_most_one n = leb 2 n
breaks exactly_one n = not (n == 1)
