-- ===== src/Rows/Flip.antt =====
-- A comparison read from its other side, in execution/row_kernels.rs.
use Prim.Native.Nat.{Ordering}
use proofframe.Prelude.{
  ℕ, ◌≡◌, refl, ap, ◌∙◌, Bool, true, false, not, List, [], ◌∷◌, map, Option, none, some, arith, inl,
  inr, ◌⊎◌, Bool-cases, Option-cases, ap₂,
}
use proofframe.Error.{Result, ok}
use proofframe.Rules.Ordering.{ℤ, compare_int, compare_bytes}
use proofframe.Rows.{
  Scalar, text, CompareOp, eq, ne, lt, lte, gt, gte, NullPolicy, ComparePlan, Operands,
  column_column, column_literal, literal_column, KernelKind, partial_cmp, holds, compare,
  null_outcome, pair_outcome, pair_outcomes, scan_column_pair, literal_outcome, cast,
  scan_column_literal, scan_operands, scan_predicate, has_pair, unsupported,
}

abbrev pub turn_ordering : Ordering → Ordering
turn_ordering Ordering.lt = Ordering.gt
turn_ordering Ordering.eq = Ordering.eq
turn_ordering Ordering.gt = Ordering.lt

abbrev pub turn : Option Ordering → Option Ordering
turn none = none
turn (some o) = some (turn_ordering o)

-- the operator that says the same of the sides exchanged
abbrev pub turn_op : CompareOp → CompareOp
turn_op eq = eq
turn_op ne = ne
turn_op lt = gt
turn_op lte = gte
turn_op gt = lt
turn_op gte = lte

abbrev pub turn_operands : Operands → Operands
turn_operands (column_column left right) = column_column right left
turn_operands (column_literal column literal) = literal_column literal column
turn_operands (literal_column literal column) = column_literal column literal

abbrev pub turn_plan : ComparePlan → ComparePlan
turn_plan plan = record plan { operands = turn_operands plan.operands; op = turn_op plan.op }

compare_int-turn : (a b : ℤ) → compare_int b a ≡ turn_ordering (compare_int a b)
compare_int-turn a b = ground arith

compare_bytes-turn : (a b : List ℕ) → compare_bytes b a ≡ turn_ordering (compare_bytes a b)
unfolding compare_bytes
compare_bytes-turn [] [] = refl
compare_bytes-turn [] (y ∷ ys) = refl
compare_bytes-turn (x ∷ xs) [] = refl
compare_bytes-turn (x ∷ xs) (y ∷ ys) = ground (arith, compare_bytes-turn xs ys)

partial_cmp-turn : (a b : Scalar) → partial_cmp b a ≡ turn (partial_cmp a b)
unfolding partial_cmp
partial_cmp-turn (text a) (text b) = ap some (compare_bytes-turn a b)
partial_cmp-turn a b = ground arith

holds-turn : (op : CompareOp) (o : Option Ordering) → holds (turn_op op) (turn o) ≡ holds op o
holds-turn op o = ground arith

compare-turn : (a b : Scalar) (op : CompareOp) → compare b a (turn_op op) ≡ compare a b op
unfolding compare
compare-turn a b op =
    ap (holds (turn_op op)) (partial_cmp-turn a b) ∙ holds-turn op (partial_cmp a b)

null_outcome-turn :
    (l r : Bool) (nulls : NullPolicy) (op : CompareOp)
    → null_outcome r l nulls (turn_op op) ≡ null_outcome l r nulls op
null_outcome-turn l r nulls op = ground arith

pair_outcome-turn :
    (plan : ComparePlan) (l r : Option Scalar)
    → pair_outcome (turn_plan plan) r l ≡ pair_outcome plan l r
unfolding pair_outcome
pair_outcome-turn plan none none = null_outcome-turn true true plan.nulls plan.op
pair_outcome-turn plan none (some b) = null_outcome-turn true false plan.nulls plan.op
pair_outcome-turn plan (some a) none = null_outcome-turn false true plan.nulls plan.op
pair_outcome-turn plan (some a) (some b) = ap some (compare-turn a b plan.op)

pair_outcomes-turn :
    (plan : ComparePlan) (ls rs : List (Option Scalar))
    → pair_outcomes (turn_plan plan) rs ls ≡ pair_outcomes plan ls rs
unfolding pair_outcomes
pair_outcomes-turn plan [] [] = refl
pair_outcomes-turn plan [] (r ∷ rs) = refl
pair_outcomes-turn plan (l ∷ ls) [] = refl
pair_outcomes-turn plan (l ∷ ls) (r ∷ rs) =
    ap₂ (λ o os. o ∷ os) (pair_outcome-turn plan l r) (pair_outcomes-turn plan ls rs)

literal_outcome-turn :
    (plan : ComparePlan) (left : Bool) (literal : Scalar) (cell : Option Scalar)
    → literal_outcome (turn_plan plan) (not left) literal cell
      ≡ literal_outcome plan left literal cell
unfolding literal_outcome
literal_outcome-turn plan true literal none = null_outcome-turn false true plan.nulls plan.op
literal_outcome-turn plan false literal none = null_outcome-turn true false plan.nulls plan.op
literal_outcome-turn plan true literal (some b) = ap some (compare-turn literal b plan.op)
literal_outcome-turn plan false literal (some b) = ap some (compare-turn b literal plan.op)

map-turn :
    (plan : ComparePlan) (left : Bool) (literal : Scalar) (cells : List (Option Scalar))
    → map (literal_outcome (turn_plan plan) (not left) literal) cells
      ≡ map (literal_outcome plan left literal) cells
map-turn plan left literal [] = refl
map-turn plan left literal (c ∷ cs) =
    ap₂ (λ o os. o ∷ os) (literal_outcome-turn plan left literal c) (map-turn plan left literal cs)

-- the columns of a comparison have one kernel
abbrev pub SameKernel : Operands → Type 0
SameKernel (column_column left right) = left.kernel ≡ right.kernel
SameKernel _ = Unit

-- Two scans have the same outcomes, or each refuses the kernels of its own plan, in its order.
abbrev pub SameOutcomes :
    ComparePlan → ComparePlan → Result (List (Option Bool)) → Result (List (Option Bool)) → Type 0
SameOutcomes plan plan' result result' =
    ((os : List (Option Bool)) × (result ≡ ok os) × (result' ≡ ok os))
    ⊎ ((result ≡ unsupported plan) × (result' ≡ unsupported plan'))

module _ (as_f32 : ℕ → ℕ) where
  scan_column_pair-turn :
      (plan : ComparePlan) (kernel : KernelKind) (ls rs : List (Option Scalar))
      → SameOutcomes plan
          (turn_plan plan)
          (scan_column_pair kernel ls rs plan)
          (scan_column_pair kernel rs ls (turn_plan plan))
  unfolding scan_column_pair
  scan_column_pair-turn plan kernel ls rs = elim (Bool-cases (has_pair kernel)) [
    | inl known ↦ inl (
      pair_outcomes plan ls rs,
      rw (scan_column_pair, known) refl,
      rw (scan_column_pair, known) (ap ok (pair_outcomes-turn plan ls rs)),
    )
    | inr unknown ↦ inr (rw (scan_column_pair, unknown) refl, rw (scan_column_pair, unknown) refl)
  ]

  scan_column_literal-turn :
      (plan : ComparePlan) (kernel : KernelKind) (cells : List (Option Scalar)) (literal : Scalar)
      (left : Bool)
      → SameOutcomes plan
          (turn_plan plan)
          (scan_column_literal as_f32 kernel cells literal left plan)
          (scan_column_literal as_f32 kernel cells literal (not left) (turn_plan plan))
  unfolding scan_column_literal
  scan_column_literal-turn plan kernel cells literal left =
      elim (Option-cases (cast as_f32 kernel literal)) [
        | inl refused ↦
            inr (rw (refused, scan_column_literal) refl, rw (refused, scan_column_literal) refl)
        | inr (value, is) ↦ inl (
          map (literal_outcome plan left value) cells,
          rw (is, scan_column_literal) refl,
          rw (is, scan_column_literal) (ap ok (map-turn plan left value cells)),
        )
      ]

  scan_operands-turn :
      (operands : Operands) (plan : ComparePlan) (batch : ℕ → List (Option Scalar))
      → SameKernel operands
      → SameOutcomes plan
          (turn_plan plan)
          (scan_operands as_f32 operands plan batch)
          (scan_operands as_f32 (turn_operands operands) (turn_plan plan) batch)
  unfolding scan_operands
  scan_operands-turn (column_column left right) plan batch same =
      rw same (scan_column_pair-turn plan right.kernel (batch left.index) (batch right.index))
  scan_operands-turn (column_literal column literal) plan batch same =
      scan_column_literal-turn plan column.kernel (batch column.index) literal false
  scan_operands-turn (literal_column literal column) plan batch same =
      scan_column_literal-turn plan column.kernel (batch column.index) literal true

  -- A comparison and the one read from its other side, with the operator turned round, have the same
  -- outcome for every row, whatever the kernel and the nulls, NaN included: between two columns of the same
  -- kernel, and between a column and a literal. Or both are refused, each with the error that names its own
  -- kernels, the left one first.
  pub scan_predicate-turn :
      (plan : ComparePlan) (batch : ℕ → List (Option Scalar))
      → SameKernel plan.operands
      → SameOutcomes plan
          (turn_plan plan)
          (scan_predicate as_f32 plan batch)
          (scan_predicate as_f32 (turn_plan plan) batch)
  unfolding scan_predicate
  scan_predicate-turn plan batch same = scan_operands-turn plan.operands plan batch same
