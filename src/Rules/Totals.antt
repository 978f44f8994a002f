-- ===== src/Rules/Totals.antt =====
-- The rule `sum`: totals of a column in execution/total.rs, and their loop in execution/dataset_state.rs.
pub mod Sums
pub mod Exact
mod Runs
use Prim.Native.Nat.{lt, gt}
use Prim.Native.String.{◌++◌ as ◌then_text◌}
use proofframe.Prelude.{
  ℕ, ◌+◌, ◌-◌, ◌^◌, Bool, true, false, List, [], ◌∷◌, Option, none, some, String, ltb, leb,
  if◌then◌else◌,
}
use proofframe.Error.{corrupt_data, unsupported_type, Result, ok, err, ◌>>=◌}
use proofframe.Rules.Ordering.{ℤ, pos, negsuc, compare_int}

infixl 60 ◌+ℤ◌
abbrev pub ◌+ℤ◌ : ℤ → ℤ → ℤ
pos a +ℤ pos b = pos (a + b)
pos a +ℤ negsuc b = if ltb b a then pos (a - b - 1) else negsuc (b - a)
negsuc a +ℤ pos b = if ltb a b then pos (b - a - 1) else negsuc (a - b)
negsuc a +ℤ negsuc b = negsuc (a + b + 1)

-- the range of `i128`
abbrev pub in_range : ℤ → Bool
in_range (pos n) = ltb n (2 ^ 127)
in_range (negsuc n) = ltb n (2 ^ 127)

abbrev pub checked_add : ℤ → ℤ → Option ℤ
checked_add a b = if in_range (a +ℤ b) then some (a +ℤ b) else none

abbrev pub saturated : ℤ → ℤ
saturated (pos n) = pos (if ltb n (2 ^ 127) then n else 2 ^ 127 - 1)
saturated (negsuc n) = negsuc (if ltb n (2 ^ 127) then n else 2 ^ 127 - 1)

abbrev pub saturating_add : ℤ → ℤ → ℤ
saturating_add a b = saturated (a +ℤ b)

-- the arithmetic of `f64`, its casts, and the text of numbers
pub record Floats (F : Type 0) : Type 0 where
  pub zero_float : F
  pub plus : F → F → F
  pub minus : F → F → F
  pub at_least_in_size : F → F → Bool
  pub is_below : F → F → Bool
  pub from_i128 : ℤ → F
  pub to_i128 : F → ℤ
  pub float_text : F → String
  pub integer_text : ℤ → String

pub record Neumaier (F : Type 0) : Type 0 where
  pub sum : F
  pub compensation : F

pub data Total (F : Type 0) : Type 0 where
  integer : ℤ → Total F
  float : Neumaier F → Total F

-- A null is `none`. The integers of every width are widened, as `i128::from` does, and so is `f32`.
pub data Column (F : Type 0) : Type 0 where
  integers : List (Option ℤ) → Column F
  floats : List (Option F) → Column F
  others : String → Column F

pub data SumBounds (F : Type 0) : Type 0 where
  integer : Option ℤ → Option ℤ → SumBounds F
  float : Option F → Option F → SumBounds F

abbrev pub is_less : ℤ → ℤ → Bool
is_less a b = elim (compare_int a b) [ lt ↦ true | _ ↦ false ]

-- the tests of a total against its bounds, for integers and floats
module _ {N : Type 0} (is_below : N → N → Bool) (text : N → String) where
  abbrev pub above : Option N → N → Option String
  above none v = none
  above (some max) v =
      if is_below max v then some ("above the maximum " then_text text max) else none

  abbrev pub beyond : Option N → Option N → N → Option String
  beyond none max v = above max v
  beyond (some min) max v =
      if is_below v min then some ("below the minimum " then_text text min) else above max v

module _ {F : Type 0} (f64 : Floats F) where
  abbrev pub integer_total : Total F
  integer_total = integer (pos 0)

  abbrev pub float_total : Total F
  float_total = float (record { sum = f64.zero_float; compensation = f64.zero_float })

  -- `Neumaier::add`
  abbrev pub compensate : F → Neumaier F → Neumaier F
  compensate value n =
      let total = f64.plus n.sum value in
      record {
        sum = total;
        compensation = f64.plus n.compensation (
            if f64.at_least_in_size n.sum value
            then f64.plus (f64.minus n.sum total) value
            else f64.plus (f64.minus value total) n.sum);
      }

  abbrev pub value : Neumaier F → F
  value n = f64.plus n.sum n.compensation

  abbrev pub checked : Option ℤ → Result (Total F)
  checked none = err (corrupt_data "Column total left the 128-bit integer range")
  checked (some total) = ok (integer total)

  unfoldable pub add_integer : ℤ → Total F → Result (Total F)
  add_integer v (integer total) = checked (checked_add total v)
  add_integer v (float total) = ok (float (compensate (f64.from_i128 v) total))

  unfoldable pub add_float : F → Total F → Total F
  add_float v (integer total) = integer (saturating_add total (f64.to_i128 v))
  add_float v (float total) = float (compensate v total)

  unfoldable pub add_integers : List (Option ℤ) → Total F → Result (Total F)
  unfolding add_integer
  add_integers [] total = ok total
  add_integers (none ∷ cells) total = add_integers cells total
  add_integers (some v ∷ cells) total = add_integer v total >>= add_integers cells

  unfoldable pub add_floats : List (Option F) → Total F → Total F
  unfolding add_float
  add_floats [] total = total
  add_floats (none ∷ cells) total = add_floats cells total
  add_floats (some v ∷ cells) total = add_floats cells (add_float v total)

  -- The array has the type of the kernel.
  unfoldable pub accumulate : Column F → Total F → Result (Total F)
  unfolding add_integers add_floats
  accumulate (integers cells) total = add_integers cells total
  accumulate (floats cells) total = ok (add_floats cells total)
  accumulate (others data_type) total = err (unsupported_type ("total for " then_text data_type))

  -- the column over the batches of a scan
  unfoldable pub update_sum : List (Column F) → Total F → Result (Total F)
  unfolding accumulate
  update_sum [] total = ok total
  update_sum (column ∷ columns) total = accumulate column total >>= update_sum columns

  unfoldable pub outside : Total F → SumBounds F → Option String
  outside (integer v) (SumBounds.integer min max) = beyond is_less f64.integer_text min max v
  outside (float n) (SumBounds.float min max) = beyond f64.is_below f64.float_text min max (value n)
  outside _ _ = some "not comparable with its declared bounds"
