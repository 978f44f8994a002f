-- ===== src/Ratio.antt =====
-- `compare_fraction_to_bound` of execution/dataset_state.rs, and the rules on ratios of a column: nulls
-- and distinct values against the rows.
pub mod Powers
pub mod Compare
mod Runs
use Prim.Native.Nat.{Ordering, lt, eq, gt, compare}
use proofframe.Prelude.{
  ℕ, zero, suc, ◌+◌, ◌-◌, ◌*◌, ◌/◌, ◌%◌, ◌^◌, min, Bool, true, false, ◌&&◌, Option, none, some, ltb,
  leb, ◌==◌, if◌then◌else◌,
}

-- `1 << n`
unfoldable pub pow2 : ℕ → ℕ
pow2 zero = 1
pow2 (suc n) = 2 * pow2 n

-- `trailing_zeros`, on the width as fuel
unfoldable pub trailing_zeros : ℕ → ℕ → ℕ
trailing_zeros zero x = 0
trailing_zeros (suc fuel) x =
    let rest = trailing_zeros fuel (x / 2) in if x % 2 == 0 then suc rest else 0

-- A bound is the bits of its f64. `bound <= 0.0` and `bound >= 1.0`, where it is no NaN
abbrev pub is_negative : ℕ → Bool
is_negative bits = leb (2 ^ 63) bits

abbrev pub at_most_zero : ℕ → Bool
at_most_zero bits = if is_negative bits then true else bits == 0

abbrev pub one_bits : ℕ
one_bits = 1023 * 2 ^ 52

abbrev pub at_least_one : ℕ → Bool
at_least_one bits = if is_negative bits then false else leb one_bits bits

-- `0.0_f64.total_cmp(&bound)`
abbrev pub zero_total_cmp : ℕ → Ordering
zero_total_cmp bits = if is_negative bits then gt else compare 0 bits

abbrev pub zero_or_more : ℕ → Ordering
zero_or_more numerator = if numerator == 0 then lt else gt

abbrev pub exponent_bits : ℕ → ℕ
exponent_bits bits = (bits / 2 ^ 52) % 2 ^ 11

-- the comparison in u128, with the common factors of two taken out of the bound
unfoldable pub compare_shifted : ℕ → ℕ → ℕ → ℕ → Ordering
unfolding pow2
compare_shifted numerator denominator bound_numerator shift =
    if leb 128 shift
    then zero_or_more numerator
    else if ltb (numerator * pow2 shift) (2 ^ 128)
    then compare (numerator * pow2 shift) (denominator * bound_numerator)
    else gt

unfoldable pub compare_normal : ℕ → ℕ → ℕ → ℕ → Ordering
unfolding compare_shifted
compare_normal numerator denominator significand shift =
    let cancelled = min (trailing_zeros 64 significand) shift in
    compare_shifted numerator denominator (significand / pow2 cancelled) (shift - cancelled)

-- `compare_fraction_to_bound`
unfoldable pub compare_fraction_to_bound : ℕ → ℕ → ℕ → Ordering
unfolding compare_normal
compare_fraction_to_bound numerator denominator bits =
    if denominator == 0
    then zero_total_cmp bits
    else if at_most_zero bits
    then compare numerator 0
    else if at_least_one bits
    then compare numerator denominator
    else if exponent_bits bits == 0
    then zero_or_more numerator
    else compare_normal numerator denominator (2 ^ 52 + bits % 2 ^ 52) (1075 - exponent_bits bits)

-- `RatioRangeAst`: the bits of its bounds
pub record RatioRange : Type 0 where
  pub min : Option ℕ
  pub max : Option ℕ

abbrev pub is_less : Ordering → Bool
is_less lt = true
is_less _ = false

abbrev pub is_greater : Ordering → Bool
is_greater gt = true
is_greater _ = false

abbrev pub is_none_or : {A : Type 0} → Option A → (A → Bool) → Bool
is_none_or none f = true
is_none_or (some a) f = f a

abbrev pub negated : Bool → Bool
negated true = false
negated false = true

-- whether a ratio is inside its range, in `finish`
unfoldable pub valid_ratio : RatioRange → ℕ → ℕ → Bool
unfolding compare_fraction_to_bound
valid_ratio range count rows =
    is_none_or range.min (λ bits. negated (is_less (compare_fraction_to_bound count rows bits)))
    && is_none_or range.max
        (λ bits. negated (is_greater (compare_fraction_to_bound count rows bits)))
