-- ===== src/Ratio/Runs.antt =====
-- Counts that an f64 would round, against one half, and what the theorem says there.
use Prim.Native.Nat.{eq, gt}
use proofframe.Prelude.{ℕ, ◌+◌, ◌*◌, ◌^◌, ◌≡◌, refl, inl, false, none, some, arith}
use proofframe.Ratio.{trailing_zeros, compare_fraction_to_bound, valid_ratio}
use proofframe.Ratio.Compare.{exact_compare, compare_fraction_to_bound-exact}

-- the bits of 0.5
abbrev half : ℕ
half = 1022 * 2 ^ 52

-- one more than half of the rows, a difference that no f64 of the ratio shows
above_half : compare_fraction_to_bound (2 ^ 62 + 1) (2 ^ 63) half ≡ gt
unfolding compare_fraction_to_bound trailing_zeros
above_half = refl

at_half : compare_fraction_to_bound (2 ^ 62) (2 ^ 63) half ≡ eq
unfolding compare_fraction_to_bound trailing_zeros
at_half = refl

too_many : valid_ratio (record { min = none; max = some half }) (2 ^ 62 + 1) (2 ^ 63) ≡ false
unfolding valid_ratio trailing_zeros
too_many = refl

compare_fraction_to_bound-exact_example :
    compare_fraction_to_bound (2 ^ 62 + 1) (2 ^ 63) half ≡ exact_compare (2 ^ 62 + 1) (2 ^ 63) half
compare_fraction_to_bound-exact_example =
    compare_fraction_to_bound-exact (2 ^ 62 + 1) (2 ^ 63) half (omega arith) (omega arith)
      (inl (omega arith))
