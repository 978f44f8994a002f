-- ===== src/Rules/Totals/Runs.antt =====
-- Totals at the end of `i128`, with toy floats, and what the theorem says there.
use proofframe.Prelude.{
  ℕ, ◌-◌, ◌^◌, ◌≡◌, ◌↔◌, ◌⊎◌, refl, true, false, List, [], ◌∷◌, map, Option, none, some,
}
use proofframe.Error.{corrupt_data, ok, err}
use proofframe.Rules.Ordering.{ℤ, pos, negsuc}
use proofframe.Rules.Totals.{
  ◌+ℤ◌, in_range, Floats, integer, integers, SumBounds, is_less, integer_total, update_sum, outside,
}
use proofframe.Rules.Totals.Sums.{difference, gains, losses, flatten}
use proofframe.Rules.Totals.Exact.{partial, Keeps, update_sum-exact}

abbrev toy : Floats ℤ
toy = record {
  zero_float = pos 0;
  plus = λ a b. a +ℤ b;
  minus = λ a b. a;
  at_least_in_size = λ a b. true;
  is_below = is_less;
  from_i128 = λ a. a;
  to_i128 = λ a. a;
  float_text = λ a. "f";
  integer_text = λ a. "n";
}

abbrev batches : List (List (Option ℤ))
batches = (some (pos 7) ∷ none ∷ []) ∷ (some (negsuc 2) ∷ []) ∷ []

total : update_sum toy (map integers batches) (integer_total toy) ≡ ok (integer (pos 4))
unfolding update_sum
total = refl

too_small :
    outside toy (integer (pos 4)) (SumBounds.integer (some (pos 5)) none)
    ≡ some "below the minimum n"
unfolding outside
too_small = refl

-- past the largest i128
left :
    update_sum toy
      (map integers ((some (pos (2 ^ 127 - 1)) ∷ []) ∷ (some (pos 1) ∷ []) ∷ []))
      (integer_total toy)
    ≡ err (corrupt_data "Column total left the 128-bit integer range")
unfolding update_sum
left = refl

update_sum-exact_example :
    ((update_sum toy (map integers batches) (integer_total toy)
        ≡ ok (integer (difference (gains (flatten batches)) (losses (flatten batches)))))
      × ((k : ℕ) → in_range (partial 0 0 (flatten batches) k) ≡ true)
      × ((outside toy
              (integer (difference (gains (flatten batches)) (losses (flatten batches))))
              (SumBounds.integer (some (pos 5)) none)
            ≡ none)
          ↔ Keeps (some (pos 5)) none (gains (flatten batches)) (losses (flatten batches))))
    ⊎ ((update_sum toy (map integers batches) (integer_total toy)
          ≡ err (corrupt_data "Column total left the 128-bit integer range"))
        × ((k : ℕ) × (in_range (partial 0 0 (flatten batches) k) ≡ false)))
update_sum-exact_example = update_sum-exact toy batches (some (pos 5)) none
