-- ===== src/Rules/Totals/Sums.antt =====
-- The integers of the totals of execution/total.rs as differences of natural numbers.
use proofframe.Prelude.{
  ℕ, ◌+◌, ◌-◌, ◌≤◌, ◌≡◌, ◌↔◌, false, List, [], ◌∷◌, ◌++◌, Option, none, some, leb, if◌then◌else◌,
  arith,
}
use proofframe.Rules.Ordering.{ℤ, pos, negsuc}
use proofframe.Rules.Totals.{◌+ℤ◌, is_less}

-- `a - b`, as an integer
abbrev pub difference : ℕ → ℕ → ℤ
difference a b = if leb b a then pos (a - b) else negsuc (b - a - 1)

-- what a value adds, and what it takes away
abbrev pub gain : ℤ → ℕ
gain (pos n) = n
gain (negsuc n) = 0

abbrev pub loss : ℤ → ℕ
loss (pos n) = 0
loss (negsuc n) = n + 1

pub difference_add : (v : ℤ) (a b : ℕ) → difference a b +ℤ v ≡ difference (a + gain v) (b + loss v)
difference_add (pos n) a b = ground arith
difference_add (negsuc n) a b = ground arith

-- The sum of the values that are no null, as what they add and what they take away.
abbrev pub gains : List (Option ℤ) → ℕ
gains [] = 0
gains (none ∷ cells) = gains cells
gains (some v ∷ cells) = gain v + gains cells

abbrev pub losses : List (Option ℤ) → ℕ
losses [] = 0
losses (none ∷ cells) = losses cells
losses (some v ∷ cells) = loss v + losses cells

abbrev pub flatten {ℓ} : {A : Type ℓ} → List (List A) → List A
flatten [] = []
flatten (batch ∷ batches) = batch ++ flatten batches

pub not_less : (m : ℤ) (a b : ℕ) → (is_less (difference a b) m ≡ false) ↔ (gain m + b ≤ a + loss m)
not_less (pos n) a b = ground arith
not_less (negsuc n) a b = ground arith

pub not_above : (m : ℤ) (a b : ℕ) → (is_less m (difference a b) ≡ false) ↔ (a + loss m ≤ gain m + b)
not_above (pos n) a b = ground arith
not_above (negsuc n) a b = ground arith
