-- ===== src/Rules/Frequencies/Runs.antt =====
-- Three rows with two values, within the budget and past it, and what the theorem says there.
use proofframe.Prelude.{ℕ, ◌*◌, ◌/◌, ◌≤◌, ◌<◌, ◌≡◌, ◌⊎◌, refl, List, [], ◌∷◌, some, arith}
use proofframe.Error.{ProofFrameError, ErrorCode, error_code, resource_limit, ok, err}
use proofframe.Rules.Frequencies.{Frequencies, new, add_all, dominant}
use proofframe.Rules.Frequencies.Exact.{IsDominant, new_cost, add_all-IsDominant}

abbrev red : List ℕ
red = 1 ∷ 2 ∷ []

abbrev rows : List (List ℕ)
rows = red ∷ (1 ∷ 3 ∷ []) ∷ red ∷ []

abbrev percent : ℕ → ℕ → ℕ
percent n total = n * 100 / total

abbrev filled : Frequencies
filled = record { counts = (1 ∷ 3 ∷ [], 1) ∷ (red, 2) ∷ []; total = 3; budget = 200; used = 116 }

counted : add_all rows (new 200) ≡ ok filled
unfolding add_all
counted = refl

most : dominant percent filled ≡ some (66, 2)
unfolding dominant
most = refl

refused : add_all rows (new 115) ≡ err (resource_limit "dominant_value_map" 58 116 115)
unfolding add_all
refused = refl

add_all-IsDominant_example :
    ((f : Frequencies) × (add_all rows (new 200) ≡ ok f)
      × (new_cost [] rows ≤ 200)
      × IsDominant percent rows (dominant percent f))
    ⊎ ((e : ProofFrameError) × (add_all rows (new 200) ≡ err e)
        × (error_code e ≡ ErrorCode.resource_limit)
        × (200 < new_cost [] rows))
add_all-IsDominant_example = add_all-IsDominant percent rows 200 (omega arith) (omega arith)
