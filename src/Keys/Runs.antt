-- ===== src/Keys/Runs.antt =====
-- The keys of rows over two columns, and what the theorem says there.
use proofframe.Prelude.{ℕ, zero, suc, ◌≡◌, ◌↔◌, ◌&&◌, refl, true, false, List, [], ◌∷◌, arith, ◌==◌}
use proofframe.Error.{ok}
use proofframe.RunFile.{to_le_bytes}
use proofframe.Keys.{Primitive, Text, numbers, texts, Array, composite_key}
use proofframe.Keys.Injective.{FitsRow, Agree, any_null, composite_key-injective}

abbrev batch : ℕ → Array
batch zero = record { is_null = λ row. row == 1; values = numbers Primitive.i32 (λ row. 7) }
batch (suc c) = record { is_null = λ row. false; values = texts Text.utf8 (λ row. 97 ∷ []) }

abbrev columns : List ℕ
columns = 0 ∷ 1 ∷ []

abbrev key : List ℕ
key =
    0 ∷ 0 ∷ 0 ∷ 0 ∷ 0 ∷ 0 ∷ 0 ∷ 0 ∷ 1 ∷ 3 ∷ 7 ∷ 0 ∷ 0 ∷ 0 ∷ 1 ∷ 0 ∷ 0 ∷ 0 ∷ 0 ∷ 0 ∷ 0 ∷ 0 ∷ 1 ∷ 19
    ∷ 1 ∷ 0 ∷ 0 ∷ 0 ∷ 0 ∷ 0 ∷ 0 ∷ 0 ∷ 97 ∷ []

built : composite_key true columns batch 0 ≡ ok (key, false)
unfolding composite_key to_le_bytes
built = refl

built_again : composite_key true columns batch 2 ≡ ok (key, false)
unfolding composite_key to_le_bytes
built_again = refl

row_fits : FitsRow columns batch 0
row_fits = (omega arith, (omega arith, tt))

composite_key-injective_example :
    ((key ≡ key) ↔ Agree columns batch batch 0 2) × (false ≡ (true && any_null columns batch 0))
composite_key-injective_example =
    composite_key-injective true columns batch batch 0 2 key key false false row_fits
      (omega arith, (omega arith, tt)) built built_again
