-- ===== src/Sorting/Bytes.antt =====
-- The order of byte strings, `Ord for [u8]`.
use proofframe.Prelude.{
  ℕ, ◌≡◌, refl, ap₂, Bool, true, false, List, [], ◌∷◌, ltb, arith, ◌⊎◌, inl, inr, if◌then◌else◌,
}
use proofframe.Sorting.{Order}

abbrev pub bytes_leq : List ℕ → List ℕ → Bool
bytes_leq [] ys = true
bytes_leq (x ∷ xs) [] = false
bytes_leq (x ∷ xs) (y ∷ ys) = if ltb x y then true else (if ltb y x then false else bytes_leq xs ys)

pub bytes_total : (xs ys : List ℕ) → (bytes_leq xs ys ≡ true) ⊎ (bytes_leq ys xs ≡ true)
bytes_total [] ys = inl refl
bytes_total (x ∷ xs) [] = inr refl
bytes_total (x ∷ xs) (y ∷ ys) = ground (arith, bytes_total xs ys)

pub bytes_antisym : (xs ys : List ℕ) → bytes_leq xs ys ≡ true → bytes_leq ys xs ≡ true → xs ≡ ys
bytes_antisym [] [] h k = refl
bytes_antisym [] (y ∷ ys) h k = cc
bytes_antisym (x ∷ xs) [] h k = cc
bytes_antisym (x ∷ xs) (y ∷ ys) h k =
    let head : x ≡ y = ground arith in
    let tail : xs ≡ ys = bytes_antisym xs ys (ground arith) (ground arith) in
    ap₂ (λ a rest. a ∷ rest) head tail

pub bytes_trans :
    (xs ys zs : List ℕ) → bytes_leq xs ys ≡ true → bytes_leq ys zs ≡ true → bytes_leq xs zs ≡ true
bytes_trans [] ys zs h k = refl
bytes_trans (x ∷ xs) [] zs h k = cc
bytes_trans (x ∷ xs) (y ∷ ys) [] h k = cc
bytes_trans (x ∷ xs) (y ∷ ys) (z ∷ zs) h k = ground (arith, bytes_trans xs ys zs)

abbrev pub bytes_order : Order (List ℕ)
bytes_order = record {
  leq = bytes_leq;
  total = bytes_total;
  antisym = bytes_antisym;
  trans = bytes_trans;
}
