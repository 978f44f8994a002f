-- ===== src/Receipt/Trust.antt =====
-- Who may have signed a receipt: receipt/trust.rs. A key stands for its 32 bytes.
use proofframe.Prelude.{ℕ, ◌≡◌, refl, Bool, true, false, List, [], ◌∷◌, arith, ◌==◌, if◌then◌else◌}

-- equality of byte strings
unfoldable pub same_bytes : List ℕ → List ℕ → Bool
same_bytes [] [] = true
same_bytes (x ∷ xs) (y ∷ ys) = if x == y then same_bytes xs ys else false
same_bytes _ _ = false

unfoldable pub contains : List (List ℕ) → List ℕ → Bool
unfolding same_bytes
contains [] key = false
contains (k ∷ keys) key = if same_bytes k key then true else contains keys key

-- `insert` of a `BTreeSet`, and whether the key was new
unfoldable pub insert : List (List ℕ) → List ℕ → Bool × List (List ℕ)
unfolding contains
insert keys key = if contains keys key then (false, keys) else (true, key ∷ keys)

pub data TrustPolicy : Type 0 where
  signature_only : TrustPolicy
  expected_key : List ℕ → TrustPolicy
  trust_store : List (List ℕ) → TrustPolicy

unfoldable pub accepts : TrustPolicy → List ℕ → Bool
unfolding contains
accepts signature_only key = false
accepts (expected_key expected) key = same_bytes expected key
accepts (trust_store keys) key = contains keys key

pub same_bytes_refl : (a : List ℕ) → same_bytes a a ≡ true
unfolding same_bytes
same_bytes_refl [] = refl
same_bytes_refl (x ∷ xs) = ground (arith, same_bytes_refl xs)

pub same_bytes-eq : (a b : List ℕ) → same_bytes a b ≡ true → a ≡ b
unfolding same_bytes
same_bytes-eq [] [] h = refl
same_bytes-eq [] (y ∷ ys) h = cc
same_bytes-eq (x ∷ xs) [] h = cc
same_bytes-eq (x ∷ xs) (y ∷ ys) h = ground (arith, same_bytes-eq xs ys)
