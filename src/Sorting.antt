-- ===== src/Sorting.antt =====
-- Rust's `Ord` as a comparison with its laws, and `sort_unstable_by` of a total order: where equal
-- elements are identical, every sort gives the one sorted arrangement, so insertion stands for it.
pub mod Laws
pub mod Pairs
pub mod Bytes
use Prim.Native.Nat.{Ordering}
use proofframe.Prelude.{◌≡◌, Bool, true, false, List, [], ◌∷◌, if◌then◌else◌, ◌⊎◌, All}

-- `a ≤ b` as `a.cmp(b) != Greater`
pub record Order {ℓ} (A : Type ℓ) : Type ℓ where
  pub leq : A → A → Bool
  pub total : (a b : A) → (leq a b ≡ true) ⊎ (leq b a ≡ true)
  pub antisym : (a b : A) → leq a b ≡ true → leq b a ≡ true → a ≡ b
  pub trans : (a b c : A) → leq a b ≡ true → leq b c ≡ true → leq a c ≡ true

module _ {ℓ} {A : Type ℓ} (o : Order A) where
  unfoldable pub insert : A → List A → List A
  insert a [] = a ∷ []
  insert a (b ∷ bs) = if o.leq a b then a ∷ b ∷ bs else b ∷ insert a bs

  unfoldable pub sort : List A → List A
  sort [] = []
  sort (a ∷ rest) = insert a (sort rest)

  -- a lower bound of a list
  abbrev pub Below : A → List A → Type 0
  Below a bs = All (λ b. o.leq a b ≡ true) bs

  abbrev pub IsSorted : List A → Type 0
  IsSorted [] = Unit
  IsSorted (a ∷ rest) = Below a rest × IsSorted rest
