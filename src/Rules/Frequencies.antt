-- ===== src/Rules/Frequencies.antt =====
-- `Frequencies` of execution/total.rs, and its loop in `update` of execution/dataset_state.rs.
pub mod Maps
pub mod Charge
pub mod Exact
mod Runs
use proofframe.Prelude.{
  ℕ, zero, suc, ◌+◌, ◌-◌, ◌%◌, ◌^◌, min, max, Bool, true, false, ◌&&◌, List, [], ◌∷◌, Option, none,
  some, length, ltb, ◌==◌, if◌then◌else◌,
}
use proofframe.Error.{Result, ok, err, ◌>>=◌, resource_limit}

-- The map is the list of its entries, the last insertion first; its order is read by nothing.
pub record Frequencies : Type 0 where
  pub counts : List (List ℕ × ℕ)
  pub total : ℕ
  pub budget : ℕ
  pub used : ℕ

abbrev pub new : ℕ → Frequencies
new budget = record { counts = []; total = 0; budget = budget; used = 0 }

-- the equality of keys
unfoldable pub same_key : List ℕ → List ℕ → Bool
same_key [] [] = true
same_key (x ∷ xs) (y ∷ ys) = (x == y) && same_key xs ys
same_key _ _ = false

-- the lookup of `get_mut`
unfoldable pub get : List ℕ → List (List ℕ × ℕ) → Option ℕ
unfolding same_key
get key [] = none
get key ((k, n) ∷ counts) = if same_key key k then some n else get key counts

-- `*count += 1` at the entry that was found
unfoldable pub increment : List ℕ → List (List ℕ × ℕ) → List (List ℕ × ℕ)
unfolding same_key
increment key [] = []
increment key ((k, n) ∷ counts) =
    if same_key key k then (k, (n + 1) % 2 ^ 64) ∷ counts else (k, n) ∷ increment key counts

abbrev pub cost : List ℕ → ℕ
cost key = length key + 8 + 48

-- the charge and the insertion of a key that is new
unfoldable pub insert : List ℕ → Frequencies → Result Frequencies
insert key f =
    let used = min (f.used + cost key) (2 ^ 64 - 1) in
    if ltb f.budget used
    then err (resource_limit "dominant_value_map" (cost key) used f.budget)
    else ok (record f { counts = (key, 1) ∷ f.counts; used = used })

unfoldable pub add : List ℕ → Frequencies → Result Frequencies
unfolding get increment insert
add key f =
    let total = (f.total + 1) % 2 ^ 64 in
    elim (get key f.counts) [
      | some n ↦ ok (record f { counts = increment key f.counts; total = total })
      | none ↦ insert key (record f { total = total })
    ]

-- the loop over rows: their keys
unfoldable pub add_all : List (List ℕ) → Frequencies → Result Frequencies
unfolding add
add_all [] f = ok f
add_all (key ∷ keys) f = add key f >>= add_all keys

-- `values().copied().max()`
unfoldable pub top : List (List ℕ × ℕ) → Option ℕ
top [] = none
top ((k, n) ∷ counts) = elim (top counts) [ none ↦ some n | some m ↦ some (max n m) ]

-- `dominant`, with the division of f64 as a parameter
unfoldable pub dominant : {F : Type 0} → (ℕ → ℕ → F) → Frequencies → Option (F × ℕ)
unfolding top
dominant divide f =
    if f.total == 0
    then none
    else elim (top f.counts) [ none ↦ none | some n ↦ some (divide n f.total, n) ]
