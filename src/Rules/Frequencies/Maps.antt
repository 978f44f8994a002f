-- ===== src/Rules/Frequencies/Maps.antt =====
-- The map of execution/total.rs: lookups after an increment and after an insertion, and its maximum.
use proofframe.Prelude.{
  ℕ, zero, suc, ◌+◌, ◌%◌, ◌^◌, ◌≤◌, max, ◌≡◌, refl, sym, ap, ap₂, ◌∙◌, inl, inr, Bool, true, false,
  List, [], ◌∷◌, Option, none, some, length, leb, leb→le, ◌==◌, ==_iff, Bool-cases, if◌then◌else◌,
  arith,
}
use proofframe.Rules.Frequencies.{same_key, get, increment, top}

-- how often a key stands in a list
unfoldable pub occurrences : List ℕ → List (List ℕ) → ℕ
unfolding same_key
occurrences key [] = 0
occurrences key (k ∷ keys) =
    if same_key key k then suc (occurrences key keys) else occurrences key keys

abbrev pub counted : ℕ → Option ℕ
counted zero = none
counted (suc n) = some (suc n)

pub same_key_refl : (k : List ℕ) → same_key k k ≡ true
unfolding same_key
same_key_refl [] = refl
same_key_refl (x ∷ xs) = rw (same_key_refl xs, (==_iff x x).1 refl) refl

pub same_key_eq : (a b : List ℕ) → same_key a b ≡ true → a ≡ b
unfolding same_key
same_key_eq [] [] e = refl
same_key_eq [] (y ∷ ys) e = cc
same_key_eq (x ∷ xs) [] e = cc
same_key_eq (x ∷ xs) (y ∷ ys) e = elim (Bool-cases (x == y)) [
  | inl same ↦ ap₂ (λ a b. a ∷ b) ((==_iff x y).0 same) (same_key_eq xs ys (rw same at e))
  | inr other ↦ cc
]

pub occurrences_le : (key : List ℕ) (keys : List (List ℕ)) → occurrences key keys ≤ length keys
unfolding occurrences
occurrences_le key [] = omega arith
occurrences_le key (k ∷ keys) = let least = occurrences_le key keys in ground arith

-- no entry hides another
unfoldable pub Fresh : List (List ℕ × ℕ) → Type 0
unfolding get
Fresh [] = Unit
Fresh ((k, n) ∷ counts) = (get k counts ≡ none) × Fresh counts

pub get-increment-other :
    (key k : List ℕ) (counts : List (List ℕ × ℕ))
    → same_key key k ≡ false
    → get key (increment k counts) ≡ get key counts
unfolding get increment
get-increment-other key k [] other = refl
get-increment-other key k ((k', n) ∷ counts) other =
    let rest = get-increment-other key k counts other in
    elim (Bool-cases (same_key k k')) [
      | inl same ↦ rw (same, sym (same_key_eq k k' same), other) refl
      | inr differs ↦ rw (differs, rest) refl
    ]

taken : {b : Bool} (o : Option ℕ) {v n : ℕ} → b ≡ true → (if b then some v else o) ≡ some n → v ≡ n
taken o e h = grind arith

pub absent_iff :
    (key k : List ℕ) (n : ℕ) (counts : List (List ℕ × ℕ))
    → get key ((k, n) ∷ counts) ≡ none
    → (same_key key k ≡ false) × (get key counts ≡ none)
unfolding get
absent_iff key k n counts absent = elim (Bool-cases (same_key key k)) [
  | inl same ↦ cc
  | inr differs ↦ (differs, rw differs at absent)
]

pub get-increment-none :
    (key k : List ℕ) (counts : List (List ℕ × ℕ))
    → get key counts ≡ none
    → get key (increment k counts) ≡ none
unfolding get increment
get-increment-none key k [] absent = refl
get-increment-none key k ((k', n) ∷ counts) absent =
    let (other, rest) = absent_iff key k' n counts absent in
    elim (Bool-cases (same_key k k')) [
      | inl same ↦ rw (same, other) rest
      | inr differs ↦ rw (differs, other) (get-increment-none key k counts rest)
    ]

pub get-increment-same :
    (k : List ℕ) (n : ℕ) (counts : List (List ℕ × ℕ))
    → get k counts ≡ some n
    → get k (increment k counts) ≡ some ((n + 1) % 2 ^ 64)
unfolding get increment
get-increment-same k n [] e = cc
get-increment-same k n ((k', n') ∷ counts) e = elim (Bool-cases (same_key k k')) [
  | inl same ↦ rw (same, same) (ap (λ v. some ((v + 1) % 2 ^ 64)) (taken (get k counts) same e))
  | inr differs ↦ rw (differs, differs) (get-increment-same k n counts (rw differs at e))
]

pub increment-Fresh :
    (k : List ℕ) (counts : List (List ℕ × ℕ)) → Fresh counts → Fresh (increment k counts)
unfolding Fresh increment get
increment-Fresh k [] fresh = tt
increment-Fresh k ((k', n) ∷ counts) (new, fresh) = elim (Bool-cases (same_key k k')) [
  | inl same ↦ rw same (new, fresh)
  | inr differs ↦ rw differs (get-increment-none k' k counts new, increment-Fresh k counts fresh)
]

-- how often the map says that a key came
abbrev pub or_zero : Option ℕ → ℕ
or_zero none = 0
or_zero (some n) = n

-- The maximum is a count of some key, and no count is above it.
abbrev pub IsTop : List (List ℕ × ℕ) → ℕ → Type 0
IsTop counts m =
    ((key : List ℕ) → or_zero (get key counts) ≤ m) × ((key : List ℕ) × (get key counts ≡ some m))

or_zero_bound :
    (b : Bool) (o : Option ℕ) (n m : ℕ)
    → or_zero o ≤ m
    → or_zero (if b then some n else o) ≤ max n m
or_zero_bound true o n m below = omega arith
or_zero_bound false o n m below = omega (arith, below)

found_other :
    (key k : List ℕ) (m : ℕ) (counts : List (List ℕ × ℕ))
    → get k counts ≡ none
    → get key counts ≡ some m
    → same_key key k ≡ false
found_other key k m counts absent found = elim (Bool-cases (same_key key k)) [
  | inl same ↦ let hidden : get key counts ≡ none = rw (same_key_eq key k same) absent in cc
  | inr differs ↦ differs
]

larger :
    (key k : List ℕ) (n m : ℕ) (counts : List (List ℕ × ℕ))
    → get k counts ≡ none
    → get key counts ≡ some m
    → (x : List ℕ) × (get x ((k, n) ∷ counts) ≡ some (max n m))
unfolding get
larger key k n m counts absent found = elim (Bool-cases (leb n m)) [
  | inl above ↦
      let most : m ≡ max n m = omega (arith, leb→le n m above) in
      (key, rw (found_other key k m counts absent found) (found ∙ ap some most))
  | inr below ↦ let most : n ≡ max n m = ground arith in (k, rw (same_key_refl k) (ap some most))
]

top-IsTop :
    (k : List ℕ) (n : ℕ) (counts : List (List ℕ × ℕ))
    → Fresh ((k, n) ∷ counts)
    → (m : ℕ) × (top ((k, n) ∷ counts) ≡ some m) × IsTop ((k, n) ∷ counts) m
unfolding Fresh get top
top-IsTop k n [] (new, fresh) = (
  n,
  refl,
  (
    λ key. omega (arith, or_zero_bound (same_key key k) none n 0 (omega arith)),
    (k, rw (same_key_refl k) refl),
  ),
)
top-IsTop k n ((k', n') ∷ counts) (new, fresh) =
    let (m, e, (above, (key, found))) = top-IsTop k' n' counts fresh in
    (
      max n m,
      rw e refl,
      (
        λ key'. or_zero_bound (same_key key' k) (get key' ((k', n') ∷ counts)) n m (above key'),
        larger key k n m ((k', n') ∷ counts) new found,
      ),
    )

pub top_found :
    (key : List ℕ) (n : ℕ) (counts : List (List ℕ × ℕ))
    → get key counts ≡ some n
    → Fresh counts
    → (m : ℕ) × (top counts ≡ some m) × IsTop counts m
unfolding get
top_found key n [] found fresh = cc
top_found key n ((k, n') ∷ counts) found fresh = top-IsTop k n' counts fresh
