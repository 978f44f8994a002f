-- ===== src/Rules/Ordering/Sorted.antt =====
-- What the rule of execution/ordering.rs says of a column: that its values stand in order.
use proofframe.Prelude.{
  ℕ, ◌≤◌, if◌then◌else◌, ◌+◌, ◌≡◌, refl, ◌↔◌, Bool, true, false, List, [], ◌∷◌, Option, none, some,
  arith, length, All,
}
use proofframe.Error.{Result, ok, err}
use proofframe.Rules.Ordering.{
  ℤ, compare_int, compare_bytes, Ordered, text, compare, MonotonicDirection, allows, follows,
}

compare_int_trans :
    (d : MonotonicDirection) (a b c : ℤ)
    → allows d (compare_int a b) ≡ true
    → allows d (compare_int b c) ≡ true
    → allows d (compare_int a c) ≡ true
compare_int_trans d a b c h k = ground arith

compare_bytes_trans :
    (d : MonotonicDirection) (a b c : List ℕ)
    → allows d (compare_bytes a b) ≡ true
    → allows d (compare_bytes b c) ≡ true
    → allows d (compare_bytes a c) ≡ true
unfolding compare_bytes
compare_bytes_trans d [] b c h k = ground arith
compare_bytes_trans d (x ∷ a) [] c h k = ground arith
compare_bytes_trans d (x ∷ a) (y ∷ b) [] h k = ground arith
compare_bytes_trans d (x ∷ a) (y ∷ b) (z ∷ c) h k = ground (arith, compare_bytes_trans d a b c)

pub follows_trans :
    (d : MonotonicDirection) (a b c : Ordered)
    → follows d a b ≡ ok true
    → follows d b c ≡ ok true
    → follows d a c ≡ ok true
unfolding follows compare
follows_trans d (text a) (text b) (text c) h k = ground (arith, compare_bytes_trans d a b c)
follows_trans d a b c h k = ground arith

-- each value stands in order with all the values after it
abbrev pub InOrder : MonotonicDirection → List Ordered → Type 0
InOrder d [] = Unit
InOrder d (x ∷ xs) = All (λ y. follows d x y ≡ ok true) xs × InOrder d xs

-- the values of a column that are not null
abbrev pub present : List (Option Ordered) → List Ordered
present [] = []
present (none ∷ cells) = present cells
present (some x ∷ cells) = x ∷ present cells

abbrev pub readable : List (Option Ordered) → List (Option (Result Ordered))
readable [] = []
readable (none ∷ cells) = none ∷ readable cells
readable (some x ∷ cells) = some (ok x) ∷ readable cells

unfoldable pub good : MonotonicDirection → Ordered → Ordered → Bool
good d a b = elim (follows d a b) [ ok b ↦ b | err _ ↦ false ]

pub good-follows :
    (d : MonotonicDirection) (a b : Ordered) → good d a b ≡ true → follows d a b ≡ ok true
unfolding good
good-follows d a b e = ground arith

pub follows-good :
    (d : MonotonicDirection) (a b : Ordered) (r : Bool) → follows d a b ≡ ok r → good d a b ≡ r
unfolding good
follows-good d a b r e = ground arith

-- how many values do not follow the one before
unfoldable pub steps : MonotonicDirection → Option Ordered → List Ordered → ℕ
steps d p [] = 0
steps d none (x ∷ xs) = steps d (some x) xs
steps d (some p) (x ∷ xs) = (if good d p x then 0 else 1) + steps d (some x) xs

All-trans :
    (d : MonotonicDirection) (p x : Ordered) (xs : List Ordered)
    → follows d p x ≡ ok true
    → All (λ y. follows d x y ≡ ok true) xs
    → All (λ y. follows d p y ≡ ok true) xs
All-trans d p x [] e a = tt
All-trans d p x (y ∷ ys) e a = (follows_trans d p x y e a.0, All-trans d p x ys e a.1)

steps-InOrder :
    (d : MonotonicDirection) (p : Ordered) (xs : List Ordered)
    → (steps d (some p) xs ≡ 0) ↔ InOrder d (p ∷ xs)
unfolding steps
steps-InOrder d p [] = (λ e. (tt, tt), λ o. refl)
steps-InOrder d p (x ∷ xs) = (
  λ e.
      let first : follows d p x ≡ ok true = good-follows d p x (ground (arith, e)) in
      let rest : InOrder d (x ∷ xs) = (steps-InOrder d x xs).0 (omega (arith, e)) in
      ((first, All-trans d p x xs first rest.0), rest),
  λ o.
      let first = follows-good d p x true o.0.0 in
      let rest = (steps-InOrder d x xs).1 o.1 in ground (arith, first, rest),
)

pub steps-none : (d : MonotonicDirection) (xs : List Ordered) → (steps d none xs ≡ 0) ↔ InOrder d xs
unfolding steps
steps-none d [] = (λ e. tt, λ o. refl)
steps-none d (x ∷ xs) = steps-InOrder d x xs

pub steps-length :
    (d : MonotonicDirection) (p : Option Ordered) (cells : List (Option Ordered))
    → steps d p (present cells) ≤ length cells
unfolding steps
steps-length d p [] = omega arith
steps-length d p (none ∷ cells) = omega (arith, steps-length d p cells)
steps-length d none (some x ∷ cells) = omega (arith, steps-length d (some x) cells)
steps-length d (some q) (some x ∷ cells) = ground (arith, steps-length d (some x) cells)
