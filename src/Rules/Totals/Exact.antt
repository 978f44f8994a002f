-- ===== src/Rules/Totals/Exact.antt =====
-- What the totals of execution/total.rs are over the batches of a column.
use proofframe.Prelude.{
  ℕ, zero, suc, ◌+◌, ◌≤◌, ◌≡◌, refl, sym, ap, ap₂, ◌∙◌, ◌↔◌, ◌⊎◌, inl, inr, Bool, true, false, List,
  [], ◌∷◌, ◌++◌, map, Option, none, some, take, Bool-cases, if◌then◌else◌, arith, String,
}
use proofframe.Error.{Result, ok, err, ◌>>=◌, corrupt_data}
use proofframe.Rules.Ordering.{ℤ}
use proofframe.Rules.Totals.{
  in_range, is_less, Floats, Total, integer, integers, SumBounds, add_integer, add_integers,
  update_sum, outside, integer_total, beyond, above,
}
use proofframe.Rules.Totals.Sums.{
  difference, difference_add, gain, loss, gains, losses, flatten, not_less, not_above,
}

-- the sum of the first cells, from `a - b`
abbrev pub partial : ℕ → ℕ → List (Option ℤ) → ℕ → ℤ
partial a b cells k = difference (a + gains (take k cells)) (b + losses (take k cells))

partial_zero : (a b : ℕ) (cells : List (Option ℤ)) → partial a b cells 0 ≡ difference a b
partial_zero a b cells = ap₂ difference (omega arith) (omega arith)

partial_empty : (a b k : ℕ) → partial a b [] k ≡ difference a b
partial_empty a b zero = partial_zero a b []
partial_empty a b (suc k) = ap₂ difference (omega arith) (omega arith)

partial_next :
    (v : ℤ) (a b : ℕ) (cells : List (Option ℤ)) (k : ℕ)
    → partial (a + gain v) (b + loss v) cells k ≡ partial a b (some v ∷ cells) (suc k)
partial_next v a b cells k = ap₂ difference (omega arith) (omega arith)

null_next :
    (a b : ℕ) (cells : List (Option ℤ))
    → in_range (difference a b) ≡ true
    → ((k : ℕ) → in_range (partial a b cells k) ≡ true)
    → (k : ℕ) → in_range (partial a b (none ∷ cells) k) ≡ true
null_next a b cells inside all zero = ap in_range (partial_zero a b (none ∷ cells)) ∙ inside
null_next a b cells inside all (suc k) = all k

cell_next :
    (v : ℤ) (a b : ℕ) (cells : List (Option ℤ))
    → in_range (difference a b) ≡ true
    → ((k : ℕ) → in_range (partial (a + gain v) (b + loss v) cells k) ≡ true)
    → (k : ℕ) → in_range (partial a b (some v ∷ cells) k) ≡ true
cell_next v a b cells inside all zero = ap in_range (partial_zero a b (some v ∷ cells)) ∙ inside
cell_next v a b cells inside all (suc k) = ap in_range (sym (partial_next v a b cells k)) ∙ all k

module _ {F : Type 0} (f64 : Floats F) where
  add_integers-append :
      (cells rest : List (Option ℤ)) (total : Total F)
      → add_integers f64 (cells ++ rest) total
        ≡ (add_integers f64 cells total >>= add_integers f64 rest)
  unfolding add_integers
  add_integers-append [] rest total = refl
  add_integers-append (none ∷ cells) rest total = add_integers-append cells rest total
  add_integers-append (some v ∷ cells) rest total =
      elim (add_integer f64 v total)
        as (λ r.
          (r >>= add_integers f64 (cells ++ rest))
          ≡ ((r >>= add_integers f64 cells) >>= add_integers f64 rest)) [
            | err e ↦ refl
            | ok next ↦ add_integers-append cells rest next
          ]

  update_sum-integers :
      (batches : List (List (Option ℤ))) (total : Total F)
      → update_sum f64 (map integers batches) total ≡ add_integers f64 (flatten batches) total
  unfolding update_sum add_integers
  update_sum-integers [] total = refl
  update_sum-integers (batch ∷ batches) total =
      elim (add_integers f64 batch total)
        as (λ r.
          (r >>= update_sum f64 (map integers batches))
          ≡ (r >>= add_integers f64 (flatten batches))) [
            | err e ↦ refl
            | ok next ↦ update_sum-integers batches next
          ]
      ∙ sym (add_integers-append batch (flatten batches) total)

  -- A column of integers has its exact sum, or some first cells of it have a sum that is no i128.
  abbrev Sums : ℕ → ℕ → List (Option ℤ) → Result (Total F) → Type 0
  Sums a b cells result =
      ((result ≡ ok (integer (difference (a + gains cells) (b + losses cells))))
        × ((k : ℕ) → in_range (partial a b cells k) ≡ true))
      ⊎ ((result ≡ err (corrupt_data "Column total left the 128-bit integer range"))
          × ((k : ℕ) × (in_range (partial a b cells k) ≡ false)))

  checked_fits :
      (v : ℤ) (a b : ℕ)
      → in_range (difference (a + gain v) (b + loss v)) ≡ true
      → add_integer f64 v (integer (difference a b))
        ≡ ok (integer (difference (a + gain v) (b + loss v)))
  unfolding add_integer
  checked_fits v a b inside = rw (difference_add v a b, inside) refl

  checked_leaves :
      (v : ℤ) (a b : ℕ)
      → in_range (difference (a + gain v) (b + loss v)) ≡ false
      → add_integer f64 v (integer (difference a b))
        ≡ err (corrupt_data "Column total left the 128-bit integer range")
  unfolding add_integer
  checked_leaves v a b beyond = rw (difference_add v a b, beyond) refl

  add_integers-Sums :
      (cells : List (Option ℤ)) (a b : ℕ)
      → in_range (difference a b) ≡ true
      → Sums a b cells (add_integers f64 cells (integer (difference a b)))
  unfolding add_integers
  add_integers-Sums [] a b inside = inl (
    ap (λ t. ok (integer t)) (ap₂ difference (omega arith) (omega arith)),
    λ k. ap in_range (partial_empty a b k) ∙ inside,
  )
  add_integers-Sums (none ∷ cells) a b inside = elim (add_integers-Sums cells a b inside) [
    | inl (e, all) ↦ inl (e, null_next a b cells inside all)
    | inr (e, (k, left)) ↦ inr (e, (suc k, left))
  ]
  add_integers-Sums (some v ∷ cells) a b inside =
      elim (Bool-cases (in_range (difference (a + gain v) (b + loss v)))) [
        | inl fits ↦ elim (add_integers-Sums cells (a + gain v) (b + loss v) fits) [
          | inl (e, all) ↦ inl (
            rw (add_integers, checked_fits v a b fits)
                (e ∙ ap (λ t. ok (integer t)) (ap₂ difference (omega arith) (omega arith))),
            cell_next v a b cells inside all,
          )
          | inr (e, (k, left)) ↦ inr (
            rw (add_integers, checked_fits v a b fits) e,
            (suc k, ap in_range (sym (partial_next v a b cells k)) ∙ left),
          )
        ]
        | inr leaves ↦ inr (
          rw (add_integers, checked_leaves v a b leaves) refl,
          (
            suc zero,
            ap in_range (
                  sym (partial_next v a b cells zero)
                  ∙ partial_zero (a + gain v) (b + loss v) cells)
                ∙ leaves,
          ),
        )
      ]

-- A sum `a - b` keeps the bounds of a rule.
abbrev pub Keeps : Option ℤ → Option ℤ → ℕ → ℕ → Type 0
Keeps none none a b = Unit
Keeps none (some max) a b = a + loss max ≤ gain max + b
Keeps (some min) none a b = gain min + b ≤ a + loss min
Keeps (some min) (some max) a b = (gain min + b ≤ a + loss min) × (a + loss max ≤ gain max + b)

refused_iff :
    (test : Bool) (reason : String) (rest : Option String)
    → ((if test then some reason else rest) ≡ none) ↔ ((test ≡ false) × (rest ≡ none))
refused_iff true reason rest = (λ e. cc, λ e. cc)
refused_iff false reason rest = (λ e. (refl, e), λ e. e.1)

module _ {F : Type 0} (f64 : Floats F) where
  above-none_iff :
      (max : ℤ) (a b : ℕ)
      → (above is_less f64.integer_text (some max) (difference a b) ≡ none)
        ↔ (a + loss max ≤ gain max + b)
  above-none_iff max a b =
      let test = refused_iff (is_less max (difference a b)) _ none in
      (λ e. (not_above max a b).0 (test.0 e).0, λ keeps. test.1 ((not_above max a b).1 keeps, refl))

  outside-Keeps :
      (min max : Option ℤ) (a b : ℕ)
      → (outside f64 (integer (difference a b)) (SumBounds.integer min max) ≡ none)
        ↔ Keeps min max a b
  unfolding outside
  outside-Keeps none none a b = (λ e. tt, λ e. refl)
  outside-Keeps none (some max) a b = above-none_iff max a b
  outside-Keeps (some min) none a b =
      let test = refused_iff (is_less (difference a b) min) _ none in
      (λ e. (not_less min a b).0 (test.0 e).0, λ keeps. test.1 ((not_less min a b).1 keeps, refl))
  outside-Keeps (some min) (some max) a b =
      let test =
        refused_iff (is_less (difference a b) min) _
          (above is_less f64.integer_text (some max) (difference a b)) in
      let rest = above-none_iff max a b in
      (
        λ e. ((not_less min a b).0 (test.0 e).0, rest.0 (test.0 e).1),
        λ keeps. test.1 ((not_less min a b).1 keeps.0, rest.1 keeps.1),
      )

  -- However a column of integers is cut into batches, its total is its exact sum, what its values add less
  -- what they take away, and then the bounds refuse it exactly where that sum is outside them; or the rule
  -- ends with an error, and some first cells of the column have a sum that is no i128.
  pub update_sum-exact :
      (batches : List (List (Option ℤ))) (min max : Option ℤ)
      → ((update_sum f64 (map integers batches) (integer_total f64)
            ≡ ok (integer (difference (gains (flatten batches)) (losses (flatten batches)))))
          × ((k : ℕ) → in_range (partial 0 0 (flatten batches) k) ≡ true)
          × ((outside f64
                  (integer (difference (gains (flatten batches)) (losses (flatten batches))))
                  (SumBounds.integer min max)
                ≡ none)
              ↔ Keeps min max (gains (flatten batches)) (losses (flatten batches))))
        ⊎ ((update_sum f64 (map integers batches) (integer_total f64)
              ≡ err (corrupt_data "Column total left the 128-bit integer range"))
            × ((k : ℕ) × (in_range (partial 0 0 (flatten batches) k) ≡ false)))
  update_sum-exact batches min max =
      let cells = flatten batches in
      let one = update_sum-integers f64 batches (integer_total f64) in
      elim (add_integers-Sums f64 cells 0 0 refl) [
        | inl (e, all) ↦ inl (
          one ∙ e ∙ ap (λ t. ok (integer t)) (ap₂ difference (omega arith) (omega arith)),
          all,
          outside-Keeps min max (gains cells) (losses cells),
        )
        | inr (e, left) ↦ inr (one ∙ e, left)
      ]
