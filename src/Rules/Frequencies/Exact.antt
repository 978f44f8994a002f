-- ===== src/Rules/Frequencies/Exact.antt =====
-- What `Frequencies` of execution/total.rs counts over a column, and when its budget refuses.
use proofframe.Prelude.{
  ℕ, zero, suc, ◌+◌, ◌-◌, ◌^◌, ◌≤◌, ◌<◌, ◌≡◌, refl, sym, ap, subst, ◌∙◌, ◌⊎◌, inl, inr, false, List,
  [], ◌∷◌, Option, none, some, length, ◌==◌, if◌then◌else◌, arith,
}
use proofframe.Error.{ProofFrameError, ErrorCode, error_code, Result, ok, err}
use proofframe.Rules.Frequencies.{Frequencies, new, get, cost, add_all, top, dominant}
use proofframe.Rules.Frequencies.Maps.{
  occurrences, counted, or_zero, same_key_refl, Fresh, top_found,
}
use proofframe.Rules.Frequencies.Charge.{Tracks, add-Added}

-- The most common of the keys, with its count and its share.
abbrev pub IsDominant : {F : Type 0} → (ℕ → ℕ → F) → List (List ℕ) → Option (F × ℕ) → Type 0
IsDominant divide keys answer =
    ((keys ≡ []) × (answer ≡ none))
    ⊎ ((m : ℕ) × (answer ≡ some (divide m (length keys), m))
        × ((key : List ℕ) → occurrences key keys ≤ m)
        × ((key : List ℕ) × (occurrences key keys ≡ m)))

or_zero-counted : (n : ℕ) → or_zero (counted n) ≡ n
or_zero-counted zero = refl
or_zero-counted (suc n) = refl

some_first :
    (key : List ℕ) (keys : List (List ℕ))
    → occurrences key (key ∷ keys) ≡ suc (occurrences key keys)
unfolding occurrences
some_first key keys = rw (same_key_refl key) refl

dominant_of :
    {F : Type 0} (divide : ℕ → ℕ → F) (f : Frequencies) (n m : ℕ)
    → f.total ≡ suc n
    → top f.counts ≡ some m
    → dominant divide f ≡ some (divide m (suc n), m)
unfolding dominant
dominant_of divide f n m whole e =
    let some_rows : (f.total == 0) ≡ false = ground (arith, whole) in
    rw (some_rows, e) (ap (λ rows. some (divide m rows, m)) whole)

dominant_tracked :
    {F : Type 0} (divide : ℕ → ℕ → F) (keys seen : List (List ℕ)) (f : Frequencies)
    → ((key : List ℕ) → occurrences key seen ≡ occurrences key keys)
    → length seen ≡ length keys
    → Tracks seen f
    → IsDominant divide keys (dominant divide f)
unfolding dominant
dominant_tracked divide [] seen f same long (tracks, total, fresh) =
    let nothing : f.total ≡ 0 = total ∙ long in inl (refl, rw nothing refl)
dominant_tracked divide (k ∷ keys) seen f same long (tracks, total, fresh) =
    let whole : f.total ≡ suc (length keys) = total ∙ long in
    let count : (key : List ℕ) → get key f.counts ≡ counted (occurrences key (k ∷ keys)) =
      λ key. tracks key ∙ ap counted (same key) in
    let (m, e, (above, (key, reached))) =
      top_found k (suc (occurrences k keys)) f.counts (count k ∙ ap counted (some_first k keys))
        fresh in
    inr (
      m,
      dominant_of divide f (length keys) m whole e,
      λ key.
          (subst (λ n. n ≤ m)
            (ap or_zero (count key) ∙ or_zero-counted (occurrences key (k ∷ keys))) (above key)),
      (
        key,
        sym (or_zero-counted (occurrences key (k ∷ keys))) ∙ ap or_zero (sym (count key) ∙ reached),
      ),
    )

abbrev pub rev_onto : List (List ℕ) → List (List ℕ) → List (List ℕ)
rev_onto [] seen = seen
rev_onto (key ∷ keys) seen = rev_onto keys (key ∷ seen)

occurrences-rev_onto :
    (key : List ℕ) (keys seen : List (List ℕ))
    → occurrences key (rev_onto keys seen) ≡ occurrences key keys + occurrences key seen
unfolding occurrences
occurrences-rev_onto key [] seen = omega arith
occurrences-rev_onto key (k ∷ keys) seen =
    let rest = occurrences-rev_onto key keys (k ∷ seen) in ground arith

length-rev_onto :
    (keys seen : List (List ℕ)) → length (rev_onto keys seen) ≡ length keys + length seen
length-rev_onto [] seen = omega arith
length-rev_onto (k ∷ keys) seen = omega (arith, length-rev_onto keys (k ∷ seen))

-- what the keys cost, each of them where it comes first
unfoldable pub new_cost : List (List ℕ) → List (List ℕ) → ℕ
unfolding occurrences
new_cost seen [] = 0
new_cost seen (key ∷ keys) =
    (if occurrences key seen == 0 then cost key else 0) + new_cost (key ∷ seen) keys

-- what the loop does from a map that counts the keys before
abbrev pub Counted : List (List ℕ) → List (List ℕ) → Frequencies → Result Frequencies → Type 0
Counted keys seen f result =
    ((f' : Frequencies) × (result ≡ ok f')
      × (f.used + new_cost seen keys ≤ f.budget)
      × Tracks (rev_onto keys seen) f')
    ⊎ ((e : ProofFrameError) × (result ≡ err e)
        × (error_code e ≡ ErrorCode.resource_limit)
        × (f.budget < f.used + new_cost seen keys))

add_all-Counted :
    (keys seen : List (List ℕ)) (f : Frequencies)
    → length keys + length seen < 2 ^ 64
    → f.budget < 2 ^ 64 - 1
    → f.used ≤ f.budget
    → Tracks seen f
    → Counted keys seen f (add_all keys f)
unfolding add_all new_cost
add_all-Counted [] seen f fits small within tracks = inl (f, refl, omega (arith, within), tracks)
add_all-Counted (key ∷ keys) seen f fits small within tracks =
    elim (add-Added key seen f (omega (arith, fits)) small within tracks) [
      | inl (f', e, tracks', same, used, within') ↦
          elim (add_all-Counted keys (key ∷ seen) f' (omega (arith, fits)) (rw same small)
            (rw same within') tracks') [
              | inl (last, e', room, done) ↦
                  inl (last, rw e e', omega (arith, same, used, room), done)
              | inr (failure, e', code, over) ↦
                  inr (failure, rw e e', code, omega (arith, same, used, over))
            ]
      | inr (failure, e, code, over) ↦ inr (failure, rw e refl, code, omega (arith, over))
    ]

new-Tracks : (budget : ℕ) → Tracks [] (new budget)
unfolding get occurrences Fresh
new-Tracks budget = (λ key. refl, refl, tt)

none_before : (key : List ℕ) (n : ℕ) → n + occurrences key [] ≡ n
unfolding occurrences
none_before key n = omega arith

-- Over a column of fewer than 2 ^ 64 rows and with a budget below 2 ^ 64 - 1, the loop ends with a map where
-- the distinct keys, each with 56 bytes more than its own, fit the budget, and then `dominant` answers the
-- count of the most common key and the quotient of that count and the rows, or nothing for no row. Where they
-- do not fit, it ends with a resource limit.
pub add_all-IsDominant :
    {F : Type 0} (divide : ℕ → ℕ → F) (keys : List (List ℕ)) (budget : ℕ)
    → length keys < 2 ^ 64
    → budget < 2 ^ 64 - 1
    → ((f : Frequencies) × (add_all keys (new budget) ≡ ok f)
        × (new_cost [] keys ≤ budget)
        × IsDominant divide keys (dominant divide f))
      ⊎ ((e : ProofFrameError) × (add_all keys (new budget) ≡ err e)
          × (error_code e ≡ ErrorCode.resource_limit)
          × (budget < new_cost [] keys))
add_all-IsDominant divide keys budget fits small =
    elim (add_all-Counted keys [] (new budget) (omega (arith, fits)) small (omega arith)
      (new-Tracks budget)) [
        | inl (f, e, room, tracks) ↦ inl (
          f,
          e,
          omega (arith, room),
          dominant_tracked divide keys (rev_onto keys []) f
              (λ key. occurrences-rev_onto key keys [] ∙ none_before key (occurrences key keys))
              (omega (arith, length-rev_onto keys [])) tracks,
        )
        | inr (e, failed, code, over) ↦ inr (e, failed, code, omega (arith, over))
      ]
