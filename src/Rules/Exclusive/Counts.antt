-- ===== src/Rules/Exclusive/Counts.antt =====
-- Which rows the bitmap of execution/exclusive.rs marks.
use proofframe.Prelude.{
  ℕ, Option-cases, inl, inr, zero, suc, ◌+◌, ◌<◌, min, ◌≡◌, refl, sym, ap, ◌∙◌, Bool, true, false,
  not, ◌&&◌, ◌||◌, List, [], ◌∷◌, some, String, arith, length, leb, if◌then◌else◌, All, map,
}
use proofframe.Rules.Exclusive.{
  bit, zip_bits, filled_with, RecordBatch, ExclusiveMode, at_most_one, exactly_one,
  MutuallyExclusivePlan, present_bits, count_columns, by_mode, violations, is_null, filled_names,
  filled_columns, breaks,
}

bit-zip :
    (f : Bool → Bool → Bool) (xs bs : List Bool) (i : ℕ)
    → i < length xs
    → i < length bs
    → bit (zip_bits f xs bs) i ≡ f (bit xs i) (bit bs i)
bit-zip f [] bs i l m = ground (arith, l)
bit-zip f (a ∷ xs) [] i l m = ground (arith, m)
bit-zip f (a ∷ xs) (b ∷ bs) zero l m = refl
bit-zip f (a ∷ xs) (b ∷ bs) (suc i) l m = bit-zip f xs bs i (omega (arith, l)) (omega (arith, m))

length-zip :
    (f : Bool → Bool → Bool) (xs bs : List Bool)
    → length (zip_bits f xs bs) ≡ min (length xs) (length bs)
length-zip f [] bs = omega arith
length-zip f (a ∷ xs) [] = omega arith
length-zip f (a ∷ xs) (b ∷ bs) = omega (arith, length-zip f xs bs)

length-filled_with : (b : Bool) (n : ℕ) → length (filled_with b n) ≡ n
length-filled_with b zero = refl
length-filled_with b (suc n) = omega (arith, length-filled_with b n)

bit-filled_with : (b : Bool) (n i : ℕ) → i < n → bit (filled_with b n) i ≡ b
bit-filled_with b zero i l = ground (arith, l)
bit-filled_with b (suc n) zero l = refl
bit-filled_with b (suc n) (suc i) l = bit-filled_with b n i (omega (arith, l))

bit-not : (xs : List Bool) (i : ℕ) → i < length xs → bit (map not xs) i ≡ not (bit xs i)
bit-not [] i l = ground (arith, l)
bit-not (a ∷ xs) zero l = refl
bit-not (a ∷ xs) (suc i) l = bit-not xs i (omega (arith, l))

length-not : (xs : List Bool) → length (map not xs) ≡ length xs
length-not [] = refl
length-not (a ∷ xs) = omega (arith, length-not xs)

-- A bitmap has a bit for each row.
abbrev pub HasRows : RecordBatch → ℕ → Type 0
HasRows batch c = (bits : List Bool) → batch.nulls c ≡ some bits → length bits ≡ batch.num_rows

-- how many of some columns a row fills
abbrev pub filled_count : RecordBatch → ℕ → List ℕ → ℕ
filled_count batch row [] = 0
filled_count batch row (c ∷ cs) = (if is_null batch c row then 0 else 1) + filled_count batch row cs

length-filled_names :
    (batch : RecordBatch) (row : ℕ) (cs : List ℕ) (ns : List String)
    → length cs ≡ length ns
    → length (filled_names batch row cs ns) ≡ filled_count batch row cs
unfolding filled_names
length-filled_names batch row [] [] e = refl
length-filled_names batch row [] (n ∷ ns) e = refl
length-filled_names batch row (c ∷ cs) [] e = ground (arith, e)
length-filled_names batch row (c ∷ cs) (n ∷ ns) e =
    ground (arith, length-filled_names batch row cs ns (omega (arith, e)))

not-not : (b : Bool) → b ≡ not (not b)
not-not true = refl
not-not false = refl

present-bit :
    (batch : RecordBatch) (c row : ℕ)
    → row < batch.num_rows
    → bit (present_bits (batch.nulls c) batch.num_rows) row ≡ not (is_null batch c row)
present-bit batch c row l = elim (Option-cases (batch.nulls c)) [
  | inl all ↦ rw (all, is_null) (bit-filled_with true batch.num_rows row l)
  | inr (bits, one) ↦ rw (one, is_null) (not-not (bit bits row))
]

present-length :
    (batch : RecordBatch) (c : ℕ)
    → HasRows batch c
    → length (present_bits (batch.nulls c) batch.num_rows) ≡ batch.num_rows
present-length batch c has = elim (Option-cases (batch.nulls c)) [
  | inl all ↦ rw all (length-filled_with true batch.num_rows)
  | inr (bits, one) ↦ rw one (has bits one)
]

-- One column more: the two bitmaps hold whether a row has one, and two, of the columns so far.
next-once : (a b : Bool) (n : ℕ) → a ≡ leb 1 n → (a || not b) ≡ leb 1 ((if b then 0 else 1) + n)
next-once a b n e = ground (arith, e)

next-twice :
    (a t b : Bool) (n : ℕ)
    → a ≡ leb 1 n
    → t ≡ leb 2 n
    → (t || (a && not b)) ≡ leb 2 ((if b then 0 else 1) + n)
next-twice a t b n e f = ground (arith, e, f)

record IsCounted (batch : RecordBatch) (row n : ℕ) (bits : List Bool × List Bool) : Type 0 where
  once_length : length bits.0 ≡ batch.num_rows
  twice_length : length bits.1 ≡ batch.num_rows
  once : bit bits.0 row ≡ leb 1 n
  twice : bit bits.1 row ≡ leb 2 n

step-IsCounted :
    (batch : RecordBatch) (row n c : ℕ) (once twice : List Bool)
    → row < batch.num_rows
    → HasRows batch c
    → IsCounted batch row n (once, twice)
    → IsCounted batch row ((if is_null batch c row then 0 else 1) + n) (
      zip_bits (λ a b. a || b) once (present_bits (batch.nulls c) batch.num_rows),
      zip_bits
          (λ a b. a || b)
          twice
          (zip_bits (λ a b. a && b) once (present_bits (batch.nulls c) batch.num_rows)),
    )
step-IsCounted batch row n c once twice l has k =
    let present : List Bool = present_bits (batch.nulls c) batch.num_rows in
    let long = present-length batch c has in
    let both : List Bool = zip_bits (λ a b. a && b) once present in
    let both_long : length both ≡ min (length once) (length present) =
      length-zip (λ a b. a && b) once present in
    record {
      once_length = omega (arith, length-zip (λ a b. a || b) once present, k.once_length, long);
      twice_length = omega (
        arith,
        length-zip (λ a b. a || b) twice both,
        both_long,
        k.once_length,
        k.twice_length,
        long,
      );
      once =
          bit-zip (λ a b. a || b) once present row (omega (arith, l, k.once_length))
            (omega (arith, l, long))
          ∙ ap (λ b. bit once row || b) (present-bit batch c row l)
          ∙ next-once (bit once row) (is_null batch c row) n k.once;
      twice =
          bit-zip (λ a b. a || b) twice both row (omega (arith, l, k.twice_length))
            (omega (arith, l, both_long, k.once_length, long))
          ∙ ap (λ b. bit twice row || b)
              (bit-zip (λ a b. a && b) once present row (omega (arith, l, k.once_length))
                  (omega (arith, l, long))
                ∙ ap (λ b. bit once row && b) (present-bit batch c row l))
          ∙ next-twice (bit once row) (bit twice row) (is_null batch c row) n k.once k.twice;
    }

recount :
    (batch : RecordBatch) (row m n : ℕ) (bits : List Bool × List Bool)
    → m ≡ n
    → IsCounted batch row m bits
    → IsCounted batch row n bits
recount batch row m n bits e k = rw (sym e) k

count_columns-IsCounted :
    (batch : RecordBatch) (row n : ℕ) (cs : List ℕ) (once twice : List Bool)
    → row < batch.num_rows
    → All (HasRows batch) cs
    → IsCounted batch row n (once, twice)
    → IsCounted batch row (filled_count batch row cs + n) (count_columns batch cs (once, twice))
unfolding count_columns
count_columns-IsCounted batch row n [] once twice l has k =
    recount batch row n (0 + n) _ (omega arith) k
count_columns-IsCounted batch row n (c ∷ cs) once twice l has k =
    let step = step-IsCounted batch row n c once twice l has.0 k in
    let one : ℕ = if is_null batch c row then 0 else 1 in
    recount batch row (filled_count batch row cs + (one + n)) (one + filled_count batch row cs + n)
      _ (omega arith) (count_columns-IsCounted batch row (one + n) cs _ _ l has.1 step)

by_mode-breaks :
    (batch : RecordBatch) (row n : ℕ) (mode : ExclusiveMode) (bits : List Bool × List Bool)
    → row < batch.num_rows
    → IsCounted batch row n bits
    → bit (by_mode mode bits) row ≡ breaks mode n
unfolding by_mode
by_mode-breaks batch row n at_most_one (once, twice) l k = k.twice
by_mode-breaks batch row n exactly_one (once, twice) l k =
    bit-zip (λ a b. a || b) twice (map not once) row (omega (arith, l, k.twice_length))
      (omega (arith, l, k.once_length, length-not once))
    ∙ ground (arith, bit-not once row (omega (arith, l, k.once_length)), k.once, k.twice)

-- The bitmap marks exactly the rows that break the rule: for a plan with a name for each column, in a
-- batch whose bitmaps have a bit for each row, a row is marked where the columns of the plan that it fills, those that the finding names, are
-- two or more under `at_most_one`, and are none or two or more under `exactly_one`.
pub violations-filled_columns :
    (plan : MutuallyExclusivePlan) (batch : RecordBatch) (row : ℕ)
    → row < batch.num_rows
    → All (HasRows batch) plan.columns
    → length plan.columns ≡ length plan.names
    → bit (violations plan batch) row ≡ breaks plan.mode (length (filled_columns plan batch row))
unfolding violations filled_columns
violations-filled_columns plan batch row l has named =
    by_mode-breaks batch row (filled_count batch row plan.columns + 0) plan.mode _ l (
      count_columns-IsCounted batch row 0 plan.columns _ _ l has (record {
        once_length = length-filled_with false batch.num_rows;
        twice_length = length-filled_with false batch.num_rows;
        once = bit-filled_with false batch.num_rows row l ∙ ground arith;
        twice = bit-filled_with false batch.num_rows row l ∙ ground arith;
      }))
    ∙ ap (breaks plan.mode)
        (omega (arith, length-filled_names batch row plan.columns plan.names named))
