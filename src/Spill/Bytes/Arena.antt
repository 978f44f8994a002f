-- ===== src/Spill/Bytes/Arena.antt =====
-- The arena of distinct/mod.rs gives back the values that were put into it.
use proofframe.Prelude.{
  ℕ, zero, suc, ◌+◌, ◌≤◌, ◌≡◌, refl, ap, ap₂, ◌∙◌, List, [], ◌∷◌, ◌++◌, map, Option, none, some,
  length, length-append, take, drop, arith, All,
}
use proofframe.Spill.ByteSegment.{ByteIndex, ByteSegment, record_at, values, push_value}

-- Every index names bytes of the arena.
abbrev pub Fits : List ℕ → List ByteIndex → Type 0
Fits arena records = All (λ index. index.offset + index.size ≤ length arena) records

abbrev pub IsReadable : Option ByteSegment → Type 0
IsReadable none = Unit
IsReadable (some segment) = Fits segment.arena segment.records

take_within : (n : ℕ) (xs ys : List ℕ) → n ≤ length xs → take n (xs ++ ys) ≡ take n xs
take_within zero xs ys le = refl
take_within (suc n) [] ys le = ground arith
take_within (suc n) (x ∷ xs) ys le = ap (λ r. x ∷ r) (take_within n xs ys (omega (arith, le)))

slice_within :
    (k n : ℕ) (xs ys : List ℕ) → k + n ≤ length xs → take n (drop k (xs ++ ys)) ≡ take n (drop k xs)
slice_within zero n xs ys le = take_within n xs ys (omega (arith, le))
slice_within (suc k) n [] ys le = ground arith
slice_within (suc k) n (x ∷ xs) ys le = slice_within k n xs ys (omega (arith, le))

slice_last : (xs ys : List ℕ) → take (length ys) (drop (length xs) (xs ++ ys)) ≡ ys
slice_last [] ys = take_whole ys
  where
    take_whole : (ys : List ℕ) → take (length ys) ys ≡ ys
    take_whole [] = refl
    take_whole (y ∷ ys) = ap (λ r. y ∷ r) (take_whole ys)
slice_last (x ∷ xs) ys = slice_last xs ys

values_within :
    (arena more : List ℕ) (records : List ByteIndex)
    → Fits arena records
    → map (record_at (arena ++ more)) records ≡ map (record_at arena) records
values_within arena more [] fits = refl
values_within arena more (index ∷ records) (here, fits) =
    ap₂ (λ v rs. (v, index.row) ∷ rs) (slice_within index.offset index.size arena more here)
      (values_within arena more records fits)

map-append :
    (arena : List ℕ) (xs ys : List ByteIndex)
    → map (record_at arena) (xs ++ ys) ≡ map (record_at arena) xs ++ map (record_at arena) ys
map-append arena [] ys = refl
map-append arena (x ∷ xs) ys = ap (λ r. record_at arena x ∷ r) (map-append arena xs ys)

Fits-append :
    (arena more : List ℕ) (records : List ByteIndex) (last : ByteIndex)
    → Fits arena records
    → last.offset + last.size ≤ length (arena ++ more)
    → Fits (arena ++ more) (records ++ last ∷ [])
Fits-append arena more [] last fits here = (here, tt)
Fits-append arena more (index ∷ records) last (first, fits) here =
    (omega (arith, first, length-append arena more), Fits-append arena more records last fits here)

-- a value that is pushed is the last one, and leaves the others
pub values-push_value :
    (value : List ℕ) (row : ℕ) (segment : ByteSegment)
    → IsReadable (some segment)
    → values (some (push_value value row segment)) ≡ values (some segment) ++ (value, row) ∷ []
values-push_value value row segment fits =
    let arena = segment.arena in
    map-append (arena ++ value) segment.records _
    ∙ ap₂ (λ xs v. xs ++ (v, row) ∷ []) (values_within arena value segment.records fits)
        (slice_last arena value)

pub push_value-IsReadable :
    (value : List ℕ) (row : ℕ) (segment : ByteSegment)
    → IsReadable (some segment)
    → IsReadable (some (push_value value row segment))
push_value-IsReadable value row segment fits =
    Fits-append segment.arena value segment.records _ fits
      (omega (arith, length-append segment.arena value))
