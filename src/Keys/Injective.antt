-- ===== src/Keys/Injective.antt =====
-- Two rows have one composite key in execution/dataset_state.rs exactly where their columns agree.
use proofframe.Prelude.{
  ℕ, ◌≡◌, refl, sym, ap, ap₂, subst, ◌∙◌, Bool, true, false, ◌&&◌, ◌||◌, Bool-cases, inl, inr, List,
  [], ◌∷◌, ◌++◌, Option, none, some, drop, ◌==◌, if◌then◌else◌, append_assoc, append-nil, arith,
  All, ◌↔◌,
}
use proofframe.Error.{ok, ◌>>=◌, bind-ok, ok-eq}
use proofframe.RunFile.{to_le_bytes}
use proofframe.RunFile.Bytes.{length-to_le_bytes, drop-append}
use proofframe.Keys.{
  Values, numbers, booleans, texts, others, Array, append_scalar, append_column, append_columns,
  composite_key, append_bytes,
}
use proofframe.Keys.Decode.{
  Scalar, scalar, cell, FitsType, FitsScalar, encode_scalar, decode_scalar,
  decode_scalar-encode_scalar,
}

-- a cell behind the index of its column
abbrev encode_cell : Option Scalar → List ℕ
encode_cell none = 0 ∷ []
encode_cell (some s) = 1 ∷ encode_scalar s

abbrev FitsCell : Option Scalar → Type 0
FitsCell none = Unit
FitsCell (some s) = FitsScalar s

abbrev encode_row : List ℕ → (ℕ → Array) → ℕ → List ℕ
encode_row [] batch row = []
encode_row (c ∷ cs) batch row =
    to_le_bytes 8 c ++ (encode_cell (cell (batch c) row) ++ encode_row cs batch row)

abbrev pub any_null : List ℕ → (ℕ → Array) → ℕ → Bool
any_null [] batch row = false
any_null (c ∷ cs) batch row = (batch c).is_null row || any_null cs batch row

-- The values of a row that a rule reads fit their types.
abbrev pub FitsRow : List ℕ → (ℕ → Array) → ℕ → Type 0
FitsRow cs batch row = All (λ c. FitsType (batch c).values row) cs

and_true : (b : Bool) → b ≡ (b && true)
and_true true = refl
and_true false = refl

or_nothing : (a b : Bool) → a ≡ (a || (b && false))
or_nothing a b = ground arith

spread : (a b c d : Bool) → ((a || (b && c)) || (b && d)) ≡ (a || (b && (c || d)))
spread a b c d = ground arith

append_scalar-ok :
    (values : Values) (row : ℕ) (output key : List ℕ)
    → FitsType values row
    → append_scalar values row output ≡ ok key
    → (key ≡ output ++ encode_scalar (scalar values row)) × FitsScalar (scalar values row)
unfolding append_scalar append_bytes
append_scalar-ok (numbers p value) row output key fits e = (sym (ok-eq _ _ e), fits)
append_scalar-ok (booleans value) row output key fits e = (sym (ok-eq _ _ e), tt)
append_scalar-ok (texts t value) row output key fits e = (sym (ok-eq _ _ e), fits)
append_scalar-ok (others data_type) row output key fits e = cc

-- What a column adds to a key, and whether it is a null that the rule rejects.
append_column-ok :
    (reject : Bool) (c : ℕ) (array : Array) (row : ℕ) (output key : List ℕ) (rejected r : Bool)
    → FitsType array.values row
    → append_column reject c array row (output, rejected) ≡ ok (key, r)
    → (key ≡ output ++ (to_le_bytes 8 c ++ encode_cell (cell array row)))
      × (FitsCell (cell array row) × (r ≡ (rejected || (reject && array.is_null row))))
unfolding append_column
append_column-ok reject c array row output key rejected r fits e =
    elim (Bool-cases (array.is_null row)) [
      | inl missing ↦
          let done : ok (output ++ (to_le_bytes 8 c ++ (0 ∷ [])), rejected || reject)
              ≡ ok (key, r) =
            rw missing at e in
          let same = ok-eq _ _ done in
          rw missing (
            sym (ap (λ (p : List ℕ × Bool). p.0) same),
            (
              tt,
              sym (ap (λ (p : List ℕ × Bool). p.1) same)
                  ∙ ap (λ b. rejected || b) (and_true reject),
            ),
          )
      | inr there ↦
          let index : List ℕ = to_le_bytes 8 c in
          let start : List ℕ = output ++ (index ++ (1 ∷ [])) in
          let done : (append_scalar array.values row start
                >>= (λ appended. ok (appended, rejected)))
              ≡ ok (key, r) =
            rw there at e in
          let (appended, ran, built) =
            bind-ok (append_scalar array.values row start) (λ appended. ok (appended, rejected))
              (key, r) done in
          let (bytes, fits') = append_scalar-ok array.values row start appended fits ran in
          let same = ok-eq _ _ built in
          let encoded : List ℕ = encode_scalar (scalar array.values row) in
          rw there (
            sym (ap (λ (p : List ℕ × Bool). p.0) same)
                ∙ bytes
                ∙ append_assoc output (index ++ (1 ∷ [])) encoded
                ∙ ap (λ b. output ++ b) (append_assoc index (1 ∷ []) encoded),
            (fits', sym (ap (λ (p : List ℕ × Bool). p.1) same) ∙ or_nothing rejected reject),
          )
    ]

append_columns-ok :
    (reject : Bool) (cs : List ℕ) (batch : ℕ → Array) (row : ℕ) (output key : List ℕ)
    (rejected r : Bool)
    → FitsRow cs batch row
    → append_columns reject cs batch row (output, rejected) ≡ ok (key, r)
    → (key ≡ output ++ encode_row cs batch row)
      × (All (λ c. FitsCell (cell (batch c) row)) cs
          × (r ≡ (rejected || (reject && any_null cs batch row))))
unfolding append_columns
append_columns-ok reject [] batch row output key rejected r fits e =
    let same = ok-eq _ _ e in
    (
      sym (ap (λ (p : List ℕ × Bool). p.0) same) ∙ sym (append-nil output),
      (tt, sym (ap (λ (p : List ℕ × Bool). p.1) same) ∙ or_nothing rejected reject),
    )
append_columns-ok reject (c ∷ cs) batch row output key rejected r fits e =
    let ((output', rejected'), first, rest) =
      bind-ok (append_column reject c (batch c) row (output, rejected))
        (λ scratch. append_columns reject cs batch row scratch) (key, r) e in
    let (bytes, (fits', nulls)) =
      append_column-ok reject c (batch c) row output output' rejected rejected' fits.0 first in
    let (bytes', (all_fit, nulls')) =
      append_columns-ok reject cs batch row output' key rejected' r fits.1 rest in
    let index : List ℕ = to_le_bytes 8 c in
    let one : List ℕ = encode_cell (cell (batch c) row) in
    let others : List ℕ = encode_row cs batch row in
    (
      bytes'
          ∙ ap (λ b. b ++ others) bytes
          ∙ append_assoc output (index ++ one) others
          ∙ ap (λ b. output ++ b) (append_assoc index one others),
      (
        (fits', all_fit),
        nulls'
            ∙ ap (λ b. b || (reject && any_null cs batch row)) nulls
            ∙ spread rejected reject ((batch c).is_null row) (any_null cs batch row),
      ),
    )

decode_cell : List ℕ → Option (Option Scalar × List ℕ)
decode_cell [] = none
decode_cell (f ∷ bytes) =
    if f == 0
    then some (none, bytes)
    else (elim (decode_scalar bytes) [ none ↦ none | some (s, rest) ↦ some (some s, rest) ])

decode_cell-encode_cell :
    (x : Option Scalar) (rest : List ℕ)
    → FitsCell x
    → decode_cell (encode_cell x ++ rest) ≡ some (x, rest)
unfolding decode_cell
decode_cell-encode_cell none rest fits = refl
decode_cell-encode_cell (some s) rest fits = rw (decode_scalar-encode_scalar s rest fits)

-- A cell in front of others is told from every other cell.
encode_cell-injective :
    (x y : Option Scalar) (p q : List ℕ)
    → FitsCell x
    → FitsCell y
    → encode_cell x ++ p ≡ encode_cell y ++ q
    → (x ≡ y) × (p ≡ q)
encode_cell-injective x y p q fits_x fits_y same =
    let read : some (x, p) ≡ some (y, q) =
      sym (decode_cell-encode_cell x p fits_x)
      ∙ ap decode_cell same
      ∙ decode_cell-encode_cell y q fits_y in
    let both : (x, p) ≡ (y, q) = cc in
    (ap (λ (r : Option Scalar × List ℕ). r.0) both, ap (λ (r : Option Scalar × List ℕ). r.1) both)

drop_index : (c : ℕ) (rest : List ℕ) → drop 8 (to_le_bytes 8 c ++ rest) ≡ rest
drop_index c rest =
    subst (λ n. drop n (to_le_bytes 8 c ++ rest) ≡ rest) (length-to_le_bytes 8 c)
      (drop-append (to_le_bytes 8 c) rest)

-- The rows agree in these columns: both null, or one value of one type.
abbrev pub Agree : List ℕ → (ℕ → Array) → (ℕ → Array) → ℕ → ℕ → Type 0
Agree cs batch batch' row row' = All (λ c. cell (batch c) row ≡ cell (batch' c) row') cs

encode_row-injective :
    (cs : List ℕ) (batch batch' : ℕ → Array) (row row' : ℕ)
    → All (λ c. FitsCell (cell (batch c) row)) cs
    → All (λ c. FitsCell (cell (batch' c) row')) cs
    → encode_row cs batch row ≡ encode_row cs batch' row'
    → Agree cs batch batch' row row'
encode_row-injective [] batch batch' row row' fits fits' same = tt
encode_row-injective (c ∷ cs) batch batch' row row' fits fits' same =
    let (first, rest) =
      encode_cell-injective (cell (batch c) row) (cell (batch' c) row') (encode_row cs batch row)
        (encode_row cs batch' row') fits.0 fits'.0
        (sym (drop_index c _) ∙ ap (drop 8) same ∙ drop_index c _) in
    (first, encode_row-injective cs batch batch' row row' fits.1 fits'.1 rest)

encode_row-Agree :
    (cs : List ℕ) (batch batch' : ℕ → Array) (row row' : ℕ)
    → Agree cs batch batch' row row'
    → encode_row cs batch row ≡ encode_row cs batch' row'
encode_row-Agree [] batch batch' row row' agree = refl
encode_row-Agree (c ∷ cs) batch batch' row row' agree =
    ap₂ (λ x r. to_le_bytes 8 c ++ (encode_cell x ++ r)) agree.0
      (encode_row-Agree cs batch batch' row row' agree.1)

-- Where the values fit their types, two rows whose keys were built have the same key exactly where they
-- agree in every column of the rule, null with null, in one batch or in two. A key is rejected exactly
-- where the rule rejects nulls and a column of the row is null.
pub composite_key-injective :
    (reject : Bool) (columns : List ℕ) (batch batch' : ℕ → Array) (row row' : ℕ) (key key' : List ℕ)
    (r r' : Bool)
    → FitsRow columns batch row
    → FitsRow columns batch' row'
    → composite_key reject columns batch row ≡ ok (key, r)
    → composite_key reject columns batch' row' ≡ ok (key', r')
    → ((key ≡ key') ↔ Agree columns batch batch' row row')
      × (r ≡ (reject && any_null columns batch row))
unfolding composite_key
composite_key-injective reject columns batch batch' row row' key key' r r' fits fits' e e' =
    let (bytes, (all_fit, nulls)) =
      append_columns-ok reject columns batch row [] key false r fits e in
    let (bytes', (all_fit', nulls')) =
      append_columns-ok reject columns batch' row' [] key' false r' fits' e' in
    (
      (
        λ same.
            encode_row-injective columns batch batch' row row' all_fit all_fit'
              (sym bytes ∙ same ∙ bytes'),
        λ agree. bytes ∙ encode_row-Agree columns batch batch' row row' agree ∙ sym bytes',
      ),
      nulls,
    )
